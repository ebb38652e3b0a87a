-- ===== src/Tests/RequestTests.antt =====
-- The requests to the providers at a concrete conversation.
use perry_hermes.Prelude.{◌≡◌, refl, true, none, some, List, [], ◌∷◌, codes, All}
use perry_hermes.Core.Message.{assistant, plain, Message, user_message, tool_result, system_message}
use perry_hermes.Providers.Openai.{build_chat_request}
use perry_hermes.Providers.Sendable.{is_accepted, build_chat_request-accepted}
use perry_hermes.Providers.Anthropic.{
  AnthropicContentBlock, from_user, from_assistant, tool_use, text_content, blocks,
  to_anthropic_messages,
}
use perry_hermes.Providers.Conversation.{wire_items, items, to_anthropic_messages-items}
use perry_hermes.Tests.World.{Value, json}

-- an assistant's message that asks for a tool, and one that only thinks
abbrev asking : Message Value
asking = record {
  role = assistant;
  content = plain [];
  reasoning = none;
  tool_call_id = none;
  tool_calls = some (record { id = codes "c1"; name = codes "ls"; arguments = Value.null } ∷ []);
}

abbrev thinking : Message Value
thinking = record {
  role = assistant;
  content = plain [];
  reasoning = some [];
  tool_call_id = none;
  tool_calls = none;
}

abbrev talk : List (Message Value)
talk =
    system_message (codes "s")
    ∷ user_message (codes "hi")
    ∷ thinking
    ∷ asking
    ∷ tool_result (codes "c1") (codes "a b")
    ∷ user_message (codes "thanks")
    ∷ []

to_anthropic_messages-items_example : wire_items (to_anthropic_messages talk).1 ≡ items talk
to_anthropic_messages-items_example = to_anthropic_messages-items talk

build_chat_request-accepted_example :
    All (λ m. is_accepted m ≡ true) (build_chat_request json (codes "m") talk []).messages
build_chat_request-accepted_example = build_chat_request-accepted json (codes "m") talk []

-- The result of a tool follows the call in a message of the user of its own.
translated :
    (to_anthropic_messages talk).1
    ≡ record { role = from_user; content = text_content (codes "hi") }
      ∷ record {
        role = from_assistant;
        content = blocks (tool_use (codes "c1") (codes "ls") Value.null ∷ []);
      }
      ∷ record {
        role = from_user;
        content = blocks (AnthropicContentBlock.tool_result (codes "c1") (codes "a b") none ∷ []);
      }
      ∷ record { role = from_user; content = text_content (codes "thanks") }
      ∷ []
unfolding to_anthropic_messages
translated = refl
