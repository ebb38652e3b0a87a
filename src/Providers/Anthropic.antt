-- ===== src/Providers/Anthropic.antt =====
-- crates/hermes-providers/src/anthropic/request.rs: the body of a request. The temperature, 1.0 or
-- none, is a whole number.
use perry_hermes.Prelude.{
  ℕ, Bool, not, ◌&&◌, Option, none, some, List, [], ◌∷◌, ◌++◌, Text, codes, map, is_empty, join,
  if◌then◌else◌,
}
use perry_hermes.Core.Message.{
  system, user, assistant, tool, role_eq, ContentPart, text, image_url, Content, plain, parts,
  ToolCall, Message,
}
use perry_hermes.Core.Tools.{ToolSchema}

-- `AnthropicThinking` of mod.rs
pub data AnthropicThinking : Type 0 where
  manual : ℕ → AnthropicThinking
  adaptive : Text → Option Text → AnthropicThinking

-- the role of a message that is sent
pub data WireRole : Type 0 where
  from_user from_assistant : WireRole

pub data AnthropicContentBlock (V : Type 0) : Type 0 where
  text_block : Text → AnthropicContentBlock V
  tool_use : Text → Text → V → AnthropicContentBlock V
  tool_result : Text → Text → Option Bool → AnthropicContentBlock V

pub data AnthropicMessageContent (V : Type 0) : Type 0 where
  text_content : Text → AnthropicMessageContent V
  blocks : List (AnthropicContentBlock V) → AnthropicMessageContent V

pub record AnthropicMessage (V : Type 0) : Type 0 where
  pub role : WireRole
  pub content : AnthropicMessageContent V

pub record AnthropicTool (V : Type 0) : Type 0 where
  pub name : Text
  pub description : Text
  pub input_schema : V

pub data AnthropicThinkingParam : Type 0 where
  enabled : ℕ → AnthropicThinkingParam
  adaptive_display : Text → AnthropicThinkingParam

-- `tool_choice` is whether it is sent, as "auto".
pub record AnthropicMessagesRequest (V : Type 0) : Type 0 where
  pub model : Text
  pub system : Option Text
  pub messages : List (AnthropicMessage V)
  pub tools : List (AnthropicTool V)
  pub tool_choice : Bool
  pub max_tokens : ℕ
  pub stream : Bool
  pub thinking : Option AnthropicThinkingParam
  pub temperature : Option ℕ
  pub output_config : Option Text

abbrev pub text_parts : List ContentPart → List Text
text_parts [] = []
text_parts (text s ∷ ps) = s ∷ text_parts ps
text_parts (image_url url ∷ ps) = text_parts ps

unfoldable pub content_to_text : Content → Text
content_to_text (plain s) = s
content_to_text (parts ps) = join (codes "\n") (text_parts ps)

abbrev pub build_thinking_param : Option AnthropicThinking → Option AnthropicThinkingParam
build_thinking_param none = none
build_thinking_param (some (manual budget)) = some (enabled budget)
build_thinking_param (some (adaptive display effort)) = some (adaptive_display display)

abbrev pub build_output_config : Option AnthropicThinking → Option Text
build_output_config (some (adaptive display (some effort))) = some effort
build_output_config _ = none

abbrev pub manual_temperature : Option AnthropicThinking → Option ℕ
manual_temperature (some (manual budget)) = some 1
manual_temperature _ = none

-- the variables of the loop
pub record Draft (V : Type 0) : Type 0 where
  pub system : Option Text
  pub wire : List (AnthropicMessage V)
  pub pending : List (AnthropicContentBlock V)

abbrev pub or_default : Option Text → Text
or_default none = []
or_default (some s) = s

module _ {V : Type 0} where
  -- results at the end of a user message
  abbrev pub extended :
      List (AnthropicContentBlock V) → AnthropicMessageContent V → AnthropicMessageContent V
  extended results (text_content s) = blocks (text_block s ∷ results)
  extended results (blocks bs) = blocks (bs ++ results)

  abbrev pub with_results :
      List (AnthropicContentBlock V) → AnthropicMessage V → List (AnthropicMessage V)
  with_results results m = elim m.role as (λ r. List (AnthropicMessage V)) [
    | from_user ↦ record { role = from_user; content = extended results m.content } ∷ []
    | from_assistant ↦ m ∷ record { role = from_user; content = blocks results } ∷ []
  ]

  abbrev pub merge_last :
      List (AnthropicContentBlock V) → List (AnthropicMessage V) → List (AnthropicMessage V)
  merge_last results [] = record { role = from_user; content = blocks results } ∷ []
  merge_last results (m ∷ []) = with_results results m
  merge_last results (m ∷ n ∷ ms) = m ∷ merge_last results (n ∷ ms)

  unfoldable pub flush_tool_results : Draft V → Draft V
  flush_tool_results d =
      if is_empty d.pending
      then d
      else record { system = d.system; wire = merge_last d.pending d.wire; pending = [] }

  abbrev pub use_block : ToolCall V → AnthropicContentBlock V
  use_block c = tool_use c.id c.name c.arguments

  abbrev pub use_blocks : Option (List (ToolCall V)) → List (AnthropicContentBlock V)
  use_blocks none = []
  use_blocks (some calls) = map use_block calls

  abbrev pub text_blocks : Text → List (AnthropicContentBlock V)
  text_blocks s = if is_empty s then [] else text_block s ∷ []

  abbrev pub push_assistant : List (AnthropicContentBlock V) → Draft V → Draft V
  push_assistant [] d = d
  push_assistant (b ∷ bs) d = record d {
    wire = d.wire ++ record { role = from_assistant; content = blocks (b ∷ bs) } ∷ [];
  }

  unfoldable pub push_message : Message V → Draft V → Draft V
  unfolding content_to_text
  push_message m d = elim m.role as (λ r. Draft V) [
    | system ↦ record d { system = some (content_to_text m.content) }
    | user ↦ record d {
      wire =
          d.wire
          ++ record { role = from_user; content = text_content (content_to_text m.content) } ∷ [];
    }
    | assistant ↦
        push_assistant (text_blocks (content_to_text m.content) ++ use_blocks m.tool_calls) d
    | tool ↦ record d {
      pending =
          d.pending
          ++ tool_result (or_default m.tool_call_id) (content_to_text m.content) none ∷ [];
    }
  ]

  -- a round of the loop
  unfoldable pub translate : Message V → Draft V → Draft V
  unfolding flush_tool_results push_message
  translate m d =
      if not (is_empty d.pending) && not (role_eq m.role tool)
      then push_message m (flush_tool_results d)
      else push_message m d

  unfoldable pub translate_all : List (Message V) → Draft V → Draft V
  unfolding translate
  translate_all [] d = d
  translate_all (m ∷ ms) d = translate_all ms (translate m d)

  unfoldable pub to_anthropic_messages : List (Message V) → Option Text × List (AnthropicMessage V)
  unfolding translate_all flush_tool_results
  to_anthropic_messages ms =
      let d =
        flush_tool_results (translate_all ms (record { system = none; wire = []; pending = [] })) in
      (d.system, d.wire)

  abbrev pub to_anthropic_tool : ToolSchema V → AnthropicTool V
  to_anthropic_tool t = record {
    name = t.name;
    description = t.description;
    input_schema = t.parameters;
  }

  unfoldable pub build_messages_request :
      Text
      → List (Message V)
      → List (ToolSchema V)
      → Bool
      → Option AnthropicThinking
      → AnthropicMessagesRequest V
  unfolding to_anthropic_messages
  build_messages_request model messages tools stream options =
      let translated = to_anthropic_messages messages in
      let wire_tools = map to_anthropic_tool tools in
      record {
        model = model;
        system = translated.0;
        messages = translated.1;
        tools = wire_tools;
        tool_choice = not (is_empty wire_tools);
        max_tokens = 16384;
        stream = stream;
        thinking = build_thinking_param options;
        temperature = manual_temperature options;
        output_config = build_output_config options;
      }
