-- ===== src/Providers/Sendable.antt =====
-- What the chat API requires of an assistant's message.
use perry_hermes.Prelude.{
  Bool, true, false, not, ◌&&◌, ◌≡◌, refl, inl, inr, Option, none, some, List, [], ◌∷◌, Text, codes,
  map, is_empty, filter, All, text_eq, Bool-cases, if◌then◌else◌,
}
use perry_hermes.Core.Message.{
  Role, system, user, assistant, tool, Content, plain, parts, ToolCall, Message,
}
use perry_hermes.Core.Json.{Json}
use perry_hermes.Core.Tools.{ToolSchema}
use perry_hermes.Providers.Openai.{
  OpenaiMessageContent, text_content, part_list, OpenaiMessage, none_or_empty, content_empty,
  raw_content, sent_content, assistant_is_empty, call_refs, to_openai_message, build_chat_request,
}

-- a content that is not an empty text or an empty list, a reasoning or a tool call
abbrev pub full_content : Option OpenaiMessageContent → Bool
full_content none = false
full_content (some (text_content s)) = not (is_empty s)
full_content (some (part_list ps)) = not (is_empty ps)

abbrev pub is_accepted : OpenaiMessage → Bool
is_accepted m =
    if text_eq m.role (codes "assistant")
    then (if full_content m.content
        then true
        else (if none_or_empty m.reasoning_content then not (none_or_empty m.tool_calls) else true))
    else true

module _ (json : Json) where
  call_refs-empty :
      (calls : Option (List (ToolCall json.Value)))
      → none_or_empty (call_refs json calls) ≡ none_or_empty calls
  call_refs-empty none = refl
  call_refs-empty (some []) = refl
  call_refs-empty (some (c ∷ cs)) = refl

  sent_content-full :
      (c : Content) → full_content (sent_content assistant (raw_content c)) ≡ not (content_empty c)
  sent_content-full (plain []) = refl
  sent_content-full (plain (c ∷ s)) = refl
  sent_content-full (parts []) = refl
  sent_content-full (parts (p ∷ ps)) = refl

  -- A message that the filter keeps is accepted.
  kept :
      (r : Role) (m : Message json.Value)
      → assistant_is_empty json (record m { role = r }) ≡ false
      → is_accepted (to_openai_message json (record m { role = r })) ≡ true
  unfolding assistant_is_empty to_openai_message
  kept system m h = refl
  kept user m h = refl
  kept tool m h = refl
  kept assistant m h =
      rw (sent_content-full m.content, call_refs-empty m.tool_calls)
        (shown (content_empty m.content) (none_or_empty m.reasoning) (none_or_empty m.tool_calls) h)
    where
      shown :
          (c r t : Bool)
          → (c && (r && t)) ≡ false
          → (if not c then true else (if r then not t else true)) ≡ true
      shown false r t h = refl
      shown true false t h = refl
      shown true true false h = refl
      shown true true true h = absurd (cc)

  filter-accepted :
      (ms : List (Message json.Value))
      → All
          (λ m. is_accepted m ≡ true)
          (map (to_openai_message json) (filter (λ m. not (assistant_is_empty json m)) ms))
  filter-accepted [] = tt
  filter-accepted (m ∷ ms) = elim (Bool-cases (assistant_is_empty json m)) [
    | inl k ↦ rw k (filter-accepted ms)
    | inr k ↦ rw k (kept m.role m k, filter-accepted ms)
  ]

  -- Every assistant's message in a request has a content that is not empty, a reasoning or a tool call,
  -- whatever the conversation; the API rejects one with none of them.
  pub build_chat_request-accepted :
      (model : Text) (ms : List (Message json.Value)) (tools : List (ToolSchema json.Value))
      → All (λ m. is_accepted m ≡ true) (build_chat_request json model ms tools).messages
  unfolding build_chat_request
  build_chat_request-accepted model ms tools = filter-accepted ms
