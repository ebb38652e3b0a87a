-- ===== src/Providers/OpenaiEvents.antt =====
-- crates/hermes-providers/src/openai/sse.rs: the events of an OpenAI stream as deltas. The derived
-- `Deserialize` of the chunk is the argument `from_str`, with serde's text of a failure.
use perry_hermes.Prelude.{
  ℕ, Bool, true, false, Option, none, some, List, [], ◌∷◌, ◌++◌, Text, codes, text_eq, lines,
  Result, ok, err,
}
use perry_hermes.Core.Usage.{Usage}
use perry_hermes.Core.Errors.{ProviderError, transport, invalid_response}
use perry_hermes.Core.Provider.{CompletionDelta, ToolCallDelta, from_provider_str}
use perry_hermes.Providers.ThinkTags.{split_think_tag_content}
use perry_hermes.Providers.Frames.{Handled, parse_sse_data_line, read_chunks}

pub record OpenaiStreamState : Type 0 where
  pub in_think_tag : Bool

pub record SseFunction : Type 0 where
  pub name : Option Text
  pub arguments : Option Text

pub record SseToolCallRef : Type 0 where
  pub index : ℕ
  pub id : Option Text
  pub function : SseFunction

pub record SseDelta : Type 0 where
  pub content : Option Text
  pub reasoning_content : Option Text
  pub tool_calls : Option (List SseToolCallRef)

pub record SseChoice : Type 0 where
  pub delta : SseDelta
  pub finish_reason : Option Text

pub record SseChunk : Type 0 where
  pub choices : List SseChoice
  pub usage : Option Usage

abbrev pub Delta : Type 0
Delta = Result CompletionDelta ProviderError

-- `tool_calls.and_then(|calls| calls.into_iter().next().map(..))`
abbrev pub first_tool_call : Option (List SseToolCallRef) → Option ToolCallDelta
first_tool_call none = none
first_tool_call (some []) = none
first_tool_call (some (c ∷ cs)) = some (record {
  index = c.index;
  id = c.id;
  name = c.function.name;
  arguments_fragment = c.function.arguments;
})

-- The content and the reasoning of a delta, with the new state. Were the fuel of the splitting to
-- run out, both would be missing.
abbrev pub content_and_reasoning :
    SseDelta → OpenaiStreamState → (Option Text × Option Text) × OpenaiStreamState
unfolding split_think_tag_content
content_and_reasoning d st = elim d.reasoning_content [
  | some reasoning ↦ ((d.content, some reasoning), st)
  | none ↦ elim (split_think_tag_content d.content st.in_think_tag) [
    | none ↦ ((none, none), st)
    | some (parts, flag) ↦ (parts, record { in_think_tag = flag })
  ]
]

abbrev pub choice_delta : SseChoice → Option Usage → OpenaiStreamState → CompletionDelta
unfolding from_provider_str split_think_tag_content
choice_delta c usage st = record {
  content_delta = (content_and_reasoning c.delta st).0.0;
  reasoning_delta = (content_and_reasoning c.delta st).0.1;
  tool_call_delta = first_tool_call c.delta.tool_calls;
  usage = usage;
  finish_reason = elim c.finish_reason [ none ↦ none | some s ↦ some (from_provider_str s) ];
}

abbrev pub chunk_delta : SseChunk → OpenaiStreamState → CompletionDelta × OpenaiStreamState
unfolding from_provider_str split_think_tag_content
chunk_delta chunk st = elim chunk.choices [
  | [] ↦ (
    record {
      content_delta = none;
      reasoning_delta = none;
      tool_call_delta = none;
      usage = chunk.usage;
      finish_reason = none;
    },
    st,
  )
  | choice ∷ rest ↦ (choice_delta choice chunk.usage st, (content_and_reasoning choice.delta st).1)
]

module _ (from_str : Text → Result SseChunk Text) where
  unfoldable pub openai_data_payload : Text → OpenaiStreamState → Delta × OpenaiStreamState
  unfolding from_provider_str split_think_tag_content
  openai_data_payload payload st = elim (from_str payload) [
    | err e ↦ (err (invalid_response (codes "sse json: " ++ e)), st)
    | ok chunk ↦ (ok (chunk_delta chunk st).0, (chunk_delta chunk st).1)
  ]

  -- `Ok(d) => yield Ok(d)`, and `return` after an error
  abbrev pub yield_delta :
      Delta × OpenaiStreamState
      → (OpenaiStreamState → Handled Delta OpenaiStreamState)
      → Handled Delta OpenaiStreamState
  yield_delta (err e, st) next = (err e ∷ [], none)
  yield_delta (ok d, st) next = (ok d ∷ (next st).0, (next st).1)

  -- The lines of one event.
  unfoldable pub handle_lines : List Text → OpenaiStreamState → Handled Delta OpenaiStreamState
  unfolding parse_sse_data_line openai_data_payload
  handle_lines [] st = ([], some st)
  handle_lines (line ∷ ls) st = elim (parse_sse_data_line line) [
    | none ↦ handle_lines ls st
    | some payload ↦ elim (text_eq payload (codes "[DONE]")) [
      | true ↦ ([], none)
      | false ↦ yield_delta (openai_data_payload payload st) (handle_lines ls)
    ]
  ]

  unfoldable pub handle_openai_event : Text → OpenaiStreamState → Handled Delta OpenaiStreamState
  unfolding handle_lines
  handle_openai_event event st = handle_lines (lines event) st

  -- The chunks are bytes, or the text of a transport error.
  unfoldable pub parse_openai_chunks :
      {B : Type 0} → (B → Text) → List (Result B Text) → Option (List Delta)
  unfolding read_chunks handle_openai_event
  parse_openai_chunks from_utf8_lossy chunks =
      read_chunks from_utf8_lossy (λ e. err (transport e)) handle_openai_event chunks []
        (record { in_think_tag = false })
