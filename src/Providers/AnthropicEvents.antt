-- ===== src/Providers/AnthropicEvents.antt =====
-- crates/hermes-providers/src/anthropic/sse.rs: the events of an Anthropic stream as deltas, with
-- the running token counts.
use perry_hermes.Prelude.{
  unwrap_or, ℕ, ◌+◌, ◌%◌, ◌^◌, Option, none, some, List, [], ◌∷◌, ◌++◌, Text, codes, text_eq, join,
  lines, Result, ok, err, ltb, if◌then◌else◌, ◌||◌,
}
use perry_hermes.Core.Json.{JsonReader}
use perry_hermes.Core.Usage.{Usage, no_usage}
use perry_hermes.Core.Errors.{ProviderError, transport, invalid_response}
use perry_hermes.Core.Provider.{
  CompletionDelta, FinishReason, stop, tool_use, length, content_filter, error,
}
use perry_hermes.Providers.Frames.{Handled, parse_sse_data_line, read_chunks}

pub record AnthropicStreamState : Type 0 where
  pub usage : Usage

abbrev pub Parsed : Type 0
Parsed = Result (Option CompletionDelta) ProviderError

unfoldable pub anthropic_finish_reason : Text → FinishReason
anthropic_finish_reason s =
    if text_eq s (codes "end_turn") || text_eq s (codes "stop_sequence")
    then stop
    else if text_eq s (codes "tool_use")
    then tool_use
    else if text_eq s (codes "max_tokens")
    then length
    else if text_eq s (codes "refusal")
    then content_filter
    else error

abbrev pub no_delta : CompletionDelta
no_delta = record {
  content_delta = none;
  reasoning_delta = none;
  tool_call_delta = none;
  usage = none;
  finish_reason = none;
}

abbrev pub usage_delta : Usage → CompletionDelta
usage_delta u = record no_delta { usage = some u }

module _ (J : JsonReader) where
  -- `value.get(key).and_then(|v| v.as_u64())`, and the like for strings
  abbrev pub get_u64 : J.Value → Text → Option ℕ
  get_u64 v key = elim (J.get v key) [ none ↦ none | some w ↦ J.as_u64 w ]

  abbrev pub get_str : J.Value → Text → Option Text
  get_str v key = elim (J.get v key) [ none ↦ none | some w ↦ J.as_str w ]

  -- The sum of two `u64`, as a release build computes it.
  abbrev pub cached_input_tokens_from_anthropic_usage : J.Value → ℕ
  cached_input_tokens_from_anthropic_usage usage =
      (unwrap_or (get_u64 usage (codes "cache_read_input_tokens")) 0
        + unwrap_or (get_u64 usage (codes "cache_creation_input_tokens")) 0)
      % 2 ^ 64

  -- "message_start"
  abbrev pub started_usage : J.Value → Usage
  started_usage usage = record {
    input_tokens = unwrap_or (get_u64 usage (codes "input_tokens")) 0;
    output_tokens = unwrap_or (get_u64 usage (codes "output_tokens")) 0;
    cached_input_tokens = cached_input_tokens_from_anthropic_usage usage;
  }

  abbrev pub message_start : J.Value → AnthropicStreamState → AnthropicStreamState
  message_start value st = elim (J.get value (codes "message")) [
    | none ↦ st
    | some m ↦ elim (J.get m (codes "usage")) [
      | none ↦ st
      | some usage ↦ record { usage = started_usage usage }
    ]
  ]

  -- "message_delta"
  abbrev pub updated_usage : J.Value → Usage → Usage
  updated_usage usage u = record {
    input_tokens = unwrap_or (get_u64 usage (codes "input_tokens")) u.input_tokens;
    output_tokens = unwrap_or (get_u64 usage (codes "output_tokens")) u.output_tokens;
    cached_input_tokens =
        let cached = cached_input_tokens_from_anthropic_usage usage in
        if ltb 0 cached then cached else u.cached_input_tokens;
  }

  abbrev pub message_delta : J.Value → AnthropicStreamState → AnthropicStreamState
  message_delta value st = elim (J.get value (codes "usage")) [
    | none ↦ st
    | some usage ↦ record { usage = updated_usage usage st.usage }
  ]

  abbrev pub stop_reason : J.Value → Option FinishReason
  unfolding anthropic_finish_reason
  stop_reason value = elim (J.get value (codes "delta")) [
    | none ↦ none
    | some d ↦ elim (get_str d (codes "stop_reason")) [
      | none ↦ none
      | some s ↦ some (anthropic_finish_reason s)
    ]
  ]

  -- The index of a block, 0 if there is none.
  abbrev pub block_index : J.Value → ℕ
  block_index value = unwrap_or (get_u64 value (codes "index")) 0

  abbrev pub started_block : J.Value → J.Value → Text → Parsed
  started_block value block kind =
      if text_eq kind (codes "tool_use")
      then ok (
          some (record no_delta {
            tool_call_delta = some (record {
              index = block_index value;
              id = get_str block (codes "id");
              name = get_str block (codes "name");
              arguments_fragment = none;
            });
          }))
      else if text_eq kind (codes "text") || text_eq kind (codes "thinking")
      then ok none
      else err (invalid_response (codes "unknown Anthropic content block: " ++ kind))

  unfoldable pub parse_content_block_start : J.Value → Parsed
  parse_content_block_start value = elim (J.get value (codes "content_block")) [
    | none ↦ err (invalid_response (codes "missing content_block"))
    | some block ↦ elim (get_str block (codes "type")) [
      | none ↦ err (invalid_response (codes "missing content_block type"))
      | some kind ↦ started_block value block kind
    ]
  ]

  abbrev pub block_delta : J.Value → J.Value → Text → Parsed
  block_delta value delta kind =
      if text_eq kind (codes "text_delta")
      then ok (some (record no_delta { content_delta = get_str delta (codes "text") }))
      else if text_eq kind (codes "input_json_delta")
      then ok (
          some (record no_delta {
            tool_call_delta = some (record {
              index = block_index value;
              id = none;
              name = none;
              arguments_fragment = get_str delta (codes "partial_json");
            });
          }))
      else if text_eq kind (codes "thinking_delta")
      then ok (some (record no_delta { reasoning_delta = get_str delta (codes "thinking") }))
      else if text_eq kind (codes "signature_delta")
      then ok none
      else err (invalid_response (codes "unknown Anthropic delta: " ++ kind))

  unfoldable pub parse_content_block_delta : J.Value → Parsed
  parse_content_block_delta value = elim (J.get value (codes "delta")) [
    | none ↦ err (invalid_response (codes "missing content_block delta"))
    | some delta ↦ elim (get_str delta (codes "type")) [
      | none ↦ err (invalid_response (codes "missing content_block delta type"))
      | some kind ↦ block_delta value delta kind
    ]
  ]

  -- "error"
  abbrev pub stream_error : J.Value → Text
  stream_error value = elim (J.get value (codes "error")) [
    | none ↦ codes "Anthropic stream error"
    | some e ↦ unwrap_or (get_str e (codes "message")) (codes "Anthropic stream error")
  ]

  unfoldable pub parse_typed : Text → J.Value → AnthropicStreamState → Parsed × AnthropicStreamState
  unfolding parse_content_block_start parse_content_block_delta anthropic_finish_reason
  parse_typed event_type value st =
      if text_eq event_type (codes "message_start")
      then (ok (some (usage_delta (message_start value st).usage)), message_start value st)
      else if text_eq event_type (codes "content_block_start")
      then (parse_content_block_start value, st)
      else if text_eq event_type (codes "content_block_delta")
      then (parse_content_block_delta value, st)
      else if text_eq event_type (codes "content_block_stop")
          || text_eq event_type (codes "message_stop")
          || text_eq event_type (codes "ping")
      then (ok none, st)
      else if text_eq event_type (codes "message_delta")
      then (
        ok (
            some (record no_delta {
              usage = some (message_delta value st).usage;
              finish_reason = stop_reason value;
            })),
        message_delta value st,
      )
      else if text_eq event_type (codes "error")
      then (err (invalid_response (stream_error value)), st)
      else (err (invalid_response (codes "unknown Anthropic SSE event: " ++ event_type)), st)

  unfoldable pub anthropic_data_payload :
      Text → AnthropicStreamState → Parsed × AnthropicStreamState
  unfolding parse_typed
  anthropic_data_payload payload st = elim (J.from_str payload) [
    | err e ↦ (err (invalid_response (codes "sse json: " ++ e)), st)
    | ok value ↦ elim (get_str value (codes "type")) [
      | none ↦ (err (invalid_response (codes "missing Anthropic SSE type")), st)
      | some event_type ↦ parse_typed event_type value st
    ]
  ]

  -- `event.lines().filter_map(parse_sse_data_line)`
  unfoldable pub data_lines : List Text → List Text
  unfolding parse_sse_data_line
  data_lines [] = []
  data_lines (line ∷ ls) = elim (parse_sse_data_line line) [
    | none ↦ data_lines ls
    | some payload ↦ payload ∷ data_lines ls
  ]

  abbrev pub yield_parsed :
      Parsed × AnthropicStreamState
      → Handled (Result CompletionDelta ProviderError) AnthropicStreamState
  yield_parsed (ok (some delta), st) = (ok delta ∷ [], some st)
  yield_parsed (ok none, st) = ([], some st)
  yield_parsed (err e, st) = (err e ∷ [], none)

  unfoldable pub handle_anthropic_event :
      Text
      → AnthropicStreamState
      → Handled (Result CompletionDelta ProviderError) AnthropicStreamState
  unfolding data_lines anthropic_data_payload
  handle_anthropic_event event st = elim (join (codes "\n") (data_lines (lines event))) [
    | [] ↦ ([], some st)
    | c ∷ payload ↦ yield_parsed (anthropic_data_payload (c ∷ payload) st)
  ]

  unfoldable pub parse_anthropic_chunks :
      {B : Type 0}
      → (B → Text)
      → List (Result B Text)
      → Option (List (Result CompletionDelta ProviderError))
  unfolding read_chunks handle_anthropic_event
  parse_anthropic_chunks from_utf8_lossy chunks =
      read_chunks from_utf8_lossy (λ e. err (transport e)) handle_anthropic_event chunks []
        (record { usage = no_usage })
