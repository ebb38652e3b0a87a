-- ===== src/Core/Accumulator.antt =====
-- crates/hermes-core/src/accumulator.rs: `StreamAccumulator` turns the deltas of a stream into a
-- completion, or into a partial message when the stream is cut. The `BTreeMap` of tool calls is an
-- association list in the order of its keys.
pub mod Deltas
pub mod Assembly
pub mod Finish
use perry_hermes.Prelude.{
  unwrap_or, ℕ, Bool, true, false, ◌&&◌, Option, none, some, List, [], ◌∷◌, ◌++◌, map, Text,
  is_empty, ltb, ◌==◌, if◌then◌else◌, filter, Result, ok, err,
}
use perry_hermes.Core.Json.{Json}
use perry_hermes.Core.Message.{Message, Role, assistant, ToolCall, plain}
use perry_hermes.Core.Errors.{ProviderError}
use perry_hermes.Core.Usage.{Usage, no_usage}
use perry_hermes.Core.Provider.{Completion, CompletionDelta, ToolCallDelta, FinishReason, stop}

abbrev pub CallMap : Type 0 → Type 0
CallMap V = List (ℕ × ToolCall V)

pub record StreamAccumulator (V : Type 0) : Type 0 where
  pub content : Text
  pub reasoning : Text
  pub tool_calls : CallMap V
  pub usage : Usage
  pub finish_reason : Option FinishReason

-- `Some(text)` unless the text is empty.
abbrev pub non_empty : Text → Option Text
non_empty [] = none
non_empty (c ∷ s) = some (c ∷ s)

-- `push_str` of a text that may be there.
abbrev pub append_some : Text → Option Text → Text
append_some s none = s
append_some s (some t) = s ++ t

-- `BTreeMap::into_values`.
abbrev pub values : {V : Type 0} → CallMap V → List (ToolCall V)
values = map (λ e. e.1)

-- `None` for an empty map, otherwise its values.
abbrev pub calls_or_none : {V : Type 0} → CallMap V → Option (List (ToolCall V))
calls_or_none [] = none
calls_or_none (e ∷ m) = some (values (e ∷ m))

-- `entry(index).or_insert(default)` and the update of the entry.
unfoldable pub upsert :
    {V : Type 0} → ℕ → (ToolCall V → ToolCall V) → ToolCall V → CallMap V → CallMap V
upsert i f d [] = (i, f d) ∷ []
upsert i f d ((j, c) ∷ m) =
    let rest = upsert i f d m in
    if ltb i j then (i, f d) ∷ (j, c) ∷ m else if i == j then (j, f c) ∷ m else (j, c) ∷ rest

module _ (J : Json) where
  open J use {Value, null, string, is_null, as_str, to_string, from_str}

  -- `StreamAccumulator::new`
  abbrev pub new : StreamAccumulator Value
  new = record {
    content = [];
    reasoning = [];
    tool_calls = [];
    usage = no_usage;
    finish_reason = none;
  }

  abbrev pub empty_call : ToolCall Value
  empty_call = record { id = []; name = []; arguments = null }

  -- the text that the arguments hold so far
  unfoldable pub existing_arguments : Value → Text
  existing_arguments v = if is_null v then [] else unwrap_or (as_str v) (to_string v)

  unfoldable pub update_call : ToolCallDelta → ToolCall Value → ToolCall Value
  unfolding existing_arguments
  update_call td c = record {
    id = unwrap_or td.id c.id;
    name = unwrap_or td.name c.name;
    arguments = elim td.arguments_fragment [
      | none ↦ c.arguments
      | some fragment ↦ string (existing_arguments c.arguments ++ fragment)
    ];
  }

  unfoldable pub add_tool_call : Option ToolCallDelta → CallMap Value → CallMap Value
  unfolding upsert update_call
  add_tool_call none m = m
  add_tool_call (some td) m = upsert td.index (update_call td) empty_call m

  -- `StreamAccumulator::add`
  unfoldable pub add : StreamAccumulator Value → CompletionDelta → StreamAccumulator Value
  unfolding add_tool_call
  add acc delta = record {
    content = append_some acc.content delta.content_delta;
    reasoning = append_some acc.reasoning delta.reasoning_delta;
    tool_calls = add_tool_call delta.tool_call_delta acc.tool_calls;
    usage = unwrap_or delta.usage acc.usage;
    finish_reason = elim delta.finish_reason [ none ↦ acc.finish_reason | some r ↦ some r ];
  }

  -- the loop over the deltas of a stream
  unfoldable pub add_all : StreamAccumulator Value → List CompletionDelta → StreamAccumulator Value
  unfolding add
  add_all acc [] = acc
  add_all acc (d ∷ ds) = add_all (add acc d) ds

  -- the body of `parse_string_arguments`: a JSON text in a string becomes the value that it denotes
  unfoldable pub parse_call : ToolCall Value → ToolCall Value
  parse_call c = elim (as_str c.arguments) [
    | none ↦ c
    | some s ↦ elim (from_str s) [ none ↦ c | some v ↦ record c { arguments = v } ]
  ]

  unfoldable pub parse_string_arguments : CallMap Value → CallMap Value
  unfolding parse_call
  parse_string_arguments = map (λ e. (e.0, parse_call e.1))

  -- `StreamAccumulator::finalize`
  unfoldable pub finalize : StreamAccumulator Value → Completion Value
  unfolding parse_string_arguments
  finalize acc = record {
    message = record {
      role = assistant;
      content = plain acc.content;
      reasoning = non_empty acc.reasoning;
      tool_call_id = none;
      tool_calls = calls_or_none (parse_string_arguments acc.tool_calls);
    };
    usage = acc.usage;
    finish_reason = unwrap_or acc.finish_reason stop;
  }

  -- `StreamAccumulator::is_empty`
  unfoldable pub acc_is_empty : StreamAccumulator Value → Bool
  acc_is_empty acc = is_empty acc.content && is_empty acc.reasoning && is_empty acc.tool_calls

  -- the test of `retain` in `into_partial_message`
  unfoldable pub has_complete_arguments : ToolCall Value → Bool
  has_complete_arguments c = elim (as_str c.arguments) [
    | none ↦ true
    | some s ↦ elim (from_str s) [ none ↦ false | some v ↦ true ]
  ]

  -- `StreamAccumulator::into_partial_message`
  unfoldable pub into_partial_message : StreamAccumulator Value → Role → Message Value
  unfolding has_complete_arguments parse_string_arguments
  into_partial_message acc role = record {
    role = role;
    content = plain acc.content;
    reasoning = non_empty acc.reasoning;
    tool_call_id = none;
    tool_calls =
        calls_or_none
          (parse_string_arguments (filter (λ e. has_complete_arguments e.1) acc.tool_calls));
  }

  -- the loop of `accumulate_stream`: the first error ends it
  accumulate_from :
      StreamAccumulator Value
      → List (Result CompletionDelta ProviderError)
      → Result (Completion Value) ProviderError
  unfolding add finalize
  accumulate_from acc [] = ok (finalize acc)
  accumulate_from acc (ok d ∷ items) = accumulate_from (add acc d) items
  accumulate_from acc (err e ∷ items) = err e

  unfoldable pub accumulate_stream :
      List (Result CompletionDelta ProviderError) → Result (Completion Value) ProviderError
  unfolding accumulate_from
  accumulate_stream items = accumulate_from new items
