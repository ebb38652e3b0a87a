-- ===== src/Core/Accumulator/Finish.antt =====
-- The end of a stream: what `finalize`, `into_partial_message` and `accumulate_stream` return.
use perry_hermes.Prelude.{
  ◌≡◌, refl, ap, ◌∙◌, true, Option, none, some, List, [], ◌∷◌, ◌++◌, arith, Result, ok, err, filter,
  filter_unchanged, All,
}
use perry_hermes.Core.Json.{Json}
use perry_hermes.Core.Message.{Role, ToolCall, plain, assistant}
use perry_hermes.Core.Errors.{ProviderError}
use perry_hermes.Core.Provider.{CompletionDelta}
use perry_hermes.Core.Accumulator.{
  StreamAccumulator, CallMap, values, calls_or_none, non_empty, new, add, add_all,
  parse_string_arguments, finalize, has_complete_arguments, into_partial_message, accumulate_from,
  accumulate_stream,
}
use perry_hermes.Core.Accumulator.Assembly.{content-add_all, reasoning-add_all}
use perry_hermes.Core.Accumulator.Deltas.{content_of, reasoning_of}

-- The list, or `None` if it is empty.
abbrev pub list_or_none : {A : Type 0} → List A → Option (List A)
list_or_none [] = none
list_or_none (x ∷ xs) = some (x ∷ xs)

-- The deltas before the first error, and that error if there is one.
abbrev pub deltas_before_error : List (Result CompletionDelta ProviderError) → List CompletionDelta
deltas_before_error [] = []
deltas_before_error (ok d ∷ items) = d ∷ deltas_before_error items
deltas_before_error (err e ∷ items) = []

abbrev pub first_error : List (Result CompletionDelta ProviderError) → Option ProviderError
first_error [] = none
first_error (ok d ∷ items) = first_error items
first_error (err e ∷ items) = some e

module _ (J : Json) where
  open J use {Value, as_str, from_str}

  -- One pass over a call: a JSON text in a string is parsed, and a call whose text does not parse
  -- is dropped.
  abbrev pub checked_call : ToolCall Value → List (ToolCall Value)
  checked_call c = elim (as_str c.arguments) [
    | none ↦ c ∷ []
    | some s ↦ elim (from_str s) [ none ↦ [] | some v ↦ record c { arguments = v } ∷ [] ]
  ]

  abbrev pub checked_calls : List (ToolCall Value) → List (ToolCall Value)
  checked_calls [] = []
  checked_calls (c ∷ cs) = checked_call c ++ checked_calls cs

  calls_or_none-values : (m : CallMap Value) → calls_or_none m ≡ list_or_none (values m)
  calls_or_none-values [] = refl
  calls_or_none-values (e ∷ m) = refl

  parsed_calls-retained :
      (m : CallMap Value)
      → values (parse_string_arguments J (filter (λ e. has_complete_arguments J e.1) m))
        ≡ checked_calls (values m)
  unfolding parse_string_arguments has_complete_arguments
  parsed_calls-retained [] = refl
  parsed_calls-retained ((i, c) ∷ m) = ground (arith, parsed_calls-retained m)

  -- The partial message of a cut stream has all the text of its deltas, and exactly those of its
  -- calls whose argument string is complete JSON (or that have no string), in order and with that
  -- JSON as their arguments.
  pub into_partial_message-stream :
      (ds : List CompletionDelta) (role : Role)
      → into_partial_message J (add_all J (new J) ds) role ≡ record {
        role = role;
        content = plain (content_of ds);
        reasoning = non_empty (reasoning_of ds);
        tool_call_id = none;
        tool_calls = list_or_none (checked_calls (values (add_all J (new J) ds).tool_calls));
      }
  unfolding into_partial_message
  into_partial_message-stream ds role =
      rw (content-add_all J (new J) ds, reasoning-add_all J (new J) ds)
        (ap
          (λ calls. record {
            role = role;
            content = plain (content_of ds);
            reasoning = non_empty (reasoning_of ds);
            tool_call_id = none;
            tool_calls = calls;
          })
          (calls_or_none-values _
            ∙ ap list_or_none (parsed_calls-retained (add_all J (new J) ds).tool_calls)))

  accumulate_from-items :
      (acc : StreamAccumulator Value) (items : List (Result CompletionDelta ProviderError))
      → accumulate_from J acc items ≡ elim (first_error items) [
        | none ↦ ok (finalize J (add_all J acc (deltas_before_error items)))
        | some e ↦ err e
      ]
  unfolding accumulate_from add_all
  accumulate_from-items acc [] = refl
  accumulate_from-items acc (ok d ∷ items) = accumulate_from-items (add J acc d) items
  accumulate_from-items acc (err e ∷ items) = refl

  -- A stream yields its first error, if it has one; otherwise the completion with all the text and
  -- all the calls of its deltas, their argument strings parsed where they are JSON.
  pub accumulate_stream-items :
      (items : List (Result CompletionDelta ProviderError))
      → accumulate_stream J items ≡ elim (first_error items) [
        | none ↦ ok (finalize J (add_all J (new J) (deltas_before_error items)))
        | some e ↦ err e
      ]
  unfolding accumulate_stream
  accumulate_stream-items items = accumulate_from-items (new J) items

  retained_unchanged :
      (m : CallMap Value)
      → All (λ e. has_complete_arguments J e.1 ≡ true) m
      → filter (λ e. has_complete_arguments J e.1) m ≡ m
  retained_unchanged m h = filter_unchanged (λ e. has_complete_arguments J e.1) m h

  -- If no argument string is cut short, the partial message of a cancelled stream is the message
  -- that the finished stream would have had.
  pub into_partial_message-finalize :
      (acc : StreamAccumulator Value)
      → All (λ e. has_complete_arguments J e.1 ≡ true) acc.tool_calls
      → into_partial_message J acc assistant ≡ (finalize J acc).message
  unfolding into_partial_message finalize
  into_partial_message-finalize acc h =
      ap
        (λ m. record {
          role = assistant;
          content = plain acc.content;
          reasoning = non_empty acc.reasoning;
          tool_call_id = none;
          tool_calls = calls_or_none (parse_string_arguments J m);
        })
        (retained_unchanged acc.tool_calls h)
