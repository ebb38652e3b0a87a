-- ===== src/Tests/CoreTests.antt =====
-- The theorems on streams and messages at concrete inputs.
use perry_hermes.Core.Truncation.{truncate_output}
use perry_hermes.Prelude.{
  decimal, Text, ◌≡◌, refl, none, some, List, [], ◌∷◌, codes, Result, ok, err,
}
use perry_hermes.Core.Message.{text, image_url, Content, plain, parts, assistant}
use perry_hermes.Core.Errors.{ProviderError, other}
use perry_hermes.Core.Provider.{CompletionDelta}
use perry_hermes.Core.Usage.{Usage, u64_max}
use perry_hermes.Core.Accumulator.{new, add_all, values, non_empty, into_partial_message}
use perry_hermes.Core.Accumulator.Assembly.{assembled, call_at-stream}
use perry_hermes.Core.Accumulator.Deltas.{call_at, deltas_at, content_of, reasoning_of}
use perry_hermes.Core.Accumulator.Finish.{list_or_none, checked_calls, into_partial_message-stream}
use perry_hermes.Tests.World.{Value, json, interleaved, text_delta}

call_at-stream_example :
    call_at 1 (add_all json (new json) interleaved).tool_calls
    ≡ assembled json (deltas_at 1 interleaved)
call_at-stream_example = call_at-stream json 1 interleaved

-- The fragments of the call at 1 are joined across those of the call at 0.
joined_fragments :
    call_at 1 (add_all json (new json) interleaved).tool_calls
    ≡ some (record { id = codes "c1"; name = codes "echo"; arguments = Value.string (codes "{}") })
unfolding add_all
joined_fragments = refl

into_partial_message-stream_example :
    into_partial_message json (add_all json (new json) interleaved) assistant ≡ record {
      role = assistant;
      content = plain (content_of interleaved);
      reasoning = non_empty (reasoning_of interleaved);
      tool_call_id = none;
      tool_calls =
          list_or_none
            (checked_calls json (values (add_all json (new json) interleaved).tool_calls));
    }
into_partial_message-stream_example = into_partial_message-stream json interleaved assistant

abbrev broken : List (Result CompletionDelta ProviderError)
broken = ok (text_delta (codes "a")) ∷ err (other (codes "lost")) ∷ []

abbrev complete : List CompletionDelta
complete = text_delta (codes "a") ∷ text_delta (codes "b") ∷ []

abbrev large : Usage
large = record { input_tokens = u64_max; output_tokens = 5; cached_input_tokens = 3 }

abbrev picture : Content
picture = parts (text (codes "look") ∷ image_url (codes "u") ∷ [])

abbrev long_output : Text
long_output = codes "abcdefghij"

kept_output : truncate_output long_output 10 ≡ long_output
unfolding truncate_output
kept_output = refl

decimal_test : decimal 1205 ≡ codes "1205"
unfolding decimal
decimal_test = refl
