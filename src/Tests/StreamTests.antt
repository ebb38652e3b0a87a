-- ===== src/Tests/StreamTests.antt =====
-- The decoders of both providers' streams on small streams.
use perry_hermes.Prelude.{
  ◌≡◌, refl, false, none, some, List, [], ◌∷◌, Text, codes, text_eq, map, if◌then◌else◌, Result, ok,
  err,
}
use perry_hermes.Core.Usage.{no_usage}
use perry_hermes.Core.Errors.{ProviderError, transport, invalid_response}
use perry_hermes.Core.Provider.{CompletionDelta}
use perry_hermes.Providers.Frames.{read_chunks}
use perry_hermes.Providers.Framing.{handle_all, read_chunks-events}
use perry_hermes.Providers.OpenaiEvents.{
  SseChunk, OpenaiStreamState, handle_openai_event, parse_openai_chunks,
}
use perry_hermes.Providers.AnthropicEvents.{no_delta, parse_anthropic_chunks}
use perry_hermes.Providers.Breaking.{AllOk, bad_event, transport_failure}
use perry_hermes.Providers.Ending.{parse_chunks-Breaks}
use perry_hermes.Tests.SearchTests.{reader}

-- a chunk whose content is the payload, and no chunk for "?"
abbrev from_str : Text → Result SseChunk Text
from_str s =
    if text_eq s (codes "?")
    then err (codes "bad")
    else ok (record {
      choices =
          record {
            delta = record { content = some s; reasoning_content = none; tool_calls = none };
            finish_reason = none;
          }
          ∷ [];
      usage = none;
    })

abbrev no_tag : OpenaiStreamState
no_tag = record { in_think_tag = false }

abbrev content : Text → Result CompletionDelta ProviderError
content s = ok (record no_delta { content_delta = some s })

abbrev same_text : Text → Text
same_text s = s

-- Two events in three chunks, the first cut inside its separator.
read_chunks-events_example :
    read_chunks same_text
      (λ e. err (transport e))
      (handle_openai_event from_str)
      (map ok (codes "data: a\n" ∷ codes "\ndata" ∷ codes ": b\n\ndata: c" ∷ []))
      []
      no_tag
    ≡ some
        (handle_all (handle_openai_event from_str) (codes "data: a" ∷ codes "data: b" ∷ []) no_tag)
read_chunks-events_example =
    read_chunks-events same_text (λ (e : Text). err (transport e)) (handle_openai_event from_str)
      (codes "data: c") refl (codes "data: a\n" ∷ codes "\ndata" ∷ codes ": b\n\ndata: c" ∷ [])
      (codes "data: a" ∷ codes "data: b" ∷ []) no_tag (refl, (refl, tt)) refl

abbrev broken : List (Result Text Text)
broken =
    ok (codes "data: ping\n\ndata: ?\n\n") ∷ err (codes "reset") ∷ ok (codes "data: c\n\n") ∷ []

-- The first event goes on, the payload of the second is refused by one client; the transport fails
-- for the other.
parse_chunks-Breaks_example :
    ((parse_openai_chunks from_str same_text broken
        ≡ some (content (codes "ping") ∷ err (invalid_response (codes "sse json: bad")) ∷ []))
      × AllOk {E = ProviderError} (content (codes "ping") ∷ []))
    × ((parse_anthropic_chunks reader same_text (err (codes "reset") ∷ [])
          ≡ some (err (transport (codes "reset")) ∷ []))
        × AllOk {A = CompletionDelta} {E = ProviderError} [])
unfolding perry_hermes.Providers.AnthropicEvents.data_lines handle_openai_event
parse_chunks-Breaks_example =
    parse_chunks-Breaks same_text from_str reader (codes "data: ping" ∷ []) []
      (content (codes "ping") ∷ []) [] no_tag (record { usage = no_usage }) broken
      (err (codes "reset") ∷ []) (invalid_response (codes "sse json: bad"))
      (transport (codes "reset"))
      (content (codes "ping") ∷ [], no_tag, [], refl, refl, (refl, refl))
      (bad_event (codes "data: ping\n\ndata: ?\n\n" ∷ []) (codes "data: ?") [] [] (codes "bad")
        (err (codes "reset") ∷ ok (codes "data: c\n\n") ∷ []) tt refl (refl, (refl, tt)) refl
        (codes "?", refl, (λ e. absurd (cc)), refl, refl))
      (refl, refl) (transport_failure [] [] (codes "reset") [] refl tt refl)

failing :
    parse_openai_chunks from_str same_text broken
    ≡ some (content (codes "ping") ∷ err (invalid_response (codes "sse json: bad")) ∷ [])
unfolding parse_openai_chunks
failing = refl

finished :
    parse_openai_chunks from_str same_text
      (ok (codes "data: a\n\ndata: [DONE]\n\ndata: b\n\n") ∷ [])
    ≡ some (content (codes "a") ∷ [])
unfolding parse_openai_chunks
finished = refl

unknown_event :
    parse_anthropic_chunks reader same_text broken
    ≡ some (err (invalid_response (codes "unknown Anthropic SSE event: ?")) ∷ [])
unfolding parse_anthropic_chunks
unknown_event = refl
