-- ===== src/Providers/Ending.antt =====
-- How a failure ends the streams of crates/hermes-providers/src/{openai,anthropic}/sse.rs.
use perry_hermes.Prelude.{
  none, some, List, [], ◌∷◌, ◌++◌, Text, codes, text_eq, lines, join, Result, ok, err, false, ◌≡◌,
  ◌≢◌, refl, inl, inr, ap, sym, ◌∙◌, Option-cases, Bool-cases,
}
use mathlib.Core.Path.{subst}
use perry_hermes.Core.Json.{JsonReader}
use perry_hermes.Core.Usage.{no_usage}
use perry_hermes.Core.Errors.{ProviderError, invalid_response}
use perry_hermes.Core.Provider.{CompletionDelta}
use perry_hermes.Providers.Frames.{blank, Handled, parse_sse_data_line}
use perry_hermes.Providers.OpenaiEvents.{
  SseChunk, OpenaiStreamState, openai_data_payload, yield_delta, handle_lines, handle_openai_event,
  parse_openai_chunks,
}
use perry_hermes.Providers.AnthropicEvents.{
  AnthropicStreamState, Parsed, data_lines, anthropic_data_payload, yield_parsed,
  handle_anthropic_event, parse_anthropic_chunks,
}
use perry_hermes.Providers.Breaking.{
  AllOk, GoesOn, IsGood, IsBadEvent, Breaks, GoesOn-AllOk, read_chunks-Breaks,
}

module _ (J : JsonReader) (from_str : Text → Result SseChunk Text) where
  abbrev RejectsChunk : Text → Text → Type 0
  RejectsChunk payload reason = from_str payload ≡ err reason

  yield_delta-IsGood :
      (d : Result CompletionDelta ProviderError × OpenaiStreamState)
      (next : OpenaiStreamState → Handled (Result CompletionDelta ProviderError) OpenaiStreamState)
      → ((s : OpenaiStreamState) → IsGood (next s))
      → IsGood (yield_delta from_str d next)
  yield_delta-IsGood (err e, st) next h = tt
  yield_delta-IsGood (ok d, st) next h = kept (next st) (h st)
    where
      kept :
          (r : Handled (Result CompletionDelta ProviderError) OpenaiStreamState)
          → IsGood r
          → IsGood (ok d ∷ r.0, r.1)
      kept (ys, none) k = tt
      kept (ys, some s) k = k

  handle_lines-IsGood :
      (ls : List Text) (st : OpenaiStreamState) → IsGood (handle_lines from_str ls st)
  unfolding handle_lines
  handle_lines-IsGood [] st = tt
  handle_lines-IsGood (l ∷ ls) st = elim (Option-cases (parse_sse_data_line l)) [
    | inl k ↦
        let same : handle_lines from_str (l ∷ ls) st ≡ handle_lines from_str ls st =
          rw (k, handle_lines) refl in
        subst IsGood (sym same) (handle_lines-IsGood ls st)
    | inr (payload, k) ↦ elim (Bool-cases (text_eq payload (codes "[DONE]"))) [
      | inl d ↦
          let same : handle_lines from_str (l ∷ ls) st ≡ ([], none) =
            rw (k, d, handle_lines) refl in
          subst IsGood (sym same) tt
      | inr d ↦
          let out = openai_data_payload from_str payload st in
          let next = handle_lines from_str ls in
          let same : handle_lines from_str (l ∷ ls) st ≡ yield_delta from_str out next =
            rw (k, d, handle_lines) refl in
          subst IsGood (sym same) (yield_delta-IsGood out next (handle_lines-IsGood ls))
    ]
  ]

  handle_lines-refuses :
      (ls : List Text) (payload reason : Text) (st : OpenaiStreamState)
      → data_lines J ls ≡ payload ∷ []
      → text_eq payload (codes "[DONE]") ≡ false
      → from_str payload ≡ err reason
      → handle_lines from_str ls st
        ≡ (err (invalid_response (codes "sse json: " ++ reason)) ∷ [], none)
  unfolding handle_lines data_lines openai_data_payload
  handle_lines-refuses [] payload reason st h d r = absurd (cc)
  handle_lines-refuses (l ∷ ls) payload reason st h d r =
      elim (Option-cases (parse_sse_data_line l)) [
        | inl k ↦
            rw (k, handle_lines)
              (handle_lines-refuses ls payload reason st (rw (k, data_lines) at h) d r)
        | inr (p, k) ↦
            let only : p ∷ data_lines J ls ≡ payload ∷ [] = rw (k, data_lines) at h in
            let same : p ≡ payload = cc in
            let unfinished : text_eq p (codes "[DONE]") ≡ false = rw same d in
            let refused : from_str p ≡ err reason = rw same r in
            rw (k, unfinished, handle_lines) (rw (refused, openai_data_payload) refl)
      ]

  handle_openai_event-refuses :
      (event reason : Text) (st : OpenaiStreamState)
      → IsBadEvent J RejectsChunk event reason
      → handle_openai_event from_str (event ++ blank) st
        ≡ (err (invalid_response (codes "sse json: " ++ reason)) ∷ [], none)
  unfolding handle_openai_event
  handle_openai_event-refuses event reason st (payload, only, full, d, r) =
      handle_lines-refuses (lines (event ++ blank)) payload reason st only d r

module _ (J : JsonReader) where
  abbrev RejectsJson : Text → Text → Type 0
  RejectsJson payload reason = J.from_str payload ≡ err reason

  -- the reaction to the payload of an event
  abbrev handle_payload :
      AnthropicStreamState
      → Text
      → Handled (Result CompletionDelta ProviderError) AnthropicStreamState
  handle_payload st payload =
      elim payload as (λ _. Handled (Result CompletionDelta ProviderError) AnthropicStreamState) [
        | [] ↦ ([], some st)
        | c ∷ s ↦ yield_parsed J (anthropic_data_payload J (c ∷ s) st)
      ]

  handle_payload-IsGood :
      (st : AnthropicStreamState) (payload : Text) → IsGood (handle_payload st payload)
  unfolding handle_payload
  handle_payload-IsGood st [] = tt
  handle_payload-IsGood st (c ∷ s) = yielded (anthropic_data_payload J (c ∷ s) st)
    where
      yielded : (p : Parsed × AnthropicStreamState) → IsGood (yield_parsed J p)
      yielded (ok (some delta), t) = tt
      yielded (ok none, t) = tt
      yielded (err e, t) = tt

  handle_anthropic_event-IsGood :
      (event : Text) (st : AnthropicStreamState) → IsGood (handle_anthropic_event J event st)
  unfolding handle_anthropic_event handle_payload
  handle_anthropic_event-IsGood event st =
      handle_payload-IsGood st (join (codes "\n") (data_lines J (lines event)))

  handle_payload-refuses :
      (st : AnthropicStreamState) (payload reason : Text)
      → payload ≢ []
      → J.from_str payload ≡ err reason
      → handle_payload st payload
        ≡ (err (invalid_response (codes "sse json: " ++ reason)) ∷ [], none)
  unfolding handle_payload anthropic_data_payload
  handle_payload-refuses st [] reason full r = absurd (full refl)
  handle_payload-refuses st (c ∷ s) reason full r = rw (r, anthropic_data_payload) refl

  handle_anthropic_event-refuses :
      (event reason : Text) (st : AnthropicStreamState)
      → IsBadEvent J RejectsJson event reason
      → handle_anthropic_event J (event ++ blank) st
        ≡ (err (invalid_response (codes "sse json: " ++ reason)) ∷ [], none)
  unfolding handle_anthropic_event handle_payload
  handle_anthropic_event-refuses event reason st (payload, only, full, d, r) =
      ap (λ ls. handle_payload st (join (codes "\n") ls)) only
      ∙ handle_payload-refuses st payload reason full r

-- What ends the streams of both clients. At the start of the chunks are events `es`, with no empty
-- line inside, that go on when they are handled one by one (each client with its own chunks, decoder
-- and `es`). After them the transport fails, or an event comes with one data line whose payload, not
-- empty and not the mark of the end, is no JSON that the client can read. However the text is cut
-- into chunks, the client yields what the events yield, all of it `Ok`, then one error, which says
-- what failed, and nothing more, whatever follows in the text.
pub parse_chunks-Breaks :
    {B : Type 0} (from_utf8_lossy : B → Text) (from_str : Text → Result SseChunk Text)
    (J : JsonReader) (es es' : List Text) (ys ys' : List (Result CompletionDelta ProviderError))
    (st : OpenaiStreamState) (st' : AnthropicStreamState) (chunks chunks' : List (Result B Text))
    (e e' : ProviderError)
    → GoesOn (handle_openai_event from_str) es (record { in_think_tag = false }) ys st
    → Breaks from_utf8_lossy J (λ payload reason. from_str payload ≡ err reason) es chunks e
    → GoesOn (handle_anthropic_event J) es' (record { usage = no_usage }) ys' st'
    → Breaks from_utf8_lossy J (λ payload reason. J.from_str payload ≡ err reason) es' chunks' e'
    → ((parse_openai_chunks from_str from_utf8_lossy chunks ≡ some (ys ++ err e ∷ [])) × AllOk ys)
      × ((parse_anthropic_chunks J from_utf8_lossy chunks' ≡ some (ys' ++ err e' ∷ [])) × AllOk ys')
unfolding parse_openai_chunks parse_anthropic_chunks handle_openai_event
parse_chunks-Breaks from_utf8_lossy from_str J es es' ys ys' st st' chunks chunks' e e' on breaks
      on' breaks' =
    (
      (
        read_chunks-Breaks from_utf8_lossy J _ (handle_openai_event from_str)
            (handle_openai_event-refuses J from_str) es _ st ys chunks e on breaks,
        GoesOn-AllOk (handle_openai_event from_str)
            (λ event. handle_lines-IsGood J from_str (lines event)) es _ ys st on,
      ),
      (
        read_chunks-Breaks from_utf8_lossy J _ (handle_anthropic_event J)
            (handle_anthropic_event-refuses J) es' _ st' ys' chunks' e' on' breaks',
        GoesOn-AllOk (handle_anthropic_event J) (handle_anthropic_event-IsGood J) es' _ ys' st' on',
      ),
    )
