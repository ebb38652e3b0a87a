-- ===== src/Providers/Breaking.antt =====
-- Streams of crates/hermes-providers/src/{openai,anthropic}/sse.rs that fail, for any handler of their
-- events.
use perry_hermes.Prelude.{
  none, some, List, [], ◌∷◌, ◌++◌, Text, codes, text_eq, lines, map, Result, ok, err, false, ◌≡◌,
  ◌≢◌, refl, ap, sym, ◌∙◌, append_assoc, append-nil, All,
}
use mathlib.Core.Path.{subst}
use perry_hermes.Core.Json.{JsonReader}
use perry_hermes.Core.Errors.{ProviderError, transport, invalid_response}
use perry_hermes.Core.Provider.{CompletionDelta}
use perry_hermes.Providers.ThinkTags.{find_tag}
use perry_hermes.Providers.Frames.{blank, Handled, read_chunks}
use perry_hermes.Providers.Framing.{
  IsEvent, framed, decoded, after_event, handle_then, read_chunks-buffered,
}
use perry_hermes.Providers.AnthropicEvents.{data_lines}

abbrev pub AllOk : {A E : Type 0} → List (Result A E) → Type 0
AllOk [] = Unit
AllOk (ok a ∷ rs) = AllOk rs
AllOk (err e ∷ rs) = ⊥

AllOk-append : {A E : Type 0} (xs ys : List (Result A E)) → AllOk xs → AllOk ys → AllOk (xs ++ ys)
AllOk-append [] ys h k = k
AllOk-append (ok a ∷ xs) ys h k = AllOk-append xs ys h k
AllOk-append (err e ∷ xs) ys h k = absurd h

-- Handled one by one, the events yield `ys` without ending the stream, whose state is then `t`.
abbrev pub GoesOn : {O S : Type 0} → (Text → S → Handled O S) → List Text → S → List O → S → Type 0
GoesOn handle [] s ys t = (ys ≡ []) × (t ≡ s)
GoesOn {O} {S} handle (e ∷ es) s ys t =
    (zs : List O) × (u : S) × (us : List O) × (handle (e ++ blank) s ≡ (zs, some u))
    × (ys ≡ zs ++ us)
    × GoesOn handle es u us t

handle_then-GoesOn :
    {O S : Type 0} (end : List O) (handle : Text → S → Handled O S) (es fs : List Text) (s : S)
    (ys : List O) (t : S)
    → GoesOn handle es s ys t
    → handle_then end handle (es ++ fs) s ≡ ys ++ handle_then end handle fs t
handle_then-GoesOn end handle [] fs s ys t (h, k) = rw (h, k) refl
handle_then-GoesOn end handle (e ∷ es) fs s ys t (zs, u, us, h, split, on) =
    ap (λ d. after_event d (handle_then end handle (es ++ fs))) h
    ∙ ap (λ z. zs ++ z) (handle_then-GoesOn end handle es fs u us t on)
    ∙ sym (append_assoc zs us (handle_then end handle fs t))
    ∙ ap (λ z. z ++ handle_then end handle fs t) (sym split)

-- A handler that goes on has yielded no error.
abbrev pub IsGood : {A E S : Type 0} → Handled (Result A E) S → Type 0
IsGood (ys, none) = Unit
IsGood (ys, some s) = AllOk ys

pub GoesOn-AllOk :
    {A E S : Type 0} (handle : Text → S → Handled (Result A E) S)
    (good : (event : Text) (s : S) → IsGood (handle event s)) (es : List Text) (s : S)
    (ys : List (Result A E)) (t : S)
    → GoesOn handle es s ys t
    → AllOk ys
GoesOn-AllOk handle good [] s ys t (h, k) = rw h tt
GoesOn-AllOk handle good (e ∷ es) s ys t (zs, u, us, h, split, on) =
    let first : AllOk zs = subst IsGood h (good (e ++ blank) s) in
    rw split (AllOk-append zs us first (GoesOn-AllOk handle good es u us t on))

-- An event whose only data line has a payload that `Rejects` with a text.
abbrev pub IsBadEvent : JsonReader → (Text → Text → Type 0) → Text → Text → Type 0
IsBadEvent J Rejects event reason =
    (payload : Text) × (data_lines J (lines (event ++ blank)) ≡ payload ∷ [])
    × (payload ≢ [])
    × (text_eq payload (codes "[DONE]") ≡ false)
    × Rejects payload reason

-- Chunks that end here, or at which the transport fails.
abbrev pub Closes : {B E : Type 0} → List (Result B E) → Type 0
Closes [] = Unit
Closes (err failure ∷ more) = Unit
Closes (ok c ∷ more) = ⊥

-- The chunks that begin with the events `es` and then fail: the transport fails after them, or the
-- next event is a bad one.
pub data Breaks {B : Type 0} (from_utf8_lossy : B → Text) (J : JsonReader)
    (Rejects : Text → Text → Type 0) (es : List Text)
    : List (Result B Text) → ProviderError → Type 0 where
  transport_failure :
      (cs : List B) (tail failure : Text) (more : List (Result B Text))
      → find_tag blank tail ≡ none
      → All IsEvent es
      → decoded from_utf8_lossy cs ≡ framed es tail
      → Breaks from_utf8_lossy J Rejects es (map ok cs ++ err failure ∷ more) (transport failure)
  bad_event :
      (cs : List B) (bad : Text) (later : List Text) (tail reason : Text)
      (last : List (Result B Text))
      → Closes last
      → find_tag blank tail ≡ none
      → All IsEvent (es ++ bad ∷ later)
      → decoded from_utf8_lossy cs ≡ framed (es ++ bad ∷ later) tail
      → IsBadEvent J Rejects bad reason
      → Breaks from_utf8_lossy J Rejects es
          (map ok cs ++ last)
          (invalid_response (codes "sse json: " ++ reason))

module _ {B S : Type 0} (from_utf8_lossy : B → Text) (J : JsonReader)
    (Rejects : Text → Text → Type 0)
    (handle : Text → S → Handled (Result CompletionDelta ProviderError) S)
    (refuses : (event reason : Text) (s : S)
      → IsBadEvent J Rejects event reason
      → handle (event ++ blank) s
        ≡ (err (invalid_response (codes "sse json: " ++ reason)) ∷ [], none)) where
  last-Closes :
      (last : List (Result B Text))
      → Closes last
      → (end : List (Result CompletionDelta ProviderError)) × ((b : Text) (s : S)
          → read_chunks from_utf8_lossy (λ x. err (transport x)) handle last b s ≡ some end)
  unfolding read_chunks
  last-Closes [] h = ([], λ b s. refl)
  last-Closes (err failure ∷ more) h = (err (transport failure) ∷ [], λ b s. refl)
  last-Closes (ok c ∷ more) h = absurd h

  pub read_chunks-Breaks :
      (es : List Text) (s t : S) (ys : List (Result CompletionDelta ProviderError))
      (chunks : List (Result B Text)) (e : ProviderError)
      → GoesOn handle es s ys t
      → Breaks from_utf8_lossy J Rejects es chunks e
      → read_chunks from_utf8_lossy (λ x. err (transport x)) handle chunks [] s
        ≡ some (ys ++ err e ∷ [])
  unfolding read_chunks
  read_chunks-Breaks es s t ys _ _ on (transport_failure cs tail failure more clean good h) =
      let end = err (transport failure) ∷ [] in
      read_chunks-buffered from_utf8_lossy (λ x. err (transport x)) handle tail clean
        (err failure ∷ more) end (λ b u. refl) cs es [] s good refl h
      ∙ ap some (
          ap (λ l. handle_then end handle l s) (sym (append-nil es))
          ∙ handle_then-GoesOn end handle es [] s ys t on)
  read_chunks-Breaks es s t ys _ _ on
        (bad_event cs bad later tail reason last closed clean good h is_bad) =
      let (end, stops) = last-Closes last closed in
      read_chunks-buffered from_utf8_lossy (λ x. err (transport x)) handle tail clean last end stops
        cs (es ++ bad ∷ later) [] s good refl h
      ∙ ap some (
          handle_then-GoesOn end handle es (bad ∷ later) s ys t on
          ∙ ap (λ d. ys ++ after_event d (handle_then end handle later))
              (refuses bad reason t is_bad))
