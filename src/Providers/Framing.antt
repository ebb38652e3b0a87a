-- ===== src/Providers/Framing.antt =====
-- What the chunked reading of crates/hermes-providers/src/{openai,anthropic}/sse.rs amounts to.
use perry_hermes.Prelude.{
  ℕ, zero, suc, Option, none, some, List, [], ◌∷◌, ◌++◌, Text, length, length-append, strip_prefix,
  Result, ok, ◌≡◌, refl, sym, ap, ◌∙◌, inl, inr, ◌≤◌, arith, append_assoc, append-nil, map, All,
  Option-cases,
}
use mathlib.Core.Path.{subst}
use perry_hermes.Providers.ThinkTags.{find_tag, cons_before}
use perry_hermes.Providers.Segments.{find_tag-append, find_tag-length, strip_prefix-long}
use perry_hermes.Providers.Frames.{
  blank, Handled, after_yields, after_handled, drain_events, after_drain, read_chunks,
}

-- An event with no empty line inside, its separator not counted.
abbrev pub IsEvent : Text → Type 0
IsEvent e = find_tag blank (e ++ (10 ∷ [])) ≡ none

abbrev pub framed : List Text → Text → Text
framed [] tail = tail
framed (e ∷ es) tail = e ++ (blank ++ framed es tail)

cons_before-none : (c : ℕ) (o : Option (Text × Text)) → cons_before c o ≡ none → o ≡ none
cons_before-none c none h = refl
cons_before-none c (some (b, a)) h = absurd (cc)

-- The separator that ends an event is the first one found.
find_tag-IsEvent :
    (e rest : Text) → IsEvent e → find_tag blank (e ++ (blank ++ rest)) ≡ some (e, rest)
find_tag-IsEvent [] rest h = refl
find_tag-IsEvent (c ∷ e) rest h = elim (Option-cases (strip_prefix blank (c ∷ (e ++ (10 ∷ []))))) [
  | inr (r, k) ↦ absurd (cc (rw (k, find_tag) at h))
  | inl k ↦
      let inner : find_tag blank (e ++ (10 ∷ [])) ≡ none =
        cons_before-none c _ (rw (k, find_tag) at h) in
      let long : 2 ≤ length (c ∷ (e ++ (10 ∷ []))) = omega (arith, length-append e (10 ∷ [])) in
      let grown : strip_prefix blank (c ∷ (e ++ (blank ++ rest))) ≡ none =
        subst (λ z. strip_prefix blank (c ∷ z) ≡ none) (append_assoc e (10 ∷ []) (10 ∷ rest))
          (strip_prefix-long blank (c ∷ (e ++ (10 ∷ []))) (10 ∷ rest) long k) in
      rw (grown, find_tag) (ap (cons_before c) (find_tag-IsEvent e rest inner))
]

module _ {O S : Type 0} where
  abbrev pub after_event : Handled O S → (S → List O) → List O
  after_event (ys, none) next = ys
  after_event (ys, some s) next = ys ++ next s

  -- The events handled one by one, until the stream returns.
  abbrev pub handle_all : (Text → S → Handled O S) → List Text → S → List O
  handle_all handle [] s = []
  handle_all handle (e ∷ es) s = after_event (handle (e ++ blank) s) (handle_all handle es)

  -- The events handled one by one, then `end` unless the stream has returned.
  abbrev pub handle_then : List O → (Text → S → Handled O S) → List Text → S → List O
  handle_then end handle [] s = end
  handle_then end handle (e ∷ es) s =
      after_event (handle (e ++ blank) s) (handle_then end handle es)

  after_event-ext :
      (h : Handled O S) (f g : S → List O)
      → ((s : S) → f s ≡ g s)
      → after_event h f ≡ after_event h g
  after_event-ext (ys, none) f g k = refl
  after_event-ext (ys, some s) f g k = ap (λ z. ys ++ z) (k s)

  handle_then-nil :
      (handle : Text → S → Handled O S) (es : List Text) (s : S)
      → handle_then [] handle es s ≡ handle_all handle es s
  handle_then-nil handle [] s = refl
  handle_then-nil handle (e ∷ es) s =
      after_event-ext (handle (e ++ blank) s) _ _ (handle_then-nil handle es)

  after_drain-some :
      (next : Text → S → Option (List O)) (ys zs : List O) (b : Text) (s : S)
      → next b s ≡ some zs
      → after_drain next (some (ys, some (b, s))) ≡ some (ys ++ zs)
  after_drain-some next ys zs b s h = rw (h, after_drain) refl

  after_drain-yields :
      (next : Text → S → Option (List O)) (ys zs : List O) (o : Option (List O × Option (Text × S)))
      → after_drain next o ≡ some zs
      → after_drain next (after_yields ys o) ≡ some (ys ++ zs)
  after_drain-yields next ys zs none h = absurd (cc)
  after_drain-yields next ys zs (some (us, none)) h =
      let e : some us ≡ some zs = h in let e' : us ≡ zs = cc in rw e' refl
  after_drain-yields next ys zs (some (us, some (b, s))) h = elim (Option-cases (next b s)) [
    | inl k ↦ absurd (cc (rw (k, after_drain) at h))
    | inr (vs, k) ↦
        let e : some (us ++ vs) ≡ some zs = rw (k, after_drain) at h in
        let e' : us ++ vs ≡ zs = cc in
        after_drain-some next (ys ++ us) vs b s k
        ∙ ap some (append_assoc ys us vs ∙ ap (λ z. ys ++ z) e')
  ]

  after_drain-handled :
      (next : Text → S → Option (List O)) (h : Handled O S)
      (rec : S → Option (List O × Option (Text × S))) (ref : S → List O)
      → ((t : S) → after_drain next (rec t) ≡ some (ref t))
      → after_drain next (after_handled h rec) ≡ some (after_event h ref)
  after_drain-handled next (ys, none) rec ref k = refl
  after_drain-handled next (ys, some s) rec ref k = after_drain-yields next ys (ref s) (rec s) (k s)

-- A buffer in which an event is found, before the rest `x` of a stream of events: it is the first.
next_framed :
    (es : List Text) (tail b x event rest : Text)
    → All IsEvent es
    → find_tag blank tail ≡ none
    → find_tag blank b ≡ some (event, rest)
    → b ++ x ≡ framed es tail
    → (fs : List Text) × (es ≡ event ∷ fs) × (rest ++ x ≡ framed fs tail)
next_framed [] tail b x event rest good clean found h =
    let grown : find_tag blank (b ++ x) ≡ some (event, rest ++ x) =
      find_tag-append blank b x event rest found in
    absurd (cc (ap (find_tag blank) h, grown, clean))
next_framed (e ∷ es) tail b x event rest good clean found h =
    let grown : find_tag blank (b ++ x) ≡ some (event, rest ++ x) =
      find_tag-append blank b x event rest found in
    let first : find_tag blank (framed (e ∷ es) tail) ≡ some (e, framed es tail) =
      find_tag-IsEvent e (framed es tail) good.0 in
    let both : some (event, rest ++ x) ≡ some (e, framed es tail) =
      sym grown ∙ (ap (find_tag blank) h ∙ first) in
    let e1 : e ≡ event = cc in
    let e2 : rest ++ x ≡ framed es tail = cc in (es, ap (λ z. z ∷ es) e1, e2)

module _ {O S : Type 0} (end : List O) (handle : Text → S → Handled O S) (tail x : Text)
    (clean : find_tag blank tail ≡ none) (next : Text → S → Option (List O))
    (later : (es : List Text) (b : Text) (s : S)
      → All IsEvent es
      → find_tag blank b ≡ none
      → b ++ x ≡ framed es tail
      → next b s ≡ some (handle_then end handle es s)) where
  drain_events-framed :
      (fuel : ℕ) (es : List Text) (b : Text) (s : S)
      → length b ≤ fuel
      → All IsEvent es
      → b ++ x ≡ framed es tail
      → after_drain next (drain_events handle fuel b s) ≡ some (handle_then end handle es s)
  unfolding drain_events
  drain_events-framed zero es b s l good h = elim (Option-cases (find_tag blank b)) [
    | inl k ↦ rw (k, drain_events) (after_drain-some next [] _ b s (later es b s good k h))
    | inr ((event, rest), k) ↦ absurd (omega (arith, find_tag-length blank b event rest k))
  ]
  drain_events-framed (suc fuel) es b s l good h = elim (Option-cases (find_tag blank b)) [
    | inl k ↦ rw (k, drain_events) (after_drain-some next [] _ b s (later es b s good k h))
    | inr ((event, rest), k) ↦
        let (fs, e, h') = next_framed es tail b x event rest good clean k h in
        let shorter : length rest ≤ fuel = omega (arith, find_tag-length blank b event rest k) in
        let good' : All IsEvent (event ∷ fs) = rw e at good in
        rw (k, e, drain_events)
          (after_drain-handled next (handle (event ++ blank) s) (drain_events handle fuel rest)
            (handle_then end handle fs) λ t. drain_events-framed fuel fs rest t shorter good'.1 h')
  ]

-- The text of the chunks.
abbrev pub decoded : {B : Type 0} → (B → Text) → List B → Text
decoded from_utf8_lossy [] = []
decoded from_utf8_lossy (c ∷ cs) = from_utf8_lossy c ++ decoded from_utf8_lossy cs

module _ {O S B E : Type 0} (from_utf8_lossy : B → Text) (transport : E → O)
    (handle : Text → S → Handled O S) (tail : Text) (clean : find_tag blank tail ≡ none) where
  -- Chunks, and then chunks `last` that yield `end` whatever the state is.
  pub read_chunks-buffered :
      (last : List (Result B E)) (end : List O)
      (stops : (b : Text) (s : S)
        → read_chunks from_utf8_lossy transport handle last b s ≡ some end)
      (cs : List B) (es : List Text) (b : Text) (s : S)
      → All IsEvent es
      → find_tag blank b ≡ none
      → b ++ decoded from_utf8_lossy cs ≡ framed es tail
      → read_chunks from_utf8_lossy transport handle (map ok cs ++ last) b s
        ≡ some (handle_then end handle es s)
  unfolding read_chunks
  read_chunks-buffered last end stops [] [] b s good k h = stops b s
  read_chunks-buffered last end stops [] (e ∷ es) b s good k h =
      let first : find_tag blank (framed (e ∷ es) tail) ≡ some (e, framed es tail) =
        find_tag-IsEvent e (framed es tail) good.0 in
      absurd (cc (ap (find_tag blank) (sym (append-nil b) ∙ h), first, k))
  read_chunks-buffered last end stops (c ∷ cs) es b s good k h =
      let grown = b ++ from_utf8_lossy c in
      drain_events-framed end handle tail (decoded from_utf8_lossy cs) clean
        (read_chunks from_utf8_lossy transport handle (map ok cs ++ last))
        (read_chunks-buffered last end stops cs) (length grown) es grown s (omega arith) good
        (append_assoc b (from_utf8_lossy c) (decoded from_utf8_lossy cs) ∙ h)

  -- However the text of a stream is cut into chunks, the client yields what handling its events
  -- one by one yields, in their order and up to the one that ends the stream; text after the last
  -- empty line yields nothing. The events have no empty line inside.
  pub read_chunks-events :
      (cs : List B) (es : List Text) (s : S)
      → All IsEvent es
      → decoded from_utf8_lossy cs ≡ framed es tail
      → read_chunks from_utf8_lossy transport handle (map ok cs) [] s
        ≡ some (handle_all handle es s)
  unfolding read_chunks
  read_chunks-events cs es s good h =
      ap (λ l. read_chunks from_utf8_lossy transport handle l [] s) (sym (append-nil (map ok cs)))
      ∙ read_chunks-buffered [] [] (λ b t. refl) cs es [] s good refl h
      ∙ ap some (handle_then-nil handle es s)
