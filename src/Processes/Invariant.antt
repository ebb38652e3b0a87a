-- ===== src/Processes/Invariant.antt =====
-- What holds of the process registry at all times, and that every operation keeps it.
use mathlib.Core.Path.{subst}
use perry_hermes.Prelude.{
  ℕ, ◌+◌, ◌-◌, ◌≤◌, ◌≡◌, refl, sym, ap, ◌∙◌, inl, inr, Bool, true, false, Option, none, some, [],
  ◌++◌, Text, append_assoc, append-nil, arith, leb, ltb, Bool-cases, Option-cases,
}
use perry_hermes.Maps.{AllValues}
use perry_hermes.Utf8.{len, split_at}
use perry_hermes.Utf8.Offsets.{len-append, split_at-append, split_at-some}
use perry_hermes.Processes.Buffer.{
  max_output_chars, slice_from, truncate_buffer, snapped, find_feed,
}
use perry_hermes.Processes.Registry.{ℤ, ProcessSession, ProcessRegistry, append_chunk, poll_session}

-- A running process has no exit code, a finished one has one.
abbrev pub HasCode : Bool → Option ℤ → Type 0
HasCode true none = ⊥
HasCode true (some c) = Unit
HasCode false none = Unit
HasCode false (some c) = ⊥

-- The buffer is what has been returned and what has not, and the offset stands between them.
abbrev pub IsSplit : Text → ℕ → Type 0
IsSplit buffer offset =
    (seen : Text) × (unread : Text) × (buffer ≡ seen ++ unread) × (offset ≡ len seen)

pub record IsSound (done : Bool) (s : ProcessSession) : Type 0 where
  pub exited : s.exited ≡ done
  pub code : HasCode done s.exit_code
  pub offset : IsSplit s.output_buffer s.output_returned_offset
  pub bounded : len s.output_buffer ≤ max_output_chars

pub record IsWellFormed (r : ProcessRegistry) : Type 0 where
  pub running : AllValues (IsSound false) r.running
  pub finished : AllValues (IsSound true) r.finished

pub whole : (b : Text) → IsSplit b (len b)
whole b = (b, [], sym (append-nil b), refl)

-- what is left of a slice
slice_from-some :
    (s rest : Text) (start : ℕ) → slice_from s start ≡ some rest → len s ≡ start + len rest
unfolding slice_from
slice_from-some s rest start h = elim (Option-cases (split_at s start)) [
  | inl k ↦ absurd (cc (rw (k, slice_from) at h))
  | inr ((b, a), k) ↦
      let e : some a ≡ some rest = rw (k, slice_from) at h in
      let same : a ≡ rest = cc in
      let (whole, at) = split_at-some s b a start k in
      omega (arith, ap len whole, len-append b a, ap len same, at)
]

snapped-le : (start : ℕ) (o : Option ℕ) → start ≤ snapped start o
snapped-le start none = omega arith
snapped-le start (some i) = omega arith

-- A buffer that has been truncated fits.
pub truncate_buffer-bounded : (s b : Text) → truncate_buffer s ≡ some b → len b ≤ max_output_chars
unfolding truncate_buffer
truncate_buffer-bounded s b h = elim (Bool-cases (leb (len s) max_output_chars)) [
  | inl k ↦
      let e : some s ≡ some b = rw (k, truncate_buffer) at h in
      let same : s ≡ b = cc in ground (arith, k, ap len same)
  | inr k ↦ elim (Option-cases (slice_from s (len s - max_output_chars))) [
    | inl n ↦ absurd (cc (rw n at (rw (k, truncate_buffer) at h)))
    | inr (rest, n) ↦
        let e : slice_from s (snapped (len s - max_output_chars) (find_feed rest)) ≡ some b =
          rw n at (rw (k, truncate_buffer) at h) in
        omega (
          arith,
          slice_from-some s b (snapped (len s - max_output_chars) (find_feed rest)) e,
          snapped-le (len s - max_output_chars) (find_feed rest),
        )
  ]
]

pub subst_some : {A : Type 0} (P : A → Type 0) {x y : A} → some x ≡ some y → P x → P y
subst_some P e p = subst P (cc) p

-- A result has a property, and a panic has another one.
abbrev pub Ends : {A : Type 0} → Type 0 → (A → Type 0) → Option A → Type 0
Ends Panic P none = Panic
Ends Panic P (some x) = P x

-- An operation does not panic, and its result has a property.
abbrev pub Returns : {A : Type 0} → (A → Type 0) → Option A → Type 0
Returns P o = Ends ⊥ P o

-- A chunk keeps a running session sound.
pub append_chunk-IsSound :
    (chunk : Text) (done : Bool) (s t : ProcessSession)
    → IsSound done s
    → append_chunk chunk s ≡ some t
    → IsSound done t
unfolding append_chunk
append_chunk-IsSound chunk done s t h e =
    elim (Bool-cases (ltb max_output_chars (len (s.output_buffer ++ chunk)))) [
      | inl k ↦ elim (Option-cases (truncate_buffer (s.output_buffer ++ chunk))) [
        | inl n ↦ absurd (cc (rw n at (rw (k, append_chunk) at e)))
        | inr (b, n) ↦
            let cut : some (record s { output_buffer = b; output_returned_offset = len b })
                ≡ some t =
              rw n at (rw (k, append_chunk) at e) in
            subst_some (IsSound done) cut (record {
              exited = h.exited;
              code = h.code;
              offset = whole b;
              bounded = truncate_buffer-bounded (s.output_buffer ++ chunk) b n;
            })
      ]
      | inr k ↦
          let longer : some (record s { output_buffer = s.output_buffer ++ chunk }) ≡ some t =
            rw (k, append_chunk) at e in
          let (seen, unread, text, at) = h.offset in
          subst_some (IsSound done) longer (record {
            exited = h.exited;
            code = h.code;
            offset = (
              seen,
              unread ++ chunk,
              ap (λ b. b ++ chunk) text ∙ append_assoc seen unread chunk,
              at,
            );
            bounded = ground (arith, k);
          })
    ]

-- The text that a poll returns is there: the offset is between two characters.
pub poll_session-IsSound :
    (id : Text) (now : ℕ) (done : Bool) (s : ProcessSession)
    → IsSound done s
    → Returns (λ x. IsSound done x.0) (poll_session id now s)
unfolding poll_session slice_from
poll_session-IsSound id now done s h =
    let (seen, unread, text, at) = h.offset in
    let e : split_at s.output_buffer s.output_returned_offset ≡ some (seen, unread) =
      rw (text, at) (split_at-append seen unread) in
    rw (e, poll_session, slice_from)
      (record {
        exited = h.exited;
        code = h.code;
        offset = whole s.output_buffer;
        bounded = h.bounded;
      })
