-- ===== src/Tui/Boundary.antt =====
-- Byte offsets of a text that is split before a character.
use perry_hermes.Prelude.{ℕ, zero, suc, ◌+◌, ◌-◌, ◌<◌, ◌≤◌, ◌≡◌, ap, ◌∷◌, ◌++◌, Text, arith, min}
use native.Mathlib.Decide.{dec_lt}
use perry_hermes.Utf8.{len_utf8, len, is_char_boundary}
use perry_hermes.Tui.App.{prev_from, prev_char_boundary, next_from, next_char_boundary}
use perry_hermes.Utf8.Offsets.{
  len_utf8-bounds, len-append, boundary-inside, boundary-start, boundary-end,
}

-- The search backwards from inside a character, or from its start, ends at its start.
prev_from-start :
    (b : Text) (c : ℕ) (a : Text) (k p : ℕ)
    → k < len_utf8 c
    → p ≡ len b + k
    → prev_from (b ++ c ∷ a) p ≡ len b
unfolding prev_from
prev_from-start b c a zero zero inside e = omega arith
prev_from-start b c a (suc k) zero inside e = absurd (omega arith)
prev_from-start b c a zero (suc p) inside e =
    let at : suc p ≡ len b = omega arith in
    ground (arith, ap (is_char_boundary (b ++ c ∷ a)) at, boundary-start b (c ∷ a))
prev_from-start b c a (suc k) (suc p) inside e = ground (
  arith,
  ap (is_char_boundary (b ++ c ∷ a)) e,
  boundary-inside b c a (suc k),
  prev_from-start b c a k p (omega arith) (omega arith),
)

pub prev_char_boundary-start :
    (b : Text) (c : ℕ) (a : Text) → prev_char_boundary (b ++ c ∷ a) (len b + len_utf8 c) ≡ len b
unfolding prev_char_boundary
prev_char_boundary-start b c a =
    prev_from-start b c a (len_utf8 c - 1) (len b + len_utf8 c - 1)
      (omega (arith, len_utf8-bounds c)) (omega (arith, len_utf8-bounds c))

-- The search forwards from inside a character ends at its end.
next_from-end :
    (fuel : ℕ) (b : Text) (c : ℕ) (a : Text) (k p : ℕ)
    → 0 < k
    → k + fuel ≡ len_utf8 c + len a
    → k ≤ len_utf8 c
    → p ≡ len b + k
    → next_from fuel (b ++ c ∷ a) p ≡ len b + len_utf8 c
unfolding next_from
next_from-end zero b c a k p pos whole inside e = omega arith
next_from-end (suc fuel) b c a k p pos whole inside e = elim (dec_lt k (len_utf8 c)) [
  | yes h ↦ ground (
    arith,
    ap (is_char_boundary (b ++ c ∷ a)) e,
    boundary-inside b c a k pos h,
    next_from-end fuel b c a (k + 1) (p + 1) (omega arith) (omega arith) (omega arith)
        (omega arith),
  )
  | no h ↦
      let same : k ≡ len_utf8 c = omega arith in
      let at : p ≡ len b + len_utf8 c = omega arith in
      ground (arith, ap (is_char_boundary (b ++ c ∷ a)) at, boundary-end b c a)
]

pub next_char_boundary-end :
    (b : Text) (c : ℕ) (a : Text) → next_char_boundary (b ++ c ∷ a) (len b) ≡ len b + len_utf8 c
unfolding next_char_boundary
next_char_boundary-end b c a =
    let whole = len-append b (c ∷ a) in
    let at : min (len b + 1) (len (b ++ c ∷ a)) ≡ len b + 1 =
      omega (arith, whole, len_utf8-bounds c) in
    next_from-end (len (b ++ c ∷ a) - min (len b + 1) (len (b ++ c ∷ a))) b c a 1
      (min (len b + 1) (len (b ++ c ∷ a))) (omega arith)
      (omega (arith, whole, at, len_utf8-bounds c)) (omega (arith, len_utf8-bounds c)) at
