-- ===== src/Utf8/Offsets.antt =====
-- Byte offsets into a text that is split before a character.
use perry_hermes.Prelude.{
  ℕ, ◌+◌, ◌-◌, ◌<◌, ◌≤◌, ◌≡◌, refl, sym, ap, ◌∙◌, true, false, Option, none, some, [], ◌∷◌, ◌++◌,
  Text, ltb, ◌==◌, arith, Bool-cases, ==_iff, inl, inr,
}
use perry_hermes.Utf8.{
  len_utf8, len, is_char_boundary, split_at, cons_left, remove_range, remove_after,
}

pub len_utf8-bounds : (c : ℕ) → (0 < len_utf8 c) × (len_utf8 c ≤ 4)
unfolding len_utf8
len_utf8-bounds c = ground arith

pub len-append : (b a : Text) → len (b ++ a) ≡ len b + len a
len-append [] a = omega arith
len-append (c ∷ b) a = omega (arith, len-append b a)

-- An offset into the second part.
pub boundary-append :
    (b a : Text) (k : ℕ) → is_char_boundary (b ++ a) (len b + k) ≡ is_char_boundary a k
unfolding is_char_boundary
boundary-append [] a k = ap (is_char_boundary a) (omega arith)
boundary-append (c ∷ b) a k = ground (arith, len_utf8-bounds c, boundary-append b a k)

-- The start of a text is a boundary, and no offset inside a character is one.
pub boundary-zero : (a : Text) → is_char_boundary a 0 ≡ true
unfolding is_char_boundary
boundary-zero [] = refl
boundary-zero (c ∷ a) = refl

pub boundary-inside :
    (b : Text) (c : ℕ) (a : Text) (k : ℕ)
    → 0 < k
    → k < len_utf8 c
    → is_char_boundary (b ++ c ∷ a) (len b + k) ≡ false
unfolding is_char_boundary
boundary-inside b c a k pos inside = boundary-append b (c ∷ a) k ∙ ground arith

pub boundary-start : (b a : Text) → is_char_boundary (b ++ a) (len b) ≡ true
boundary-start b a =
    ap (is_char_boundary (b ++ a)) (omega arith) ∙ boundary-append b a 0 ∙ boundary-zero a

pub boundary-end :
    (b : Text) (c : ℕ) (a : Text) → is_char_boundary (b ++ c ∷ a) (len b + len_utf8 c) ≡ true
unfolding is_char_boundary
boundary-end b c a =
    let after : len_utf8 c - len_utf8 c ≡ 0 = omega arith in
    boundary-append b (c ∷ a) (len_utf8 c)
    ∙ ground (arith, len_utf8-bounds c, ap (is_char_boundary a) after, boundary-zero a)

-- A split at the end of the first part.
pub split_at-append : (b a : Text) → split_at (b ++ a) (len b) ≡ some (b, a)
unfolding split_at
split_at-append [] [] = refl
split_at-append [] (c ∷ a) = refl
split_at-append (c ∷ b) a =
    let at : len_utf8 c + len b - len_utf8 c ≡ len b = omega arith in
    ground (arith, len_utf8-bounds c, ap (split_at (b ++ a)) at, split_at-append b a)

pub split_at-first : (c : ℕ) (a : Text) → split_at (c ∷ a) (len_utf8 c) ≡ some (c ∷ [], a)
split_at-first c a = ap (split_at (c ∷ a)) (omega arith) ∙ split_at-append (c ∷ []) a

-- Removing the character after the first part.
pub remove_range-first :
    (b : Text) (c : ℕ) (a : Text)
    → remove_range (b ++ c ∷ a) (len b) (len b + len_utf8 c) ≡ some (b ++ a)
unfolding remove_range
remove_range-first b c a =
    let width : len b + len_utf8 c - len b ≡ len_utf8 c = omega arith in
    ground (
      arith,
      ap (remove_after (len b + len_utf8 c - len b)) (split_at-append b (c ∷ a)),
      ap (split_at (c ∷ a)) width,
      split_at-first c a,
    )

abbrev pub pair : Text → Text → Option (Text × Text)
pair x y = some (x, y)

pub same_parts : (x y b a : Text) → pair x y ≡ pair b a → (x ≡ b) × (y ≡ a)
same_parts x y b a h = (cc, cc)

cons_left-some :
    (c : ℕ) (o : Option (Text × Text)) (b a : Text)
    → cons_left c o ≡ some (b, a)
    → (b' : Text) × (o ≡ some (b', a)) × (b ≡ c ∷ b')
cons_left-some c none b a h = absurd (cc)
cons_left-some c (some (x, y)) b a h =
    let (front, back) = same_parts (c ∷ x) y b a h in (x, ap (pair x) back, sym front)

-- A split gives the two parts of the text at the offset.
pub split_at-some : (s b a : Text) (p : ℕ) → split_at s p ≡ some (b, a) → (s ≡ b ++ a) × (p ≡ len b)
unfolding split_at
split_at-some [] b a p h = elim (Bool-cases (p == 0)) [
  | inl k ↦
      let (front, back) = same_parts [] [] b a (rw (k, split_at) at h) in
      (rw (sym front) (rw (sym back) refl), (==_iff p 0).0 k ∙ ap len front)
  | inr k ↦ absurd (cc (rw (k, split_at) at h))
]
split_at-some (c ∷ s) b a p h = elim (Bool-cases (p == 0)) [
  | inl k ↦
      let (front, back) = same_parts [] (c ∷ s) b a (rw (k, split_at) at h) in
      (back ∙ ap (λ t. t ++ a) front, (==_iff p 0).0 k ∙ ap len front)
  | inr k ↦ elim (Bool-cases (ltb p (len_utf8 c))) [
    | inl l ↦ absurd (cc (rw l at (rw (k, split_at) at h)))
    | inr l ↦
        let (b', e, front) =
          cons_left-some c (split_at s (p - len_utf8 c)) b a (rw l at (rw (k, split_at) at h)) in
        let (whole, at) = split_at-some s b' a (p - len_utf8 c) e in
        (
          ap (◌∷◌ c) whole ∙ ap (λ t. t ++ a) (sym front),
          ground (arith, l, at) ∙ ap len (sym front),
        )
  ]
]
