-- ===== src/Files/Globbing.antt =====
-- The table of `glob_match` in crates/hermes-skill-tools/src/tools/files/search.rs decides whether a
-- name matches.
use perry_hermes.Prelude.{
  ℕ, Bool, true, false, List, [], ◌∷◌, ◌++◌, Text, ◌==◌, ◌&&◌, ◌||◌, ◌≡◌, ◌≢◌, ◌↔◌, text_eq, codes,
  arith, append_assoc, append-nil, refl, sym, inl, inr, ◌⊎◌, Bool-cases, text_eq_iff,
}
use mathlib.Core.Path.{subst}
use perry_hermes.Files.Glob.{
  star, cell, head_or_false, cells, next_row, last_row, falses, last_cell, glob_match, Matches,
  empty,
}
use perry_hermes.Files.Matching.{Matches-star, star_iff, empty_inv, same_iff, first_iff}

-- The cells of a row, from the prefix `s` of the name on, say whether `q` matches.
abbrev Row : Text → Text → Text → List Bool → Type 0
Row q s name [] = ⊥
Row q s [] (b ∷ row) = ((b ≡ true) ↔ Matches q s) × (row ≡ [])
Row q s (c ∷ name) (b ∷ row) = ((b ≡ true) ↔ Matches q s) × Row q (s ++ (c ∷ [])) name row

head-Row :
    (q s name : Text) (row : List Bool)
    → Row q s name row
    → (head_or_false row ≡ true) ↔ Matches q s
head-Row q s name [] h = absurd h
head-Row q s [] (b ∷ row) h = h.0
head-Row q s (c ∷ name) (b ∷ row) h = h.0

last-Row :
    (q s name : Text) (row : List Bool)
    → Row q s name row
    → (last_cell row ≡ true) ↔ Matches q (s ++ name)
last-Row q s name [] h = absurd h
last-Row q s [] (b ∷ []) h = subst (λ z. (b ≡ true) ↔ Matches q z) (sym (append-nil s)) h.0
last-Row q s [] (b ∷ c ∷ row) h = absurd (cc (h.1))
last-Row q s (c ∷ name) (b ∷ []) h = absurd h.1
last-Row q s (c ∷ name) (b ∷ d ∷ row) h =
    subst (λ z. (last_cell (d ∷ row) ≡ true) ↔ Matches q z) (append_assoc s (c ∷ []) name)
      (last-Row q (s ++ (c ∷ [])) name (d ∷ row) h.1)

module _ {P Q R : Type 0} (a b : Bool) (ha : (a ≡ true) ↔ P) (hb : (b ≡ true) ↔ Q) where
  or_iff : R ↔ (P ⊎ Q) → ((a || b) ≡ true) ↔ R
  or_iff h = (
    λ k. elim (Bool-cases a) [
      | inl x ↦ h.1 (inl (ha.0 x))
      | inr x ↦ h.1 (inr (hb.0 (ground arith)))
    ],
    λ r. elim (h.0 r) [
      | inl x ↦ let y = ha.1 x in ground arith
      | inr x ↦ let y = hb.1 x in ground arith
    ],
  )

  and_iff : R ↔ (P × Q) → ((a && b) ≡ true) ↔ R
  and_iff h = (
    λ k. h.1 (ha.0 (ground arith), hb.0 (ground arith)),
    λ r. let x = ha.1 (h.0 r).0 in let y = hb.1 (h.0 r).1 in ground arith,
  )

eq_iff : (p c : ℕ) → (p == c ≡ true) ↔ (p ≡ c)
eq_iff p c = ground arith

cell_iff :
    (q s : Text) (p c : ℕ) (left diagonal above : Bool)
    → (left ≡ true) ↔ Matches (q ++ (p ∷ [])) s
    → (diagonal ≡ true) ↔ Matches q s
    → (above ≡ true) ↔ Matches q (s ++ (c ∷ []))
    → (cell p c left diagonal above ≡ true) ↔ Matches (q ++ (p ∷ [])) (s ++ (c ∷ []))
cell_iff q s p c left diagonal above hl hd ha = elim (Bool-cases (p == star)) [
  | inl h ↦
      let e : p ≡ star = ground arith in
      let value : cell p c left diagonal above ≡ (above || left) = rw h refl in
      rw value (
        or_iff above left ha hl (
          subst
            (λ z.
              Matches (q ++ (z ∷ [])) (s ++ (c ∷ []))
              ↔ (Matches q (s ++ (c ∷ [])) ⊎ Matches (q ++ (z ∷ [])) s))
            (sym e) (star_iff q s c)))
  | inr h ↦
      let n : p ≢ star = ground arith in
      let value : cell p c left diagonal above ≡ (p == c && diagonal) = ground arith in
      rw value (and_iff (p == c) diagonal (eq_iff p c) hd (same_iff q s p c n))
]

cells-Row :
    (q s : Text) (p : ℕ) (left : Bool) (name : Text) (above : List Bool)
    → (left ≡ true) ↔ Matches (q ++ (p ∷ [])) s
    → Row q s name above
    → Row (q ++ (p ∷ [])) s name (left ∷ cells p left name above)
unfolding cells
cells-Row q s p left [] above hl h = (hl, refl)
cells-Row q s p left (c ∷ name) [] hl h = absurd h
cells-Row q s p left (c ∷ name) (diagonal ∷ above) hl h =
    let here =
      cell_iff q s p c left diagonal (head_or_false above) hl h.0
        (head-Row q (s ++ (c ∷ [])) name above h.1) in
    (hl, cells-Row q (s ++ (c ∷ [])) p _ name above here h.1)

next_row-Row :
    (q : Text) (p : ℕ) (name : Text) (above : List Bool)
    → Row q [] name above
    → Row (q ++ (p ∷ [])) [] name (next_row p name above)
unfolding next_row
next_row-Row q p name above h =
    cells-Row q [] p _ name above
      (and_iff (p == star) (head_or_false above) (eq_iff p star) (head-Row q [] name above h)
        (first_iff q p))
      h

last_row-Row :
    (q pat name : Text) (row : List Bool)
    → Row q [] name row
    → Row (q ++ pat) [] name (last_row pat name row)
unfolding last_row
last_row-Row q [] name row h = subst (λ z. Row z [] name row) (sym (append-nil q)) h
last_row-Row q (p ∷ pat) name row h =
    subst (λ z. Row z [] name (last_row pat name (next_row p name row)))
      (append_assoc q (p ∷ []) pat)
      (last_row-Row (q ++ (p ∷ [])) pat name (next_row p name row) (next_row-Row q p name row h))

no_match : (c : ℕ) (s : Text) → (false ≡ true) ↔ Matches [] (c ∷ s)
no_match c s = (λ h. absurd (cc), λ d. absurd (cc (empty_inv d)))

falses-Row : (c : ℕ) (s name : Text) → Row [] (c ∷ s) name (false ∷ falses name)
falses-Row c s [] = (no_match c s, refl)
falses-Row c s (d ∷ name) = (no_match c s, falses-Row c (s ++ (d ∷ [])) name)

first-Row : (name : Text) → Row [] [] name (true ∷ falses name)
first-Row [] = ((λ h. empty, λ d. refl), refl)
first-Row (c ∷ name) = ((λ h. empty, λ d. refl), falses-Row c [] name)

-- `glob_match` accepts exactly the names that match the pattern.
pub glob_match-Matches :
    (pattern name : Text) → (glob_match pattern name ≡ true) ↔ Matches pattern name
unfolding glob_match
glob_match-Matches pattern name = elim (Bool-cases (text_eq pattern (codes "*"))) [
  | inl h ↦
      let e : pattern ≡ star ∷ [] = (text_eq_iff pattern (codes "*")).0 h in
      rw h (λ _. subst (λ z. Matches z name) (sym e) (Matches-star name), λ _. refl)
  | inr h ↦ rw h (last-Row pattern [] name _ (last_row-Row [] pattern name _ (first-Row name)))
]
