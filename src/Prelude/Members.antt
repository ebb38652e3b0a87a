-- ===== src/Prelude/Members.antt =====
-- Membership in lists, and what `take` and `drop` leave of a list.
use Prim.Native.Nat.{ℕ, zero, suc, ◌+◌, ◌≤◌}
use mathlib.Core.Path.{◌≡◌, refl, sym, ap, ◌∙◌}
use mathlib.Core.Logic.{◌↔◌, ◌⊎◌, inl, inr}
use mathlib.Core.Bool.{Bool, true}
use mathlib.Core.List.{List, [], ◌∷◌, ◌++◌, map}
use native.Mathlib.Omega.{arith}
use perry_hermes.Prelude.Tests.{Bool-cases}
use perry_hermes.Prelude.Lists.{length, take, drop, filter, All}

abbrev pub Member : {A : Type 0} → A → List A → Type 0
Member a [] = ⊥
Member a (x ∷ xs) = (a ≡ x) ⊎ Member a xs

module _ {A : Type 0} where
  pub Member-left : (a : A) (xs ys : List A) → Member a xs → Member a (xs ++ ys)
  Member-left a [] ys m = absurd m
  Member-left a (x ∷ xs) ys (inl e) = inl e
  Member-left a (x ∷ xs) ys (inr m) = inr (Member-left a xs ys m)

  pub Member-right : (a : A) (xs ys : List A) → Member a ys → Member a (xs ++ ys)
  Member-right a [] ys m = m
  Member-right a (x ∷ xs) ys m = inr (Member-right a xs ys m)

  pub Member-split : (a : A) (xs ys : List A) → Member a (xs ++ ys) → Member a xs ⊎ Member a ys
  Member-split a [] ys m = inr m
  Member-split a (x ∷ xs) ys (inl e) = inl (inl e)
  Member-split a (x ∷ xs) ys (inr m) = elim (Member-split a xs ys m) [
    | inl l ↦ inl (inr l)
    | inr r ↦ inr r
  ]

  pub All-map : (P Q : A → Type 0) (xs : List A) → ((a : A) → P a → Q a) → All P xs → All Q xs
  All-map P Q [] f h = tt
  All-map P Q (x ∷ xs) f h = (f x h.0, All-map P Q xs f h.1)

  pub Member-filter :
      (p : A → Bool) (a : A) (xs : List A) → Member a (filter p xs) ↔ (Member a xs × (p a ≡ true))
  Member-filter p a [] = (λ m. absurd m, λ m. absurd m.0)
  Member-filter p a (x ∷ xs) = elim (Bool-cases (p x)) [
    | inl h ↦ rw h (
      λ m. elim m [
        | inl e ↦ (inl e, ap p e ∙ h)
        | inr n ↦ let (l, k) = (Member-filter p a xs).0 n in (inr l, k)
      ],
      λ m. elim m.0 [ inl e ↦ inl e | inr n ↦ inr ((Member-filter p a xs).1 (n, m.1)) ],
    )
    | inr h ↦ rw h (
      λ m. let (l, k) = (Member-filter p a xs).0 m in (inr l, k),
      λ m. elim m.0 [
        | inl e ↦ absurd (cc (ap p e, h, m.1))
        | inr n ↦ (Member-filter p a xs).1 (n, m.1)
      ],
    )
  ]

  pub take-nil : (n : ℕ) → take {A = A} n [] ≡ []
  take-nil zero = refl
  take-nil (suc n) = refl

  pub take-add : (n m : ℕ) (xs : List A) → take n xs ++ take m (drop n xs) ≡ take (n + m) xs
  take-add zero m xs = let e : m ≡ 0 + m = omega arith in ap (λ k. take k xs) e
  take-add (suc n) m [] = take-nil m ∙ sym (take-nil (suc n + m))
  take-add (suc n) m (x ∷ xs) =
      let e : suc (n + m) ≡ suc n + m = omega arith in
      ap (◌∷◌ x) (take-add n m xs) ∙ ap (λ k. take k (x ∷ xs)) e

  pub take-all : (n : ℕ) (xs : List A) → length xs ≤ n → take n xs ≡ xs
  take-all n [] h = take-nil n
  take-all zero (x ∷ xs) h = absurd (omega arith)
  take-all (suc n) (x ∷ xs) h = ap (◌∷◌ x) (take-all n xs (omega arith))

  pub length-map : {B : Type 0} (f : A → B) (xs : List A) → length (map f xs) ≡ length xs
  length-map f [] = refl
  length-map f (x ∷ xs) = omega (arith, length-map f xs)

  pub take-map :
      {B : Type 0} (f : A → B) (n m : ℕ) (xs : List A)
      → map f (take m (drop n xs)) ≡ take m (drop n (map f xs))
  take-map f zero zero xs = refl
  take-map f zero (suc m) [] = refl
  take-map f zero (suc m) (x ∷ xs) = ap (◌∷◌ (f x)) (take-map f zero m xs)
  take-map f (suc n) zero [] = refl
  take-map f (suc n) (suc m) [] = refl
  take-map f (suc n) m (x ∷ xs) = take-map f n m xs

module _ {A : Type 0} (P : A → Type 0) where
  pub All-take : (n : ℕ) (xs : List A) → All P xs → All P (take n xs)
  All-take zero xs h = tt
  All-take (suc n) [] h = tt
  All-take (suc n) (x ∷ xs) h = (h.0, All-take n xs h.1)

  pub All-drop : (n : ℕ) (xs : List A) → All P xs → All P (drop n xs)
  All-drop zero xs h = h
  All-drop (suc n) [] h = tt
  All-drop (suc n) (x ∷ xs) h = All-drop n xs h.1

pub length-take : {A : Type 0} (n : ℕ) (xs : List A) → length (take n xs) ≤ n
length-take zero xs = omega arith
length-take (suc n) [] = omega arith
length-take (suc n) (x ∷ xs) = omega (arith, length-take n xs)
