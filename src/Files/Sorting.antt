-- ===== src/Files/Sorting.antt =====
-- The sorting and the pages of the lists in crates/hermes-skill-tools/src/tools/files/search.rs.
use perry_hermes.Prelude.{
  refl, length, length-append, suc, arith, Member, Member-left, Member-right, Member-split, All-map,
  take-add, ℕ, zero, suc, ◌+◌, ◌*◌, ◌≡◌, ap, ◌∙◌, ◌↔◌, ◌⊎◌, inl, inr, Bool, true, false, List, [],
  ◌∷◌, ◌++◌, All, All-append, Bool-cases, take, drop, arith,
}
use perry_hermes.Files.Names.{insert_sorted, sort_by, reverse}

module _ {A : Type 0} where
  All-reverse : (P : A → Type 0) (xs : List A) → All P xs → All P (reverse xs)
  All-reverse P [] h = tt
  All-reverse P (x ∷ xs) h = All-append P (reverse xs) (x ∷ []) (All-reverse P xs h.1) (h.0, tt)

  Member-reverse : (a : A) (xs : List A) → Member a (reverse xs) ↔ Member a xs
  Member-reverse a [] = (λ m. m, λ m. m)
  Member-reverse a (x ∷ xs) = (
    λ m. elim (Member-split a (reverse xs) (x ∷ []) m) [
      | inl l ↦ inr ((Member-reverse a xs).0 l)
      | inr r ↦ elim r [ inl e ↦ inl e | inr n ↦ absurd n ]
    ],
    λ m. elim m [
      | inl e ↦ Member-right a (reverse xs) (x ∷ []) (inl e)
      | inr n ↦ Member-left a (reverse xs) (x ∷ []) ((Member-reverse a xs).1 n)
    ],
  )

  -- The first `k` pages of a list.
  abbrev pub pages : (ℕ → List A) → ℕ → ℕ → List A
  pages page limit zero = []
  pages page limit (suc k) = pages page limit k ++ page (k * limit)

  pub pages-take :
      (xs : List A) (limit k : ℕ)
      → pages (λ offset. take limit (drop offset xs)) limit k ≡ take (k * limit) xs
  pages-take xs limit zero = let e : 0 ≡ 0 * limit = omega arith in ap (λ k. take k xs) e
  pages-take xs limit (suc k) =
      let e : k * limit + limit ≡ suc k * limit = omega arith in
      ap (λ z. z ++ take limit (drop (k * limit) xs)) (pages-take xs limit k)
      ∙ (take-add (k * limit) limit xs ∙ ap (λ k. take k xs) e)

module _ {A : Type 0} (le : A → A → Bool) where
  abbrev Sorted : List A → Type 0
  Sorted [] = Unit
  Sorted (x ∷ xs) = All (λ y. le x y ≡ true) xs × Sorted xs

  abbrev pub Descending : List A → Type 0
  Descending [] = Unit
  Descending (x ∷ xs) = All (λ y. le y x ≡ true) xs × Descending xs

  Descending-append :
      (xs : List A) (x : A)
      → Descending xs
      → All (λ y. le x y ≡ true) xs
      → Descending (xs ++ (x ∷ []))
  Descending-append [] x h k = (tt, tt)
  Descending-append (y ∷ xs) x h k =
      (All-append (λ z. le z y ≡ true) xs (x ∷ []) h.0 (k.0, tt), Descending-append xs x h.1 k.1)

  reverse-Descending : (xs : List A) → Sorted xs → Descending (reverse xs)
  reverse-Descending [] h = tt
  reverse-Descending (x ∷ xs) h =
      Descending-append (reverse xs) x (reverse-Descending xs h.1) (All-reverse _ xs h.0)

  insert_sorted-All :
      (P : A → Type 0) (x : A) (xs : List A) → P x → All P xs → All P (insert_sorted le x xs)
  insert_sorted-All P x [] h k = (h, tt)
  insert_sorted-All P x (y ∷ ys) h k = elim (Bool-cases (le x y)) [
    | inl e ↦ rw e (h, k)
    | inr e ↦ rw e (k.0, insert_sorted-All P x ys h k.1)
  ]

  Member-insert_sorted :
      (a x : A) (xs : List A) → Member a (insert_sorted le x xs) ↔ ((a ≡ x) ⊎ Member a xs)
  Member-insert_sorted a x [] = (λ m. m, λ m. m)
  Member-insert_sorted a x (y ∷ ys) = elim (Bool-cases (le x y)) [
    | inl e ↦ rw e (λ m. m, λ m. m)
    | inr e ↦
        let (f, g) = Member-insert_sorted a x ys in
        rw e (
          λ m. elim m [
            | inl p ↦ inr (inl p)
            | inr n ↦ elim (f n) [ inl p ↦ inl p | inr q ↦ inr (inr q) ]
          ],
          λ m. elim m [
            | inl p ↦ inr (g (inl p))
            | inr n ↦ elim n [ inl p ↦ inl p | inr q ↦ inr (g (inr q)) ]
          ],
        )
  ]

  pub Member-sort_by : (a : A) (xs : List A) → Member a (reverse (sort_by le xs)) ↔ Member a xs
  Member-sort_by a xs =
      let (f, g) = Member-reverse a (sort_by le xs) in
      let (h, k) = go xs in (λ m. h (f m), λ m. g (k m))
    where
      go : (ys : List A) → Member a (sort_by le ys) ↔ Member a ys
      go [] = (λ m. m, λ m. m)
      go (y ∷ ys) =
          let (f, g) = Member-insert_sorted a y (sort_by le ys) in
          let (h, k) = go ys in
          (
            λ m. elim (f m) [ inl e ↦ inl e | inr n ↦ inr (h n) ],
            λ m. elim m [ inl e ↦ g (inl e) | inr n ↦ g (inr (k n)) ],
          )

  length-insert_sorted : (x : A) (xs : List A) → length (insert_sorted le x xs) ≡ suc (length xs)
  length-insert_sorted x [] = refl
  length-insert_sorted x (y ∷ ys) = elim (Bool-cases (le x y)) [
    | inl e ↦ rw e refl
    | inr e ↦ rw e (ap suc (length-insert_sorted x ys))
  ]

  length-reverse : (xs : List A) → length (reverse xs) ≡ length xs
  length-reverse [] = refl
  length-reverse (x ∷ xs) = omega (arith, length-append (reverse xs) (x ∷ []), length-reverse xs)

  pub length-sort_by : (xs : List A) → length (reverse (sort_by le xs)) ≡ length xs
  length-sort_by xs = length-reverse (sort_by le xs) ∙ go xs
    where
      go : (ys : List A) → length (sort_by le ys) ≡ length ys
      go [] = refl
      go (y ∷ ys) = length-insert_sorted y (sort_by le ys) ∙ ap suc (go ys)

  module _ (total : (x y : A) → le x y ≡ false → le y x ≡ true)
      (trans : (x y z : A) → le x y ≡ true → le y z ≡ true → le x z ≡ true) where
    insert_sorted-Sorted : (x : A) (xs : List A) → Sorted xs → Sorted (insert_sorted le x xs)
    insert_sorted-Sorted x [] h = (tt, tt)
    insert_sorted-Sorted x (y ∷ ys) h = elim (Bool-cases (le x y)) [
      | inl e ↦ rw e ((e, All-map _ _ ys (λ z k. trans x y z e k) h.0), h)
      | inr e ↦ rw e (
        insert_sorted-All (λ z. le y z ≡ true) x ys (total x y e) h.0,
        insert_sorted-Sorted x ys h.1,
      )
    ]

    sort_by-Sorted : (xs : List A) → Sorted (sort_by le xs)
    sort_by-Sorted [] = tt
    sort_by-Sorted (x ∷ xs) = insert_sorted-Sorted x (sort_by le xs) (sort_by-Sorted xs)

    pub sort_by-Descending : (xs : List A) → Descending (reverse (sort_by le xs))
    sort_by-Descending xs = reverse-Descending (sort_by le xs) (sort_by-Sorted xs)
