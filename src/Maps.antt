-- ===== src/Maps.antt =====
-- A map with texts for keys, as an association list: `HashMap`.
use mathlib.Core.Path.{subst}
use perry_hermes.Prelude.{
  ◌≡◌, refl, ap, inl, inr, Bool, List, [], ◌∷◌, Option, none, some, if◌then◌else◌, Bool-cases, Text,
  text_eq, text_eq_refl,
}

module _ {A : Type 0} where
  -- `HashMap::get`
  unfoldable pub get : Text → List (Text × A) → Option A
  get key [] = none
  get key (e ∷ es) = let rest = get key es in if text_eq e.0 key then some e.1 else rest

  -- `HashMap::insert`
  unfoldable pub put : Text → A → List (Text × A) → List (Text × A)
  put key x [] = (key, x) ∷ []
  put key x (e ∷ es) =
      let rest = put key x es in if text_eq e.0 key then (key, x) ∷ es else e ∷ rest

  -- `HashMap::remove`
  unfoldable pub remove : Text → List (Text × A) → List (Text × A)
  remove key [] = []
  remove key (e ∷ es) = let rest = remove key es in if text_eq e.0 key then es else e ∷ rest

  -- `HashMap::retain`
  unfoldable pub retain : (A → Bool) → List (Text × A) → List (Text × A)
  retain keep [] = []
  retain keep (e ∷ es) = let rest = retain keep es in if keep e.1 then e ∷ rest else rest

  -- All values of a map have a property.
  abbrev pub AllValues : (A → Type 0) → List (Text × A) → Type 0
  AllValues P [] = Unit
  AllValues P (e ∷ es) = P e.1 × AllValues P es

  pub get-put : (key : Text) (x : A) (es : List (Text × A)) → get key (put key x es) ≡ some x
  unfolding get put
  get-put key x [] = rw (text_eq_refl key, get) refl
  get-put key x (e ∷ es) = elim (Bool-cases (text_eq e.0 key)) [
    | inl h ↦ rw (h, put) (rw (text_eq_refl key, get) refl)
    | inr h ↦ rw (h, put) (rw (h, get) (get-put key x es))
  ]

  pub put-put :
      (key : Text) (x y : A) (es : List (Text × A)) → put key y (put key x es) ≡ put key y es
  unfolding put
  put-put key x y [] = rw (text_eq_refl key, put) refl
  put-put key x y (e ∷ es) = elim (Bool-cases (text_eq e.0 key)) [
    | inl h ↦ rw (h, put) (rw (text_eq_refl key, put) refl)
    | inr h ↦ rw (h, put) (rw (h, put) (ap (◌∷◌ e) (put-put key x y es)))
  ]

  pub remove-put :
      (key : Text) (x : A) (es : List (Text × A)) → remove key (put key x es) ≡ remove key es
  unfolding put remove
  remove-put key x [] = rw (text_eq_refl key, remove) refl
  remove-put key x (e ∷ es) = elim (Bool-cases (text_eq e.0 key)) [
    | inl h ↦ rw (h, put) (rw (text_eq_refl key, remove) refl)
    | inr h ↦ rw (h, put) (rw (h, remove) (ap (◌∷◌ e) (remove-put key x es)))
  ]

  pub remove-absent : (key : Text) (es : List (Text × A)) → get key es ≡ none → remove key es ≡ es
  unfolding get remove
  remove-absent key [] h = refl
  remove-absent key (e ∷ es) h = elim (Bool-cases (text_eq e.0 key)) [
    | inl k ↦ absurd (cc (rw (k, get) at h))
    | inr k ↦ rw (k, remove) (ap (◌∷◌ e) (remove-absent key es (rw (k, get) at h)))
  ]

  pub get-AllValues :
      (P : A → Type 0) (key : Text) (x : A) (es : List (Text × A))
      → AllValues P es
      → get key es ≡ some x
      → P x
  unfolding get
  get-AllValues P key x [] a h = absurd (cc)
  get-AllValues P key x (e ∷ es) a h = elim (Bool-cases (text_eq e.0 key)) [
    | inl k ↦
        let same : some e.1 ≡ some x = rw (k, get) at h in let eq : e.1 ≡ x = cc in subst P eq a.0
    | inr k ↦ get-AllValues P key x es a.1 (rw (k, get) at h)
  ]

  pub put-AllValues :
      (P : A → Type 0) (key : Text) (x : A) (es : List (Text × A))
      → P x
      → AllValues P es
      → AllValues P (put key x es)
  unfolding put
  put-AllValues P key x [] p a = (p, tt)
  put-AllValues P key x (e ∷ es) p a = elim (Bool-cases (text_eq e.0 key)) [
    | inl k ↦ rw (k, put) (p, a.1)
    | inr k ↦ rw (k, put) (a.0, put-AllValues P key x es p a.1)
  ]

  pub remove-AllValues :
      (P : A → Type 0) (key : Text) (es : List (Text × A))
      → AllValues P es
      → AllValues P (remove key es)
  unfolding remove
  remove-AllValues P key [] a = tt
  remove-AllValues P key (e ∷ es) a = elim (Bool-cases (text_eq e.0 key)) [
    | inl k ↦ rw (k, remove) a.1
    | inr k ↦ rw (k, remove) (a.0, remove-AllValues P key es a.1)
  ]

  pub retain-AllValues :
      (P : A → Type 0) (keep : A → Bool) (es : List (Text × A))
      → AllValues P es
      → AllValues P (retain keep es)
  unfolding retain
  retain-AllValues P keep [] a = tt
  retain-AllValues P keep (e ∷ es) a = elim (Bool-cases (keep e.1)) [
    | inl k ↦ rw (k, retain) (a.0, retain-AllValues P keep es a.1)
    | inr k ↦ rw (k, retain) (retain-AllValues P keep es a.1)
  ]
