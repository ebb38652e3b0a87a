-- ===== src/Memory/Distinct.antt =====
-- Which entries `dedup_in_place` keeps.
use perry_hermes.Prelude.{
  ◌≡◌, refl, sym, ap, ◌∙◌, inl, inr, true, not, List, [], ◌∷◌, Text, text_eq, text_eq_iff, any,
  filter, Bool-cases,
}
use perry_hermes.Memory.Entries.{dedup_from, dedup_in_place}

-- Every text at its first place only: what follows an entry is without that entry.
abbrev pub distinct : List Text → List Text
distinct [] = []
distinct (e ∷ es) = e ∷ filter (λ x. not (text_eq x e)) (distinct es)

abbrev unseen : List Text → List Text → List Text
unseen seen es = filter (λ x. not (any (text_eq x) seen)) es

-- Dropping a text that is dropped anyway changes nothing.
unseen-seen :
    (e : Text) (seen xs : List Text)
    → any (text_eq e) seen ≡ true
    → unseen seen (filter (λ x. not (text_eq x e)) xs) ≡ unseen seen xs
unseen-seen e seen [] h = refl
unseen-seen e seen (x ∷ xs) h = elim (Bool-cases (text_eq x e)) [
  | inl k ↦
      let gone : any (text_eq x) seen ≡ true =
        ap (λ z. any (text_eq z) seen) ((text_eq_iff x e).0 k) ∙ h in
      rw (k, gone) (unseen-seen e seen xs h)
  | inr k ↦ elim (Bool-cases (any (text_eq x) seen)) [
    | inl g ↦ rw (k, g) (unseen-seen e seen xs h)
    | inr g ↦ rw (k, g) (ap (◌∷◌ x) (unseen-seen e seen xs h))
  ]
]

unseen-cons :
    (e : Text) (seen xs : List Text)
    → unseen seen (filter (λ x. not (text_eq x e)) xs) ≡ unseen (e ∷ seen) xs
unseen-cons e seen [] = refl
unseen-cons e seen (x ∷ xs) = elim (Bool-cases (text_eq x e)) [
  | inl k ↦ rw k (unseen-cons e seen xs)
  | inr k ↦ elim (Bool-cases (any (text_eq x) seen)) [
    | inl g ↦ rw (k, g) (unseen-cons e seen xs)
    | inr g ↦ rw (k, g) (ap (◌∷◌ x) (unseen-cons e seen xs))
  ]
]

dedup_from-distinct : (seen es : List Text) → dedup_from seen es ≡ unseen seen (distinct es)
dedup_from-distinct seen [] = refl
dedup_from-distinct seen (e ∷ es) = elim (Bool-cases (any (text_eq e) seen)) [
  | inl k ↦
      rw (k, dedup_from) (dedup_from-distinct seen es ∙ sym (unseen-seen e seen (distinct es) k))
  | inr k ↦
      rw (k, dedup_from)
        (ap (◌∷◌ e) (dedup_from-distinct (e ∷ seen) es ∙ sym (unseen-cons e seen (distinct es))))
]

unseen-nil : (xs : List Text) → unseen [] xs ≡ xs
unseen-nil [] = refl
unseen-nil (x ∷ xs) = ap (◌∷◌ x) (unseen-nil xs)

pub dedup_in_place-distinct : (es : List Text) → dedup_in_place es ≡ distinct es
unfolding dedup_in_place
dedup_in_place-distinct es = dedup_from-distinct [] es ∙ unseen-nil (distinct es)
