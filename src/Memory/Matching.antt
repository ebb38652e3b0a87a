-- ===== src/Memory/Matching.antt =====
-- Which entry `replace` and `remove` work at.
use perry_hermes.Prelude.{
  ℕ, suc, ◌≡◌, refl, sym, ap, inl, inr, true, false, List, [], ◌∷◌, Text, text_eq, text_eq_iff,
  text_eq_refl, any, arith, Result, ok, err, Bool-cases,
}
use perry_hermes.Memory.Entries.{contains, dedup_from, dedup_in_place}
use perry_hermes.Memory.Store.{MemoryError, no_match, ambiguous_match, matches_from, pick}

-- No entry twice.
abbrev pub IsDistinct : List Text → Type 0
IsDistinct [] = Unit
IsDistinct (e ∷ es) = (any (text_eq e) es ≡ false) × IsDistinct es

pub unequal_sym : (s t : Text) → text_eq s t ≡ false → text_eq t s ≡ false
unequal_sym s t h = elim (Bool-cases (text_eq t s)) [
  | inl k ↦ absurd (cc ((text_eq_iff s t).1 (sym ((text_eq_iff t s).0 k))))
  | inr k ↦ k
]

-- a seen text differs from one that is not seen
seen_apart :
    (x y : Text) (seen : List Text)
    → any (text_eq x) seen ≡ true
    → any (text_eq y) seen ≡ false
    → text_eq x y ≡ false
seen_apart x y seen h k = elim (Bool-cases (text_eq x y)) [
  | inl e ↦ absurd (cc (h, k, ap (λ z. any (text_eq z) seen) ((text_eq_iff x y).0 e)))
  | inr e ↦ e
]

dedup-unseen :
    (x : Text) (seen es : List Text)
    → any (text_eq x) seen ≡ true
    → any (text_eq x) (dedup_from seen es) ≡ false
dedup-unseen x seen [] h = refl
dedup-unseen x seen (y ∷ es) h = elim (Bool-cases (any (text_eq y) seen)) [
  | inl k ↦ rw (k, dedup_from) (dedup-unseen x seen es h)
  | inr k ↦
      let apart = seen_apart x y seen h k in
      rw (k, dedup_from) (rw apart (dedup-unseen x (y ∷ seen) es (rw apart h)))
]

dedup_from-IsDistinct : (seen es : List Text) → IsDistinct (dedup_from seen es)
dedup_from-IsDistinct seen [] = tt
dedup_from-IsDistinct seen (e ∷ es) = elim (Bool-cases (any (text_eq e) seen)) [
  | inl k ↦ rw (k, dedup_from) (dedup_from-IsDistinct seen es)
  | inr k ↦
      rw (k, dedup_from)
        (
          dedup-unseen e (e ∷ seen) es (rw (text_eq_refl e) refl),
          dedup_from-IsDistinct (e ∷ seen) es,
        )
]

pub dedup_in_place-IsDistinct : (es : List Text) → IsDistinct (dedup_in_place es)
unfolding dedup_in_place
dedup_in_place-IsDistinct es = dedup_from-IsDistinct [] es

matches-absent :
    (x old : Text) (i : ℕ) (es : List Text)
    → any (text_eq x) es ≡ false
    → any (λ m. text_eq x m.1) (matches_from i old es) ≡ false
unfolding matches_from
matches-absent x old i [] h = refl
matches-absent x old i (e ∷ es) h = ground (arith, matches-absent x old (suc i) es)

-- The only match, or else an error that says whether there is none or more than one.
abbrev pub only_match : Text → List (ℕ × Text) → Result ℕ MemoryError
only_match old [] = err (no_match old)
only_match old (m ∷ []) = ok m.0
only_match old (m ∷ n ∷ ms) = err (ambiguous_match old)

pick_first :
    (old : Text) (m : ℕ × Text) (ms : List (ℕ × Text))
    → any (λ x. text_eq m.1 x.1) ms ≡ false
    → pick old (m ∷ ms) ≡ only_match old (m ∷ ms)
unfolding pick
pick_first old m [] h = refl
pick_first old m (n ∷ ms) h = elim (Bool-cases (text_eq m.1 n.1)) [
  | inl k ↦ absurd (cc (rw k at h))
  | inr k ↦ rw (unequal_sym m.1 n.1 k, pick) refl
]

pick-IsDistinct :
    (old : Text) (i : ℕ) (es : List Text)
    → IsDistinct es
    → pick old (matches_from i old es) ≡ only_match old (matches_from i old es)
unfolding pick matches_from
pick-IsDistinct old i [] d = refl
pick-IsDistinct old i (e ∷ es) d = elim (Bool-cases (contains old e)) [
  | inl k ↦
      rw (k, matches_from)
        (pick_first old (i, e) (matches_from (suc i) old es) (matches-absent e old (suc i) es d.0))
  | inr k ↦ rw (k, matches_from) (pick-IsDistinct old (suc i) es d.1)
]

-- After the duplicates are dropped, `replace` and `remove` find an entry exactly if one and only
-- one contains the text; several matches are always an ambiguity, never equal to one another.
pub pick-dedup_in_place :
    (old : Text) (es : List Text)
    → pick old (matches_from 0 old (dedup_in_place es))
      ≡ only_match old (matches_from 0 old (dedup_in_place es))
pick-dedup_in_place old es =
    pick-IsDistinct old 0 (dedup_in_place es) (dedup_in_place-IsDistinct es)
