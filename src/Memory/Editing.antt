-- ===== src/Memory/Editing.antt =====
-- What `replace` and `remove` do to the entries of a memory file.
use perry_hermes.Prelude.{
  ℕ, zero, suc, ◌+◌, ◌++◌, ◌∙◌, refl, true, false, length, arith, ◌≡◌, sym, ap, inl, inr, List, [],
  ◌∷◌, Text, codes, is_empty, trim, All, Result, ok, err, Bool-cases,
}
use mathlib.Core.Path.{subst}
use perry_hermes.Memory.Entries.{contains, dedup_in_place}
use perry_hermes.Memory.Distinct.{distinct, dedup_in_place-distinct}
use perry_hermes.Memory.RoundTrip.{IsStorable}
use perry_hermes.Memory.Matching.{only_match, pick-dedup_in_place}
use perry_hermes.Memory.Adding.{store_entries-reads}
use perry_hermes.Memory.Store.{
  TextFiles, LiveState, MemoryTarget, MemoryError, MemoryOpResult, set_entries, matches_from, pick,
  set_at, remove_at, read_file, edit_at, replace, remove,
}

set_at-All :
    (i : ℕ) (e : Text) (es : List Text)
    → IsStorable e
    → All IsStorable es
    → All IsStorable (set_at i e es)
set_at-All i e [] s a = tt
set_at-All zero e (f ∷ es) s a = (s, a.1)
set_at-All (suc i) e (f ∷ es) s a = (a.0, set_at-All i e es s a.1)

remove_at-All : (i : ℕ) (es : List Text) → All IsStorable es → All IsStorable (remove_at i es)
remove_at-All i [] a = tt
remove_at-All zero (f ∷ es) a = a.1
remove_at-All (suc i) (f ∷ es) a = (a.0, remove_at-All i es a.1)

only_match-ok :
    (old : Text) (ms : List (ℕ × Text)) (i : ℕ)
    → only_match old ms ≡ ok i
    → (e : Text) × (ms ≡ (i, e) ∷ [])
only_match-ok old [] i h = absurd (cc)
only_match-ok old (m ∷ []) i h = let k : m.0 ≡ i = cc in (m.1, ap (λ j. (j, m.1) ∷ []) k)
only_match-ok old (m ∷ n ∷ ms) i h = absurd (cc)

no_matches :
    (i : ℕ) (old : Text) (es : List Text)
    → matches_from i old es ≡ []
    → All (λ x. contains old x ≡ false) es
unfolding matches_from
no_matches i old [] h = tt
no_matches i old (x ∷ es) h = elim (Bool-cases (contains old x)) [
  | inl k ↦ absurd (cc (rw (k, matches_from) at h))
  | inr k ↦ (k, no_matches (suc i) old es (rw (k, matches_from) at h))
]

-- The list has an entry that contains the text, at a place, and no other entry contains it.
abbrev pub OnlyAt : Text → List Text → List Text → Text → List Text → Type 0
OnlyAt old es before e later =
    (es ≡ before ++ e ∷ later)
    × (contains old e ≡ true)
    × All (λ x. contains old x ≡ false) (before ++ later)

only_place :
    (i j : ℕ) (old e : Text) (es : List Text)
    → matches_from i old es ≡ (j, e) ∷ []
    → (before : List Text) × (later : List Text) × OnlyAt old es before e later
      × (j ≡ i + length before)
unfolding matches_from
only_place i j old e [] h = absurd (cc)
only_place i j old e (x ∷ es) h = elim (Bool-cases (contains old x)) [
  | inl k ↦
      let found : (i, x) ∷ matches_from (suc i) old es ≡ (j, e) ∷ [] = rw (k, matches_from) at h in
      let here : x ≡ e = cc in
      let place : i ≡ j = cc in
      let no_more : matches_from (suc i) old es ≡ [] = cc in
      (
        [],
        es,
        (
          ap (λ z. z ∷ es) here,
          ap (contains old) (sym here) ∙ k,
          no_matches (suc i) old es no_more,
        ),
        omega (arith, place),
      )
  | inr k ↦
      let (before, later, (split, found, others), place) =
        only_place (suc i) j old e es (rw (k, matches_from) at h) in
      (x ∷ before, later, (ap (◌∷◌ x) split, found, (k, others)), omega (arith, place))
]

set_at-middle :
    (new e : Text) (before later : List Text)
    → set_at (length before) new (before ++ e ∷ later) ≡ before ++ new ∷ later
set_at-middle new e [] later = refl
set_at-middle new e (x ∷ before) later = ap (◌∷◌ x) (set_at-middle new e before later)

remove_at-middle :
    (e : Text) (before later : List Text)
    → remove_at (length before) (before ++ e ∷ later) ≡ before ++ later
remove_at-middle e [] later = refl
remove_at-middle e (x ∷ before) later = ap (◌∷◌ x) (remove_at-middle e before later)

module _ (F : TextFiles) (dir : Text) where
  open F use {Fs}

  -- The edit of a file whose entries were `es`: exactly one of them contains `old`, and the file and
  -- the live entries have `put` in its place.
  abbrev pub Edited :
      MemoryTarget → Text → List Text → List Text → LiveState → LiveState × Fs → Type 0
  Edited target old put es live after =
      (before : List Text) × (e : Text) × (later : List Text) × OnlyAt old es before e later
      × (read_file F dir target after.1 ≡ before ++ (put ++ later))
      × (after.0 ≡ set_entries target (before ++ (put ++ later)) live)

  edit_at-Edited :
      (target : MemoryTarget) (edit : ℕ → List Text) (message old : Text) (put es : List Text)
      (live : LiveState) (fs : Fs) (r : MemoryOpResult) (p : Result ℕ MemoryError)
      → ((i : ℕ) → All IsStorable (edit i))
      → ((before : List Text) (e : Text) (later : List Text)
          → es ≡ before ++ e ∷ later
          → edit (length before) ≡ before ++ (put ++ later))
      → p ≡ only_match old (matches_from 0 old es)
      → (edit_at F dir target edit message live fs p).0 ≡ ok r
      → Edited target old put es live (edit_at F dir target edit message live fs p).1
  unfolding edit_at
  edit_at-Edited target edit message old put es live fs r (err x) a m k h = absurd (cc)
  edit_at-Edited target edit message old put es live fs r (ok i) a m k h =
      let (e, one) = only_match-ok old (matches_from 0 old es) i (sym k) in
      let (before, later, only, place) = only_place 0 i old e es one in
      let (back, same, shown) =
        store_entries-reads F dir target (edit i) message live fs r (a i) h in
      let at : i ≡ length before = omega (arith, place) in
      let edited : edit i ≡ before ++ (put ++ later) = ap edit at ∙ m before e later only.0 in
      (before, e, later, only, back ∙ edited, same ∙ ap (λ l. set_entries target l live) edited)

  replace_dedup :
      (target : MemoryTarget) (old new : Text) (live : LiveState) (fs : Fs) (r : MemoryOpResult)
      → All IsStorable (dedup_in_place (read_file F dir target fs))
      → IsStorable (trim new)
      → (replace F dir target old new live fs).0 ≡ ok r
      → Edited target
          (trim old)
          (trim new ∷ [])
          (dedup_in_place (read_file F dir target fs))
          live
          (replace F dir target old new live fs).1
  unfolding replace
  replace_dedup target old new live fs r a s h =
      let es = dedup_in_place (read_file F dir target fs) in
      let edited =
        edit_at-Edited target (λ i. set_at i (trim new) es) (codes "Entry replaced.") (trim old)
          (trim new ∷ []) es live fs r (pick (trim old) (matches_from 0 (trim old) es))
          (λ i. set_at-All i (trim new) es s a)
          (λ before e later split. rw split (set_at-middle (trim new) e before later))
          (pick-dedup_in_place (trim old) (read_file F dir target fs)) in
      elim (Bool-cases (is_empty (trim old))) [
        | inl blank ↦ absurd (cc (rw (blank, replace) at h))
        | inr full ↦
            rw (full, replace)
              (rw (s.not_blank) (edited (rw s.not_blank at rw (full, replace) at h)))
      ]

  remove_dedup :
      (target : MemoryTarget) (old : Text) (live : LiveState) (fs : Fs) (r : MemoryOpResult)
      → All IsStorable (dedup_in_place (read_file F dir target fs))
      → (remove F dir target old live fs).0 ≡ ok r
      → Edited target
          (trim old)
          []
          (dedup_in_place (read_file F dir target fs))
          live
          (remove F dir target old live fs).1
  unfolding remove
  remove_dedup target old live fs r a h =
      let es = dedup_in_place (read_file F dir target fs) in
      let edited =
        edit_at-Edited target (λ i. remove_at i es) (codes "Entry removed.") (trim old) [] es live
          fs r (pick (trim old) (matches_from 0 (trim old) es)) (λ i. remove_at-All i es a)
          (λ before e later split. rw split (remove_at-middle e before later))
          (pick-dedup_in_place (trim old) (read_file F dir target fs)) in
      elim (Bool-cases (is_empty (trim old))) [
        | inl blank ↦ absurd (cc (rw (blank, remove) at h))
        | inr full ↦ rw (full, remove) (edited (rw (full, remove) at h))
      ]

  -- A replacement succeeds only if exactly one of the distinct entries of the file (each at its
  -- first place) contains the trimmed old text. The file then reads back with the trimmed new text
  -- at the place of that entry and the others as they were, as long as the entries and the new text
  -- are storable; the live entries are the same.
  pub replace-reads :
      (target : MemoryTarget) (old new : Text) (live : LiveState) (fs : Fs) (r : MemoryOpResult)
      → All IsStorable (distinct (read_file F dir target fs))
      → IsStorable (trim new)
      → (replace F dir target old new live fs).0 ≡ ok r
      → Edited target
          (trim old)
          (trim new ∷ [])
          (distinct (read_file F dir target fs))
          live
          (replace F dir target old new live fs).1
  replace-reads target old new live fs r a s h =
      let same = dedup_in_place-distinct (read_file F dir target fs) in
      subst
        (λ es.
          Edited target (trim old) (trim new ∷ []) es live (replace F dir target old new live fs).1)
        same (replace_dedup target old new live fs r (subst (All IsStorable) (sym same) a) s h)

  -- A removal succeeds only if exactly one of the distinct entries of the file (each at its first
  -- place) contains the trimmed text. The file then reads back without that entry, all others kept
  -- in order, as long as the entries are storable; the live entries are the same.
  pub remove-reads :
      (target : MemoryTarget) (old : Text) (live : LiveState) (fs : Fs) (r : MemoryOpResult)
      → All IsStorable (distinct (read_file F dir target fs))
      → (remove F dir target old live fs).0 ≡ ok r
      → Edited target
          (trim old)
          []
          (distinct (read_file F dir target fs))
          live
          (remove F dir target old live fs).1
  remove-reads target old live fs r a h =
      let same = dedup_in_place-distinct (read_file F dir target fs) in
      subst (λ es. Edited target (trim old) [] es live (remove F dir target old live fs).1) same
        (remove_dedup target old live fs r (subst (All IsStorable) (sym same) a) h)
