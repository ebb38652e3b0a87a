-- ===== src/Patch/Applying.antt =====
-- What the hunks of an update do to a whole file.
use perry_hermes.Prelude.{
  ℕ, zero, suc, ◌≡◌, sym, ap, ◌∙◌, inl, inr, false, Option, none, some, List, [], ◌∷◌, ◌++◌, Text,
  is_empty, length, Result, ok, err, Bool-cases,
}
use perry_hermes.Patch.Parse.{Hunk}
use perry_hermes.Patch.Hunks.{
  find_subsequence, count_subsequence, splice, splice_found, by_count, apply_hunk, apply_hunks,
}
use perry_hermes.Patch.Splicing.{find_subsequence-Located, splice-Located, counted_found, counted}

-- One occurrence of the lines that a hunk searches for gives way to the lines that replace them.
-- What stands before and after it stays.
abbrev pub Replaced : Hunk → List Text → List Text → Type 0
Replaced hunk ls new =
    (pre : List Text) × (post : List Text) × (is_empty hunk.search ≡ false)
    × (ls ≡ pre ++ (hunk.search ++ post))
    × (new ≡ pre ++ (hunk.replace ++ post))

-- Hunks applied one after the other, each to the lines that the last one left.
pub data Rewrites : List Hunk → List Text → List Text → Type 0 where
  none_left : (ls : List Text) → Rewrites [] ls ls
  and_then :
      (hunk : Hunk) (hunks : List Hunk) (ls mid new : List Text)
      → Replaced hunk ls mid
      → Rewrites hunks mid new
      → Rewrites (hunk ∷ hunks) ls new

-- An outcome is there, and if it is a success it stands in the relation.
abbrev pub Outcome : {A : Type 0} → (A → Type 0) → Option (Result A Text) → Type 0
Outcome P none = ⊥
Outcome P (some (err e)) = Unit
Outcome P (some (ok x)) = P x

splice_found-Outcome :
    (hunk : Hunk) (ls : List Text) (pos : ℕ)
    → is_empty hunk.search ≡ false
    → find_subsequence ls hunk.search ≡ some pos
    → Outcome (Replaced hunk ls) (splice_found hunk ls (find_subsequence ls hunk.search))
splice_found-Outcome hunk ls pos full k =
    let (pre, post, e, n) = find_subsequence-Located ls hunk.search pos full k in
    let moved : splice pos (length hunk.search) hunk.replace ls ≡ pre ++ (hunk.replace ++ post) =
      ap (λ m. splice m (length hunk.search) hunk.replace ls) (sym n)
      ∙ ap (splice (length pre) (length hunk.search) hunk.replace) e
      ∙ splice-Located pre hunk.search post hunk.replace in
    rw k (pre, post, full, e, moved)

by_count-Outcome :
    (idx : ℕ) (path : Text) (hunk : Hunk) (ls : List Text) (n : ℕ)
    → is_empty hunk.search ≡ false
    → count_subsequence ls hunk.search ≡ some n
    → Outcome (Replaced hunk ls) (by_count idx path hunk ls (some n))
unfolding by_count
by_count-Outcome idx path hunk ls zero full h = tt
by_count-Outcome idx path hunk ls (suc zero) full h =
    let (pos, k) = counted_found ls hunk.search 0 full h in splice_found-Outcome hunk ls pos full k
by_count-Outcome idx path hunk ls (suc (suc n)) full h = tt

apply_hunk-Outcome :
    (idx : ℕ) (path : Text) (hunk : Hunk) (ls : List Text)
    → Outcome (Replaced hunk ls) (apply_hunk idx path hunk ls)
unfolding apply_hunk
apply_hunk-Outcome idx path hunk ls = elim (Bool-cases (is_empty hunk.search)) [
  | inl k ↦ rw (k, apply_hunk) tt
  | inr k ↦
      let (n, c) = counted ls hunk.search k in
      rw (k, apply_hunk) (rw c (by_count-Outcome idx path hunk ls n k c))
]

extended :
    (h : Hunk) (hs : List Hunk) (ls mid : List Text)
    → Replaced h ls mid
    → (o : Option (Result (List Text) Text)) → Outcome (Rewrites hs mid) o
    → Outcome (Rewrites (h ∷ hs) ls) o
extended h hs ls mid p none q = q
extended h hs ls mid p (some (err e)) q = tt
extended h hs ls mid p (some (ok new)) q = and_then h hs ls mid new p q

-- Whatever the lines and the hunks, the loop ends with an error or with lines that the hunks
-- rewrite one after the other.
pub apply_hunks-Outcome :
    (idx : ℕ) (path : Text) (hunks : List Hunk) (ls : List Text)
    → Outcome (Rewrites hunks ls) (apply_hunks idx path hunks ls)
unfolding apply_hunks
apply_hunks-Outcome idx path [] ls = none_left ls
apply_hunks-Outcome idx path (h ∷ hs) ls =
    go (λ mid. apply_hunks-Outcome (suc idx) path hs mid) (apply_hunk idx path h ls)
      (apply_hunk-Outcome idx path h ls)
  where
    go :
        ((mid : List Text) → Outcome (Rewrites hs mid) (apply_hunks (suc idx) path hs mid))
        → (o : Option (Result (List Text) Text)) → Outcome (Replaced h ls) o
        → Outcome (Rewrites (h ∷ hs) ls) (elim o [
          | none ↦ none
          | some r ↦ elim r as (λ x. Option (Result (List Text) Text)) [
            | err e ↦ some (err e)
            | ok ls' ↦ apply_hunks (suc idx) path hs ls'
          ]
        ])
    go next none p = p
    go next (some (err e)) p = tt
    go next (some (ok mid)) p =
        extended h hs ls mid p (apply_hunks (suc idx) path hs mid) (next mid)
