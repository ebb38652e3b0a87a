-- ===== src/Patch/Lines.antt =====
-- Lines and text: what splitting a file at its line feeds and joining it again gives.
use perry_hermes.Prelude.{
  ℕ, ◌≡◌, refl, sym, ap, ◌∙◌, inl, inr, true, false, List, [], ◌∷◌, ◌++◌, Text, codes, is_empty,
  join, ◌==◌, Bool-cases, append_assoc, append-nil, ==_iff, Result, ok, err, Option, none, some,
}
use perry_hermes.Patch.Parse.{Hunk}
use perry_hermes.Patch.Hunks.{
  split_feeds, cons_piece, ends_with_feed, all_but_last, joined, join_result, lines_of, apply_hunks,
  apply_hunks_to_text,
}
use perry_hermes.Patch.Applying.{Rewrites, Outcome, apply_hunks-Outcome}

join-cons_piece :
    (c : ℕ) (ls : List Text)
    → is_empty ls ≡ false
    → join (codes "\n") (cons_piece c ls) ≡ c ∷ join (codes "\n") ls
join-cons_piece c [] h = absurd (cc)
join-cons_piece c (l ∷ []) h = refl
join-cons_piece c (l ∷ m ∷ ls) h = refl

split_feeds-not_empty : (s : Text) → is_empty (split_feeds s) ≡ false
split_feeds-not_empty [] = refl
split_feeds-not_empty (c ∷ s) = elim (Bool-cases (c == 10)) [
  | inl k ↦ rw k refl
  | inr k ↦ rw k (piece c (split_feeds s))
]
  where
    piece : (c : ℕ) (ls : List Text) → is_empty (cons_piece c ls) ≡ false
    piece c [] = refl
    piece c (l ∷ ls) = refl

join-feed :
    (ls : List Text) → is_empty ls ≡ false → join (codes "\n") ([] ∷ ls) ≡ 10 ∷ join (codes "\n") ls
join-feed [] h = absurd (cc)
join-feed (l ∷ ls) h = refl

-- Splitting at the line feeds and joining with them gives the text back.
join-split_feeds : (s : Text) → join (codes "\n") (split_feeds s) ≡ s
join-split_feeds [] = refl
join-split_feeds (c ∷ s) = elim (Bool-cases (c == 10)) [
  | inl k ↦
      let feed : c ≡ 10 = (==_iff c 10).0 k in
      rw k (
        join-feed (split_feeds s) (split_feeds-not_empty s)
        ∙ ap (◌∷◌ 10) (join-split_feeds s)
        ∙ ap (λ d. d ∷ s) (sym feed))
  | inr k ↦ rw k (
      join-cons_piece c (split_feeds s) (split_feeds-not_empty s) ∙ ap (◌∷◌ c) (join-split_feeds s))
]

-- Lines that end with an empty line are the pieces of a text that ends with a line feed.
abbrev FedPieces : List Text → Type 0
FedPieces ls = (first : Text) × (more : List Text) × (ls ≡ (first ∷ more) ++ ([] ∷ []))

split_feeds-fed : (s : Text) → ends_with_feed s ≡ true → FedPieces (split_feeds s)
split_feeds-fed [] h = absurd (cc)
split_feeds-fed (c ∷ []) h = rw h ([], [], refl)
split_feeds-fed (c ∷ d ∷ s) h =
    let (first, more, e) = split_feeds-fed (d ∷ s) h in
    elim (Bool-cases (c == 10)) [
      | inl k ↦ rw k ([], first ∷ more, ap (◌∷◌ []) e)
      | inr k ↦ rw k (rw e (c ∷ first, more, refl))
    ]

all_but_last-append :
    (first : Text) (more : List Text) → all_but_last ((first ∷ more) ++ ([] ∷ [])) ≡ first ∷ more
all_but_last-append first [] = refl
all_but_last-append first (l ∷ more) = ap (◌∷◌ first) (all_but_last-append l more)

join-append_feed :
    (first : Text) (more : List Text)
    → join (codes "\n") ((first ∷ more) ++ ([] ∷ []))
      ≡ join (codes "\n") (first ∷ more) ++ codes "\n"
join-append_feed first [] = refl
join-append_feed first (l ∷ more) =
    ap (λ t. first ++ (10 ∷ t)) (join-append_feed l more)
    ∙ sym (append_assoc first (10 ∷ join (codes "\n") (l ∷ more)) (codes "\n"))

-- Taking a text apart into lines and joining them gives the text back.
joined-lines_of : (s : Text) → joined (ends_with_feed s) (lines_of s) ≡ s
joined-lines_of s = elim (Bool-cases (ends_with_feed s)) [
  | inl k ↦
      let (first, more, e) = split_feeds-fed s k in
      rw k (
        rw e (
          rw (all_but_last-append first more) (
            sym (join-append_feed first more)
            ∙ ap (join (codes "\n")) (sym e)
            ∙ join-split_feeds s)))
  | inr k ↦ rw k (append-nil (join (codes "\n") (split_feeds s)) ∙ join-split_feeds s)
]

-- What hunks do to a text: its lines are rewritten, and it ends with a line feed just if it did.
abbrev pub TextRewritten : Text → List Hunk → Text → Type 0
TextRewritten original hunks out =
    (ls : List Text) × (new : List Text) × (original ≡ joined (ends_with_feed original) ls)
    × Rewrites hunks ls new
    × (out ≡ joined (ends_with_feed original) new)

join_result-Outcome :
    (original : Text) (hunks : List Hunk) (o : Option (Result (List Text) Text))
    → Outcome (Rewrites hunks (lines_of original)) o
    → Outcome (TextRewritten original hunks) (join_result (ends_with_feed original) o)
join_result-Outcome original hunks none p = p
join_result-Outcome original hunks (some (err e)) p = tt
join_result-Outcome original hunks (some (ok new)) p =
    (lines_of original, new, sym (joined-lines_of original), p, refl)

-- Applying hunks to any text ends, without a failed `expect`, with an error or with a text. If it
-- is a text, then the original's lines are rewritten by the hunks one after the other, each of
-- which replaces one occurrence of its non-empty search lines and leaves all other lines as they
-- are. The text ends with a line feed exactly as the original did.
pub apply_hunks_to_text-Outcome :
    (original : Text) (hunks : List Hunk) (path : Text)
    → Outcome (TextRewritten original hunks) (apply_hunks_to_text original hunks path)
unfolding apply_hunks_to_text
apply_hunks_to_text-Outcome original hunks path =
    join_result-Outcome original hunks (apply_hunks 0 path hunks (lines_of original))
      (apply_hunks-Outcome 0 path hunks (lines_of original))
