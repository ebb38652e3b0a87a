-- ===== src/Files/Searching.antt =====
-- What the walk of crates/hermes-skill-tools/src/tools/files/search.rs finds.
use perry_hermes.Prelude.{
  ℕ, zero, suc, ◌+◌, ◌≤◌, ◌≡◌, refl, sym, ap, ◌∙◌, false, Option, some, List, [], ◌∷◌, ◌++◌, Text,
  length, lines, length-append, All, All-append, arith, append_assoc, Option-cases, Bool-cases, inl,
  inr, is_empty,
}
use perry_hermes.Utf8.{len}
use perry_hermes.Utf8.Offsets.{len-append}
use perry_hermes.Providers.Segments.{find_tag-some, find_tag-length}
use perry_hermes.Files.Walk.{Listing, FileAt, collect_files}
use perry_hermes.Files.Search.{
  Found, nothing_found, add_hit, hit_at, find_in_line, find_pattern, find_in_lines, find_in_files,
  is_binary, payload, content_mode_walk,
}
use perry_hermes.Files.Names.{Hit, bump}

-- The line reads the pattern at the column, a byte offset from 1 on.
abbrev pub IsHit : Text → Hit → Type 0
IsHit pattern h =
    (a : Text) × (b : Text) × (h.content ≡ a ++ (pattern ++ b)) × (h.column ≡ len a + 1)

abbrev pub sum_counts : List (Text × ℕ) → ℕ
sum_counts [] = 0
sum_counts ((k, n) ∷ m) = n + sum_counts m

-- All hits are true ones, and the counts of the files add up to their number.
abbrev pub IsCounted : Text → Found → Type 0
IsCounted pattern w =
    All (IsHit pattern) w.all_matches × (sum_counts w.per_file ≡ length w.all_matches)

bump-sum : (key : Text) (m : List (Text × ℕ)) → sum_counts (bump key m) ≡ suc (sum_counts m)
unfolding bump
bump-sum key [] = refl
bump-sum key ((k, n) ∷ m) = ground (arith, bump-sum key m)

add_hit-IsCounted :
    (pattern : Text) (h : Hit) (w : Found)
    → IsHit pattern h
    → IsCounted pattern w
    → IsCounted pattern (add_hit h w)
unfolding add_hit
add_hit-IsCounted pattern h w k (hits, sums) = (
  All-append (IsHit pattern) w.all_matches (h ∷ []) hits (k, tt),
  omega (arith, bump-sum h.path w.per_file, sums, length-append w.all_matches (h ∷ [])),
)

nonempty-length : (s : Text) → is_empty s ≡ false → 1 ≤ length s
nonempty-length [] h = absurd (cc)
nonempty-length (c ∷ s) h = omega arith

-- What is found in a line: its parts and their lengths.
find_pattern-some :
    (pattern s b a : Text)
    → find_pattern pattern s ≡ some (b, a)
    → (s ≡ b ++ (pattern ++ a)) × (length s ≡ length b + (length pattern + length a))
find_pattern-some [] s b a h =
    let e : some ([], s) ≡ some (b, a) = h in
    let eb : b ≡ [] = cc in let es : s ≡ a = cc in rw (eb, es) (refl, omega arith)
find_pattern-some (c ∷ p) s b a h =
    ((find_tag-some (c ∷ p) s b a h).0, find_tag-length (c ∷ p) s b a h)

-- A search that returns, with what it has found.
abbrev Searched : Text → Option Found → Type 0
Searched pattern r = (w : Found) × (r ≡ some w) × IsCounted pattern w

find_in_line-Searched :
    (fuel : ℕ) (pattern path : Text) (number : ℕ) (line : Text) (start : ℕ) (before rest : Text)
    (w : Found)
    → length rest + 1 ≤ fuel
    → line ≡ before ++ rest
    → start ≡ len before
    → IsCounted pattern w
    → Searched pattern (find_in_line fuel pattern path number line start rest w)
unfolding find_in_line
find_in_line-Searched zero pattern path number line start before rest w l e es h =
    absurd (omega arith)
find_in_line-Searched (suc fuel) pattern path number line start before rest w l e es h =
    elim (Option-cases (find_pattern pattern rest)) [
      | inl k ↦ rw (k, find_in_line) (w, refl, h)
      | inr ((left, right), k) ↦
          let (split, shorter) = find_pattern-some pattern rest left right k in
          let whole : line ≡ (before ++ left) ++ (pattern ++ right) =
            e ∙ (ap (λ z. before ++ z) split ∙ sym (append_assoc before left (pattern ++ right))) in
          let column : start + len left ≡ len (before ++ left) =
            omega (arith, len-append before left) in
          let hit = hit_at path number line start left in
          let true_hit : IsHit pattern hit =
            (before ++ left, right, whole, ap (λ z. z + 1) column) in
          let found = add_hit-IsCounted pattern hit w true_hit h in
          elim (Bool-cases (is_empty pattern)) [
            | inl p ↦ rw (k, p, find_in_line) (add_hit hit w, refl, found)
            | inr p ↦
                rw (k, p, find_in_line)
                  (find_in_line-Searched fuel pattern path number line
                    (start + len left + len pattern) ((before ++ left) ++ pattern) right
                    (add_hit hit w) (omega (arith, shorter, nonempty-length pattern p))
                    (whole ∙ sym (append_assoc (before ++ left) pattern right))
                    (omega (arith, column, len-append (before ++ left) pattern)) found)
          ]
    ]

find_in_lines-Searched :
    (pattern path : Text) (number : ℕ) (ls : List Text) (w : Found)
    → IsCounted pattern w
    → Searched pattern (find_in_lines pattern path number ls w)
unfolding find_in_lines
find_in_lines-Searched pattern path number [] w h = (w, refl, h)
find_in_lines-Searched pattern path number (line ∷ ls) w h =
    let (w', e, h') =
      find_in_line-Searched (suc (length line)) pattern path number line 0 [] line w (omega arith)
        refl refl h in
    rw (e, find_in_lines) (find_in_lines-Searched pattern path (number + 1) ls w' h')

find_in_files-Searched :
    (pattern : Text) (fs : List FileAt) (w : Found)
    → IsCounted pattern w
    → Searched pattern (find_in_files pattern fs w)
unfolding find_in_files
find_in_files-Searched pattern [] w h = (w, refl, h)
find_in_files-Searched pattern ((path, f) ∷ fs) w h = elim (Bool-cases (is_binary f.name)) [
  | inl b ↦ rw (b, find_in_files) (find_in_files-Searched pattern fs w h)
  | inr b ↦ elim (Option-cases f.text) [
    | inl n ↦ rw (b, n, find_in_files) (find_in_files-Searched pattern fs w h)
    | inr (raw, n) ↦
        let (w', e, h') = find_in_lines-Searched pattern path 1 (lines raw) w h in
        rw (b, n, e, find_in_files) (find_in_files-Searched pattern fs w' h')
  ]
]

-- The walk returns, every match it collects reads the pattern at its column, and the counts of the
-- files add up to the number of matches; the payload is made from these.
pub content_mode_walk-IsCounted :
    (root pattern : Text) (file_glob : Option Text) (output_mode : Text) (limit offset : ℕ)
    (es : Listing)
    → (w : Found) × (content_mode_walk root pattern file_glob output_mode limit offset es
        ≡ some (payload output_mode limit offset w))
      × IsCounted pattern w
unfolding content_mode_walk
content_mode_walk-IsCounted root pattern file_glob output_mode limit offset es =
    let (w, e, h) =
      find_in_files-Searched pattern (collect_files root file_glob es) nothing_found (tt, refl) in
    (w, rw (e, content_mode_walk) refl, h)
