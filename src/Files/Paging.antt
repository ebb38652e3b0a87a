-- ===== src/Files/Paging.antt =====
-- The search by name of crates/hermes-skill-tools/src/tools/files/search.rs: which files, in which
-- order, and page by page.
use perry_hermes.Prelude.{
  ap, Bool-cases, inl, inr, ◌&&◌, if◌then◌else◌, filter-append, length-append, Member,
  Member-filter, take-all, take-map, length-map, ℕ, zero, suc, ◌+◌, ◌*◌, ◌^◌, ◌≤◌, ◌<◌, ◌≡◌, refl,
  ◌∙◌, ◌↔◌, Bool, true, false, Option, none, some, List, [], Text, map, take, drop, length, filter,
  arith,
}
use perry_hermes.Files.Policy.{path_join}
use perry_hermes.Files.Glob.{glob_match, Matches}
use perry_hermes.Files.Globbing.{glob_match-Matches}
use perry_hermes.Files.Walk.{
  Listing, Entry, file, directory, other, unreadable, done, entry, is_globbed, is_skipped,
  collect_entry, FileAt, Reaches, collect_files, collect_files-Reaches,
}
use perry_hermes.Files.Names.{
  Payload, files, time_le, modified_le, matched_files, files_mode, is_truncated, sort_by, reverse,
}
use perry_hermes.Files.Sorting.{
  Descending, Member-sort_by, sort_by-Descending, length-sort_by, pages, pages-take,
}

time_le_total : (a b : Option ℕ) → time_le a b ≡ false → time_le b a ≡ true
time_le_total none b h = absurd (cc)
time_le_total (some a) none h = refl
time_le_total (some a) (some b) h = ground arith

time_le_trans : (a b c : Option ℕ) → time_le a b ≡ true → time_le b c ≡ true → time_le a c ≡ true
time_le_trans none b c h k = refl
time_le_trans (some a) none c h k = absurd (cc)
time_le_trans (some a) (some b) none h k = absurd (cc)
time_le_trans (some a) (some b) (some c) h k = ground arith

abbrev named_files : Text → Text → Option Text → Listing → List FileAt
named_files root pattern file_glob es =
    filter (λ x. glob_match pattern x.1.name) (collect_files root file_glob es)

Member-named_files :
    (root pattern : Text) (file_glob : Option Text) (es : Listing) (x : FileAt)
    → Member x (reverse (sort_by modified_le (named_files root pattern file_glob es)))
      ↔ (Reaches root file_glob es x × Matches pattern x.1.name)
Member-named_files root pattern file_glob es x =
    let (f, g) = Member-sort_by modified_le x (named_files root pattern file_glob es) in
    let (h, k) =
      Member-filter (λ x. glob_match pattern x.1.name) x (collect_files root file_glob es) in
    let (r, s) = collect_files-Reaches root file_glob es x in
    let (m, n) = glob_match-Matches pattern x.1.name in
    (λ z. let (a, b) = h (f z) in (r a, m b), λ z. g (k (s z.0, n z.1)))

-- The files that a search by name lists are those that the walk reaches and whose names match the
-- pattern, and the file glob too if the arguments give one, no file before one that was modified
-- later.
pub matched_files-Reaches :
    (root pattern : Text) (file_glob : Option Text) (es : Listing)
    → ((x : FileAt)
        → Member x (matched_files root pattern file_glob es)
          ↔ (Reaches root file_glob es x × Matches pattern x.1.name))
      × Descending modified_le (matched_files root pattern file_glob es)
unfolding matched_files
matched_files-Reaches root pattern file_glob es = (
  Member-named_files root pattern file_glob es,
  sort_by-Descending modified_le (λ x y. time_le_total x.1.modified y.1.modified)
      (λ x y z. time_le_trans x.1.modified y.1.modified z.1.modified)
      (named_files root pattern file_glob es),
)

-- How many files a walk passes whose names match both patterns, a skipped directory counting none.
unfoldable mutual
  pub number : Text → Option Text → Listing → ℕ
  number pattern file_glob unreadable = 0
  number pattern file_glob done = 0
  number pattern file_glob (entry e es) =
      number_entry pattern file_glob e + number pattern file_glob es

  number_entry : Text → Option Text → Entry → ℕ
  number_entry pattern file_glob (file f) =
      if is_globbed file_glob f.name && glob_match pattern f.name then 1 else 0
  number_entry pattern file_glob (directory name es) =
      let below = number pattern file_glob es in if is_skipped name then 0 else below
  number_entry pattern file_glob other = 0

mutual
  unfolding number collect_files

  length-collect_files :
      (root pattern : Text) (file_glob : Option Text) (es : Listing)
      → length (filter (λ x. glob_match pattern x.1.name) (collect_files root file_glob es))
        ≡ number pattern file_glob es
  length-collect_files root pattern file_glob unreadable = refl
  length-collect_files root pattern file_glob done = refl
  length-collect_files root pattern file_glob (entry e es) =
      let p : FileAt → Bool = λ x. glob_match pattern x.1.name in
      let here = collect_entry root file_glob e in
      let rest = collect_files root file_glob es in
      ap length (filter-append p here rest)
      ∙ omega (
        arith,
        length-append (filter p here) (filter p rest),
        length-collect_entry root pattern file_glob e,
        length-collect_files root pattern file_glob es,
      )

  length-collect_entry :
      (root pattern : Text) (file_glob : Option Text) (e : Entry)
      → length (filter (λ x. glob_match pattern x.1.name) (collect_entry root file_glob e))
        ≡ number_entry pattern file_glob e
  length-collect_entry root pattern file_glob other = refl
  length-collect_entry root pattern file_glob (file f) =
      elim (Bool-cases (is_globbed file_glob f.name)) [
        | inl h ↦ elim (Bool-cases (glob_match pattern f.name)) [
          | inl k ↦ rw (h, k) refl
          | inr k ↦ rw (h, k) refl
        ]
        | inr h ↦ rw h refl
      ]
  length-collect_entry root pattern file_glob (directory name es) =
      elim (Bool-cases (is_skipped name)) [
        | inl h ↦ rw h refl
        | inr h ↦ rw h (length-collect_files (path_join root name) pattern file_glob es)
      ]

length-matched_files :
    (root pattern : Text) (file_glob : Option Text) (es : Listing)
    → length (matched_files root pattern file_glob es) ≡ number pattern file_glob es
unfolding matched_files
length-matched_files root pattern file_glob es =
    length-sort_by modified_le (named_files root pattern file_glob es)
    ∙ length-collect_files root pattern file_glob es

abbrev pub file_list : Payload → List Text
file_list (files page total truncated) = page
file_list _ = []

abbrev pub truncated_flag : Payload → Bool
truncated_flag (files page total truncated) = truncated
truncated_flag _ = false

pages-map :
    (matched : List FileAt) (limit k : ℕ)
    → pages (λ offset. map (λ x. x.0) (take limit (drop offset matched))) limit k
      ≡ take (k * limit) (map (λ x. x.0) matched)
pages-map matched limit k = same k ∙ pages-take (map (λ x. x.0) matched) limit k
  where
    same :
        (k : ℕ)
        → pages (λ offset. map (λ x. x.0) (take limit (drop offset matched))) limit k
          ≡ pages (λ offset. take limit (drop offset (map (λ x. x.0) matched))) limit k
    same zero = refl
    same (suc k) = rw (same k, take-map (λ x. x.0) (k * limit) limit matched) refl

is_truncated_iff :
    (total offset limit : ℕ)
    → offset + limit < 2 ^ 64
    → (is_truncated total offset limit ≡ true) ↔ (offset + limit < total)
is_truncated_iff total offset limit h = ground arith

-- Read page by page, from offset 0 on in steps of the limit, the search lists the paths of the
-- matching files, in order, as soon as the pages cover their number. That is the number of the files
-- in the tree, outside skipped directories, whose names match the patterns. A page is marked as
-- truncated exactly when files come after it, if offset and limit add up to a `usize`.
pub files_mode-pages :
    (root pattern : Text) (file_glob : Option Text) (limit : ℕ) (es : Listing)
    → ((k : ℕ)
        → length (matched_files root pattern file_glob es) ≤ k * limit
        → pages (λ offset. file_list (files_mode root pattern file_glob limit offset es)) limit k
          ≡ map (λ x. x.0) (matched_files root pattern file_glob es))
      × ((offset : ℕ)
          → offset + limit < 2 ^ 64
          → (truncated_flag (files_mode root pattern file_glob limit offset es) ≡ true)
            ↔ (offset + limit < length (matched_files root pattern file_glob es)))
      × (length (matched_files root pattern file_glob es) ≡ number pattern file_glob es)
unfolding files_mode
files_mode-pages root pattern file_glob limit es =
    let matched = matched_files root pattern file_glob es in
    (
      λ k h.
          pages-map matched limit k
          ∙ take-all (k * limit) (map (λ x. x.0) matched)
              (omega (arith, length-map (λ x. x.0) matched, h)),
      λ offset h. is_truncated_iff (length matched) offset limit h,
      length-matched_files root pattern file_glob es,
    )
