-- ===== src/Files/Names.antt =====
-- The search by name of crates/hermes-skill-tools/src/tools/files/search.rs, with the sorting and the maps
-- that the searches share. A result is the value that is printed as JSON.
use perry_hermes.Prelude.{
  ℕ, ◌+◌, ◌%◌, ◌^◌, Bool, true, false, Option, none, some, List, [], ◌∷◌, ◌++◌, Text, text_eq, map,
  filter, take, drop, length, ltb, leb, ◌==◌, ◌&&◌, ◌||◌, if◌then◌else◌,
}
use perry_hermes.Files.Glob.{glob_match}
use perry_hermes.Files.Walk.{Listing, FileAt, collect_files}

pub record Hit : Type 0 where
  pub path : Text
  pub line : ℕ
  pub column : ℕ
  pub content : Text

pub data Payload : Type 0 where
  failed : Text → Payload
  -- files, total, truncated
  files : List Text → ℕ → Bool → Payload
  counts : List (Text × ℕ) → ℕ → Bool → Payload
  matches : List Hit → ℕ → Bool → Payload

-- `total > offset + limit`, with the sum of two `usize`
abbrev pub is_truncated : ℕ → ℕ → ℕ → Bool
is_truncated total offset limit = ltb ((offset + limit) % 2 ^ 64) total

-- `sort_by`: stable, so an element goes before those that it does not exceed
module _ {A : Type 0} (le : A → A → Bool) where
  abbrev pub insert_sorted : A → List A → List A
  insert_sorted x [] = x ∷ []
  insert_sorted x (y ∷ ys) =
      let rest = insert_sorted x ys in if le x y then x ∷ y ∷ ys else y ∷ rest

  abbrev pub sort_by : List A → List A
  sort_by [] = []
  sort_by (x ∷ xs) = insert_sorted x (sort_by xs)

abbrev pub reverse : {A : Type 0} → List A → List A
reverse [] = []
reverse (x ∷ xs) = reverse xs ++ (x ∷ [])

-- `Option<SystemTime>`: no time comes before every time
abbrev pub time_le : Option ℕ → Option ℕ → Bool
time_le none t = true
time_le (some a) none = false
time_le (some a) (some b) = leb a b

abbrev pub modified_le : FileAt → FileAt → Bool
modified_le x y = time_le x.1.modified y.1.modified

-- the files whose names match, newest first
unfoldable pub matched_files : Text → Text → Option Text → Listing → List FileAt
unfolding collect_files glob_match
matched_files root pattern file_glob es = reverse (
    sort_by modified_le
      (filter (λ x. glob_match pattern x.1.name) (collect_files root file_glob es)))

unfoldable pub files_mode : Text → Text → Option Text → ℕ → ℕ → Listing → Payload
unfolding matched_files
files_mode root pattern file_glob limit offset es =
    let matched = matched_files root pattern file_glob es in
    files (map (λ x. x.0) (take limit (drop offset matched))) (length matched)
      (is_truncated (length matched) offset limit)

-- `str::cmp`, by code points
unfoldable pub text_lt : Text → Text → Bool
text_lt [] [] = false
text_lt [] (b ∷ t) = true
text_lt (a ∷ s) [] = false
text_lt (a ∷ s) (b ∷ t) = ltb a b || (a == b && text_lt s t)

-- `*per_file.entry(path).or_insert(0) += 1` on a `BTreeMap`
unfoldable pub bump : Text → List (Text × ℕ) → List (Text × ℕ)
unfolding text_lt
bump key [] = (key, 1) ∷ []
bump key ((k, n) ∷ m) =
    let rest = bump key m in
    if text_eq key k
    then (k, n + 1) ∷ m
    else if text_lt key k
    then (key, 1) ∷ (k, n) ∷ m
    else (k, n) ∷ rest

-- `BTreeSet::insert`
unfoldable pub insert_key : Text → List Text → List Text
unfolding text_lt
insert_key key [] = key ∷ []
insert_key key (k ∷ ks) =
    let rest = insert_key key ks in
    if text_eq key k then k ∷ ks else if text_lt key k then key ∷ k ∷ ks else k ∷ rest
