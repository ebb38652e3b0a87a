-- ===== src/Patch/Hunks.antt =====
-- `apply_hunks_to_text` of crates/hermes-skill-tools/src/tools/files/patch.rs: hunks replace lines.
use perry_hermes.Prelude.{
  ℕ, zero, suc, ◌+◌, Bool, true, false, ◌&&◌, Option, none, some, List, [], ◌∷◌, ◌++◌, Text, codes,
  decimal, text_eq, is_empty, length, take, drop, join, ◌==◌, if◌then◌else◌, Result, ok, err,
}
use perry_hermes.Patch.Parse.{Hunk}

-- whether a list of lines starts with another
unfoldable pub lines_start : List Text → List Text → Bool
lines_start [] ls = true
lines_start (n ∷ ns) [] = false
lines_start (n ∷ ns) (l ∷ ls) = text_eq n l && lines_start ns ls

abbrev pub shift : Option ℕ → Option ℕ
shift none = none
shift (some i) = some (suc i)

-- the loop of `find_subsequence` over the starts
unfoldable pub find_from : List Text → List Text → Option ℕ
find_from [] needle = if lines_start needle [] then some 0 else none
find_from (l ∷ ls) needle =
    let rest = shift (find_from ls needle) in if lines_start needle (l ∷ ls) then some 0 else rest

unfoldable pub find_subsequence : List Text → List Text → Option ℕ
unfolding find_from
find_subsequence haystack needle = if is_empty needle then some 0 else find_from haystack needle

abbrev pub count_one : Option ℕ → Option ℕ
count_one none = none
count_one (some n) = some (suc n)

-- the loop of `count_subsequence`; `none` means that the fuel has run out
unfoldable pub count_loop : ℕ → List Text → List Text → Option ℕ
count_loop zero haystack needle = none
count_loop (suc fuel) haystack needle = elim (find_subsequence haystack needle) [
  | none ↦ some 0
  | some pos ↦ count_one (count_loop fuel (drop (pos + length needle) haystack) needle)
]

-- Every match takes at least one line, so one round more than there are lines is fuel enough.
unfoldable pub count_subsequence : List Text → List Text → Option ℕ
unfolding count_loop
count_subsequence haystack needle =
    if is_empty needle then some 0 else count_loop (suc (length haystack)) haystack needle

-- `Vec::splice`
abbrev pub splice : ℕ → ℕ → List Text → List Text → List Text
splice pos n new ls = take pos ls ++ (new ++ drop (pos + n) ls)

-- the texts of the errors
abbrev pub hunk_label : ℕ → Text → Text
hunk_label idx path =
    codes "hunk #" ++ (decimal (suc idx) ++ (codes " for '" ++ (path ++ codes "'")))

abbrev pub no_context_error : ℕ → Text → Text
no_context_error idx path =
    hunk_label idx path
    ++ codes
        " has no search context (every line is '+'); include a context (' ') or deletion ('-') line to anchor the position"

abbrev pub not_found_error : ℕ → Text → Text
not_found_error idx path =
    hunk_label idx path
    ++ codes
        " did not apply: search text not found in file. Re-read the file to confirm current contents, or include more context lines."

abbrev pub ambiguous_error : ℕ → Text → ℕ → Text
ambiguous_error idx path n =
    hunk_label idx path
    ++ (codes " matched "
        ++ (decimal n ++ codes " locations. Add more context lines to make the match unique."))

-- the splice of a hunk that matches once; `none` is the failure of the `expect`
abbrev pub splice_found : Hunk → List Text → Option ℕ → Option (Result (List Text) Text)
splice_found hunk ls none = none
splice_found hunk ls (some pos) = some (ok (splice pos (length hunk.search) hunk.replace ls))

-- what the number of matches leads to; no number means that the fuel has run out
unfoldable pub by_count : ℕ → Text → Hunk → List Text → Option ℕ → Option (Result (List Text) Text)
by_count idx path hunk ls none = none
by_count idx path hunk ls (some zero) = some (err (not_found_error idx path))
by_count idx path hunk ls (some (suc zero)) = splice_found hunk ls (find_subsequence ls hunk.search)
by_count idx path hunk ls (some (suc (suc n))) = some (err (ambiguous_error idx path (suc (suc n))))

-- one round of the loop over the hunks
unfoldable pub apply_hunk : ℕ → Text → Hunk → List Text → Option (Result (List Text) Text)
unfolding by_count
apply_hunk idx path hunk ls =
    let matched = by_count idx path hunk ls (count_subsequence ls hunk.search) in
    if is_empty hunk.search then some (err (no_context_error idx path)) else matched

unfoldable pub apply_hunks : ℕ → Text → List Hunk → List Text → Option (Result (List Text) Text)
apply_hunks idx path [] ls = some (ok ls)
apply_hunks idx path (h ∷ hs) ls = elim (apply_hunk idx path h ls) [
  | none ↦ none
  | some r ↦ elim r as (λ x. Option (Result (List Text) Text)) [
    | err e ↦ some (err e)
    | ok ls' ↦ apply_hunks (suc idx) path hs ls'
  ]
]

-- `original.split('\n')`
abbrev pub cons_piece : ℕ → List Text → List Text
cons_piece c [] = (c ∷ []) ∷ []
cons_piece c (l ∷ ls) = (c ∷ l) ∷ ls

abbrev pub split_feeds : Text → List Text
split_feeds [] = [] ∷ []
split_feeds (c ∷ s) = let rest = split_feeds s in if c == 10 then [] ∷ rest else cons_piece c rest

-- `original.ends_with('\n')`
abbrev pub ends_with_feed : Text → Bool
ends_with_feed [] = false
ends_with_feed (c ∷ []) = c == 10
ends_with_feed (c ∷ d ∷ s) = ends_with_feed (d ∷ s)

abbrev pub all_but_last : List Text → List Text
all_but_last [] = []
all_but_last (l ∷ []) = []
all_but_last (l ∷ m ∷ ls) = l ∷ all_but_last (m ∷ ls)

-- the text of lines, with a line feed at the end if there was one
abbrev pub joined : Bool → List Text → Text
joined feed ls = join (codes "\n") ls ++ (if feed then codes "\n" else [])

abbrev pub join_result : Bool → Option (Result (List Text) Text) → Option (Result Text Text)
join_result feed none = none
join_result feed (some (err e)) = some (err e)
join_result feed (some (ok ls)) = some (ok (joined feed ls))

abbrev pub lines_of : Text → List Text
lines_of original =
    if ends_with_feed original then all_but_last (split_feeds original) else split_feeds original

unfoldable pub apply_hunks_to_text : Text → List Hunk → Text → Option (Result Text Text)
unfolding apply_hunks
apply_hunks_to_text original hunks path =
    join_result (ends_with_feed original) (apply_hunks 0 path hunks (lines_of original))
