-- ===== src/Memory/Entries.antt =====
-- The file format of crates/hermes-skill-tools/src/tools/memory/store.rs: entries joined by a
-- delimiter.
use perry_hermes.Prelude.{
  ℕ, zero, suc, Bool, true, false, not, Option, none, some, List, [], ◌∷◌, map, Text, text_eq, any,
  filter, ◌==◌, is_empty, join, trim, if◌then◌else◌,
}

-- `ENTRY_DELIMITER`: a line with a section sign
abbrev pub entry_delimiter : Text
entry_delimiter = 10 ∷ 167 ∷ 10 ∷ []

-- `str::starts_with`
abbrev pub starts_with : Text → Text → Bool
starts_with [] s = true
starts_with (p ∷ ps) [] = false
starts_with (p ∷ ps) (c ∷ s) = let rest = starts_with ps s in if p == c then rest else false

-- `str::contains`
abbrev pub contains : Text → Text → Bool
contains p [] = starts_with p []
contains p (c ∷ s) = let rest = contains p s in if starts_with p (c ∷ s) then true else rest

-- a character before the first piece of a split
abbrev pub cons_first : ℕ → List Text → List Text
cons_first c [] = (c ∷ []) ∷ []
cons_first c (s ∷ ss) = (c ∷ s) ∷ ss

-- `str::split(ENTRY_DELIMITER)`, after `skip` characters of a delimiter
abbrev pub split_after : ℕ → Text → List Text
split_after skip [] = [] ∷ []
split_after (suc skip) (c ∷ s) = split_after skip s
split_after zero (c ∷ s) = elim (starts_with entry_delimiter (c ∷ s)) [
  | true ↦ [] ∷ split_after 2 s
  | false ↦ cons_first c (split_after 0 s)
]

abbrev pub not_empty : Text → Bool
not_empty s = not (is_empty s)

-- the text of a file as entries
unfoldable pub parse_entries : Text → List Text
parse_entries raw =
    if is_empty (trim raw) then [] else filter not_empty (map trim (split_after 0 raw))

-- `read_file`, for what the file system returns
unfoldable pub read_entries : Option Text → List Text
unfolding parse_entries
read_entries none = []
read_entries (some raw) = parse_entries raw

-- the content that `write_file` writes
abbrev pub content_of_entries : List Text → Text
content_of_entries entries = join entry_delimiter entries

-- `dedup_in_place`, with the texts seen so far
abbrev pub dedup_from : List Text → List Text → List Text
dedup_from seen [] = []
dedup_from seen (e ∷ es) = elim (any (text_eq e) seen) [
  | true ↦ dedup_from seen es
  | false ↦ e ∷ dedup_from (e ∷ seen) es
]

unfoldable pub dedup_in_place : List Text → List Text
dedup_in_place es = dedup_from [] es
