-- ===== src/Patch/Printing.antt =====
-- Patches as they are printed, and the operations that they stand for.
use perry_hermes.Prelude.{
  ◌≡◌, false, none, some, List, [], ◌∷◌, ◌++◌, map, Text, codes, All, text_eq, trim, trim_start,
}
use perry_hermes.Patch.Parse.{
  add, update, delete, move, Hunk, V4aOp, keep_line, drop_line, put_line, directive, none_of_them,
}

-- The lines of a hunk, and the operations of a patch.
pub data HunkLine : Type 0 where
  keep drop put : Text → HunkLine

pub data Section : Type 0 where
  add_file : Text → List Text → Section
  update_file : Text → List (List HunkLine) → Section
  delete_file : Text → Section
  move_file : Text → Text → Section

abbrev pub print_hunk_line : HunkLine → Text
print_hunk_line (keep l) = 32 ∷ l
print_hunk_line (drop l) = 45 ∷ l
print_hunk_line (put l) = 43 ∷ l

abbrev pub print_hunks : List (List HunkLine) → List Text
print_hunks [] = []
print_hunks (h ∷ hs) = codes "@@" ∷ map print_hunk_line h ++ print_hunks hs

abbrev pub print_section : Section → List Text
print_section (add_file path ls) = (codes "*** Add File: " ++ path) ∷ map (λ l. 43 ∷ l) ls
print_section (update_file path hs) = (codes "*** Update File: " ++ path) ∷ print_hunks hs
print_section (delete_file path) = (codes "*** Delete File: " ++ path) ∷ []
print_section (move_file path dest) =
    (codes "*** Move File: " ++ path) ∷ (codes "*** Move to: " ++ dest) ∷ []

abbrev pub print_sections : List Section → List Text
print_sections [] = codes "*** End Patch" ∷ []
print_sections (s ∷ ss) = print_section s ++ print_sections ss

abbrev pub print_patch : List Section → List Text
print_patch ss = codes "*** Begin Patch" ∷ print_sections ss

-- What a section means: the operation that it stands for.
abbrev pub add_hunk_line : HunkLine → Hunk → Hunk
add_hunk_line (keep l) h = keep_line l h
add_hunk_line (drop l) h = drop_line l h
add_hunk_line (put l) h = put_line l h

abbrev pub add_hunk_lines : List HunkLine → Hunk → Hunk
add_hunk_lines [] h = h
add_hunk_lines (l ∷ ls) h = add_hunk_lines ls (add_hunk_line l h)

abbrev pub hunk_of : List HunkLine → Hunk
hunk_of ls = add_hunk_lines ls (record { search = []; replace = [] })

abbrev pub unlines : List Text → Text
unlines [] = []
unlines (l ∷ ls) = l ++ (codes "\n" ++ unlines ls)

abbrev pub op_of : Section → V4aOp
op_of (add_file path ls) = record {
  kind = add;
  path = path;
  body = unlines ls;
  hunks = [];
  move_to = none;
}
op_of (update_file path hs) = record {
  kind = update;
  path = path;
  body = [];
  hunks = map hunk_of hs;
  move_to = none;
}
op_of (delete_file path) = record {
  kind = delete;
  path = path;
  body = [];
  hunks = [];
  move_to = none;
}
op_of (move_file path dest) = record {
  kind = move;
  path = path;
  body = [];
  hunks = [];
  move_to = some dest;
}

-- A line that is kept may not look like a directive or like the start of a hunk; a path is trimmed.
abbrev pub IsPlain : HunkLine → Type 0
IsPlain (keep l) =
    (directive (trim_start l) ≡ none_of_them) × (text_eq (trim_start l) (codes "@@") ≡ false)
IsPlain (drop l) = Unit
IsPlain (put l) = Unit

abbrev pub IsPrintable : Section → Type 0
IsPrintable (add_file path ls) = trim path ≡ path
IsPrintable (update_file path hs) = (trim path ≡ path) × All (All IsPlain) hs
IsPrintable (delete_file path) = trim path ≡ path
IsPrintable (move_file path dest) = (trim path ≡ path) × (trim dest ≡ dest)
