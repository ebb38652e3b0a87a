-- ===== src/Utf8.antt =====
-- What the program uses of `String` by offset: byte offsets into a text, by the length of each character in
-- UTF-8. `none` is a panic: an offset that is no boundary between characters.
pub mod Offsets
use perry_hermes.Prelude.{
  ℕ, ◌+◌, ◌-◌, Bool, true, false, Option, none, some, List, [], ◌∷◌, ◌++◌, Text, ltb, ◌==◌,
  if◌then◌else◌,
}

-- `char::len_utf8`
unfoldable pub len_utf8 : ℕ → ℕ
len_utf8 c = if ltb c 0x80 then 1 else if ltb c 0x800 then 2 else if ltb c 0x10000 then 3 else 4

-- `str::len`
abbrev pub len : Text → ℕ
len [] = 0
len (c ∷ s) = len_utf8 c + len s

-- `str::is_char_boundary`
unfoldable pub is_char_boundary : Text → ℕ → Bool
is_char_boundary [] p = p == 0
is_char_boundary (c ∷ s) p =
    let rest = is_char_boundary s (p - len_utf8 c) in
    if p == 0 then true else if ltb p (len_utf8 c) then false else rest

abbrev pub cons_left : ℕ → Option (Text × Text) → Option (Text × Text)
cons_left c none = none
cons_left c (some (b, a)) = some (c ∷ b, a)

-- `str::split_at`
unfoldable pub split_at : Text → ℕ → Option (Text × Text)
split_at [] p = if p == 0 then some ([], []) else none
split_at (c ∷ s) p =
    let rest = cons_left c (split_at s (p - len_utf8 c)) in
    if p == 0 then some ([], c ∷ s) else if ltb p (len_utf8 c) then none else rest

-- `String::insert`
abbrev pub insert_char : ℕ → Option (Text × Text) → Option Text
insert_char c none = none
insert_char c (some (b, a)) = some (b ++ c ∷ a)

-- `String::replace_range(start..end, "")`
abbrev pub drop_left : Text → Option (Text × Text) → Option Text
drop_left b none = none
drop_left b (some (m, a)) = some (b ++ a)

abbrev pub remove_after : ℕ → Option (Text × Text) → Option Text
remove_after n none = none
remove_after n (some (b, a)) = drop_left b (split_at a n)

unfoldable pub remove_range : Text → ℕ → ℕ → Option Text
unfolding split_at
remove_range s start end =
    let rest = remove_after (end - start) (split_at s start) in if ltb end start then none else rest
