-- ===== src/Tui/Layout.antt =====
-- The rows of the input box, in crates/hermes-cli/src/tui/render.rs, as texts without their style. The
-- first row stands behind the prompt. The width of a character and that of a string on the terminal
-- are parameters, the package `unicode-width`.
use perry_hermes.Prelude.{
  ℕ, zero, suc, ◌+◌, ◌-◌, ◌/◌, ◌%◌, ◌^◌, min, max, Option, none, some, List, [], ◌∷◌, ◌++◌, Text,
  codes, decimal, length, take, ltb, leb, ◌==◌, is_empty, if◌then◌else◌,
}
use perry_hermes.Utf8.{len, split_at}
use perry_hermes.Tui.App.{App, AppMode, idle, awaiting_model, cancelling}

abbrev pub min_input_content_lines : ℕ
min_input_content_lines = 1

abbrev pub max_input_content_lines : ℕ
max_input_content_lines = 8

abbrev pub prompt : Text
prompt = codes "❯ "

abbrev pub placeholder : Text
placeholder = codes "Send a message…"

abbrev pub onto_first : ℕ → Text × Text → Text × Text
onto_first c (b, a) = (c ∷ b, a)

-- `truncate_for_status`
unfoldable pub truncate_for_status : Text → ℕ → Text
truncate_for_status s max_chars =
    take max_chars s ++ (if ltb max_chars (length s) then codes "…" else [])

-- two digits, as `{:02}` prints a number below a hundred
abbrev pub two_digits : ℕ → Text
two_digits n = if ltb n 10 then codes "0" ++ decimal n else decimal n

unfoldable pub fmt_elapsed_compact : ℕ → Text
fmt_elapsed_compact elapsed =
    if ltb elapsed 60
    then decimal elapsed ++ codes "s"
    else if ltb elapsed 3600
    then decimal (elapsed / 60) ++ (codes "m " ++ (two_digits (elapsed % 60) ++ codes "s"))
    else decimal (elapsed / 3600)
      ++ (codes "h "
          ++ (two_digits (elapsed % 3600 / 60)
              ++ (codes "m " ++ (two_digits (elapsed % 60) ++ codes "s"))))

abbrev pub with_row : Text → Option (List Text) → Option (List Text)
with_row row none = none
with_row row (some rows) = some (row ∷ rows)

abbrev pub bottom_input_height : ℕ → ℕ
bottom_input_height count =
    (max min_input_content_lines (min max_input_content_lines count) + 2) % 2 ^ 16

abbrev pub activity_height : AppMode → ℕ
activity_height idle = 0
activity_height awaiting_model = 1
activity_height cancelling = 1

abbrev pub height_of_rows : AppMode → Option (List Text) → Option ℕ
height_of_rows mode none = none
height_of_rows mode (some rows) =
    some (activity_height mode + 1 + bottom_input_height (length rows))

module _ (width : ℕ → ℕ) (visible_width : Text → ℕ) where
  -- the loop of `split_at_display_width`, with the width so far
  unfoldable pub split_loop : ℕ → ℕ → Text → Text × Text
  split_loop used max_width [] = ([], [])
  split_loop used max_width (c ∷ s) =
      let rest = onto_first c (split_loop (used + width c) max_width s) in
      if ltb max_width (used + width c) then ([], c ∷ s) else rest

  unfoldable pub split_at_display_width : Text → ℕ → Text × Text
  unfolding split_loop
  split_at_display_width s max_width = if max_width == 0 then ([], s) else split_loop 0 max_width s

  -- the rows after the first one; `none` means that the fuel has run out
  unfoldable pub more_rows : ℕ → ℕ → Text → Option (List Text)
  unfolding split_at_display_width
  more_rows fuel inner_w [] = some []
  more_rows zero inner_w (c ∷ s) = none
  more_rows (suc fuel) inner_w (c ∷ s) =
      let cut = split_at_display_width (c ∷ s) inner_w in
      with_row cut.0 (more_rows fuel inner_w cut.1)

  -- a text behind the prompt; every row takes at least one character, so as much fuel as there are
  -- characters is enough
  unfoldable pub rows_of : Text → ℕ → Option (List Text)
  unfolding more_rows
  rows_of s inner_w =
      let first_w = inner_w - visible_width prompt in
      let cut = split_at_display_width s first_w in
      if first_w == 0
      then some ([] ∷ [])
      else with_row cut.0 (more_rows (length cut.1) inner_w cut.1)

  -- `build_input_lines` and `build_placeholder_lines`
  unfoldable pub build_input_lines : {Line : Type 0} → App Line → ℕ → Option (List Text)
  unfolding rows_of
  build_input_lines a inner_w =
      if is_empty a.input then rows_of placeholder inner_w else rows_of a.input inner_w

  unfoldable pub bottom_view_height : {Line : Type 0} → App Line → ℕ → Option ℕ
  unfolding build_input_lines
  bottom_view_height a w = height_of_rows a.mode (build_input_lines a (max (w - 2) 1))

  -- the column and the row of the cursor, which `none` splits a character
  abbrev pub place : ℕ → ℕ → ℕ → ℕ × ℕ
  place inner_w first_w before =
      if leb before first_w then ((visible_width prompt + before % 2 ^ 16), 0) else (
        (before - first_w) % max inner_w 1 % 2 ^ 16,
        (1 + (before - first_w) / max inner_w 1) % 2 ^ 16,
      )

  abbrev pub place_of : ℕ → ℕ → Option (Text × Text) → Option (ℕ × ℕ)
  place_of inner_w first_w none = none
  place_of inner_w first_w (some (b, a)) = some (place inner_w first_w (visible_width b))

  unfoldable pub compute_input_cursor_col_row : {Line : Type 0} → App Line → ℕ → Option (ℕ × ℕ)
  unfolding split_at
  compute_input_cursor_col_row a inner_w =
      let first_w = inner_w - visible_width prompt in
      let found = place_of inner_w first_w (split_at a.input (min a.cursor (len a.input))) in
      if first_w == 0 then some (0, 0) else found
