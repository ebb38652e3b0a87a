-- ===== src/Tests/TuiTests.antt =====
-- The terminal interface at concrete inputs.
use perry_hermes.Prelude.{
  All, List, Text, [], arith, codes, false, if◌then◌else◌, ltb, map, refl, some, ℕ, ◌++◌, ◌+◌, ◌==◌,
  ◌∷◌, ◌≡◌, ◌≤◌,
}
use perry_hermes.Tui.App.{App, RenderedLine, user, assistant, default, chat_lines_for_width}
use perry_hermes.Tui.Layout.{prompt, build_input_lines, compute_input_cursor_col_row}
use perry_hermes.Tui.Rows.{concat, columns, shown_text, build_input_lines-rows}
use perry_hermes.Tui.Zipper.{
  Edit, insert, backspace, go_left, go_home, Zipper, at_zipper, edits, zips, edits-zips,
}
use perry_hermes.Tui.Keys.{KeyEvent, backspace_key, handle_key}
use perry_hermes.Tui.Editing.{Handled, handle_key-Handled}
use perry_hermes.Tui.Cache.{Use, push, draw, use_all, chat_lines_for_width-use_all}

-- "é" and "a" before the cursor, an emoji after it
abbrev typed : Zipper
typed = record { left = 0x61 ∷ 0xE9 ∷ []; right = 0x1F600 ∷ [] }

abbrev session : List Edit
session = backspace ∷ insert 0x4E2D ∷ go_left ∷ backspace ∷ go_home ∷ []

edits-zips_example :
    edits session (at_zipper typed (default {Line = Text}))
    ≡ some (at_zipper (zips session typed) default)
edits-zips_example = edits-zips session typed default

abbrev rubout : KeyEvent
rubout = record { code = backspace_key; control = false }

handle_key-Handled_example :
    Handled (default {Line = Text}) (handle_key rubout (at_zipper typed default))
handle_key-Handled_example = handle_key-Handled rubout typed default

-- a line for each entry of the scrollback, whatever the width
abbrev wrapped : List RenderedLine → ℕ → List ℕ
wrapped ls width = map (λ l. width) ls

abbrev uses : List Use
uses = push (user (codes "hi")) ∷ draw 80 ∷ push (assistant (codes "hello")) ∷ []

chat_lines_for_width-use_all_example :
    (chat_lines_for_width wrapped 80 (use_all wrapped uses default)).0
    ≡ wrapped (use_all wrapped uses default).scrollback 80
chat_lines_for_width-use_all_example = chat_lines_for_width-use_all wrapped uses 80 (omega arith)

-- a terminal on which the characters from the CJK blocks on are wide
abbrev char_width : ℕ → ℕ
char_width c = if ltb c 0x1100 then 1 else if c == 0x276F then 1 else 2

abbrev text_width : Text → ℕ
text_width [] = 0
text_width (c ∷ s) = char_width c + text_width s

char_width-narrow : (c : ℕ) → char_width c ≤ 2
char_width-narrow c = ground arith

-- two wide characters, with the cursor after them
abbrev wide_input : App Text
wide_input = record default { input = 0x4E2D ∷ 0x6587 ∷ []; cursor = 6 }

build_input_lines-rows_example :
    (first : Text) × (rows : List Text) × (build_input_lines char_width text_width wide_input 5
      ≡ some (first ∷ rows))
    × (first ++ concat rows ≡ shown_text char_width text_width char_width-narrow wide_input)
    × (text_width prompt + columns char_width text_width first ≤ 5)
    × All (λ r. columns char_width text_width r ≤ 5) rows
build_input_lines-rows_example =
    build_input_lines-rows char_width text_width char_width-narrow wide_input 5 (omega arith)
      (omega arith)

-- The second character stands at the start of the second row, so the cursor after it belongs into the
-- column 2; it is drawn in the column 1, on the character.
misplaced_cursor :
    (build_input_lines char_width text_width wide_input 5
      ≡ some ((0x4E2D ∷ []) ∷ (0x6587 ∷ []) ∷ []))
    × (compute_input_cursor_col_row char_width text_width wide_input 5 ≡ some (1, 1))
unfolding build_input_lines compute_input_cursor_col_row perry_hermes.Utf8.len_utf8
misplaced_cursor = (refl, refl)
