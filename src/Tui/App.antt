-- ===== src/Tui/App.antt =====
-- crates/hermes-cli/src/tui/app.rs: the state of the terminal interface, with the fields that its
-- methods and the key handler use. Lines of the terminal are a parameter, as is their wrapping. An
-- operation on the input box returns `none` where the code panics.
use perry_hermes.Prelude.{
  ℕ, zero, suc, ◌+◌, ◌-◌, ◌%◌, ◌^◌, Bool, false, ◌&&◌, Option, none, some, List, [], ◌∷◌, ◌++◌,
  Text, leb, ◌==◌, if◌then◌else◌, min,
}
use perry_hermes.Utf8.{len_utf8, len, is_char_boundary, split_at, insert_char, remove_range}

pub data AppMode : Type 0 where
  idle awaiting_model cancelling : AppMode

pub data RenderedLine : Type 0 where
  user assistant reasoning system : Text → RenderedLine
  tool_call : Text → Text → RenderedLine
  tool_result : Text → Text → Bool → RenderedLine

pub record App (Line : Type 0) : Type 0 where
  pub scrollback : List RenderedLine
  pub input : Text
  pub cursor : ℕ
  pub mode : AppMode
  pub chat_scroll : ℕ
  pub scrollback_revision : ℕ
  pub cached_chat_lines : List Line
  pub cached_chat_width : Option ℕ
  pub cached_chat_revision : ℕ

-- the loop of `prev_char_boundary`
unfoldable pub prev_from : Text → ℕ → ℕ
prev_from s zero = zero
prev_from s (suc p) = let rest = prev_from s p in if is_char_boundary s (suc p) then suc p else rest

unfoldable pub prev_char_boundary : Text → ℕ → ℕ
unfolding prev_from
prev_char_boundary s pos = prev_from s (pos - 1)

-- the loop of `next_char_boundary`; the fuel is the distance to the end
unfoldable pub next_from : ℕ → Text → ℕ → ℕ
next_from zero s p = p
next_from (suc fuel) s p =
    let rest = next_from fuel s (p + 1) in if is_char_boundary s p then p else rest

unfoldable pub next_char_boundary : Text → ℕ → ℕ
unfolding next_from
next_char_boundary s pos = let p = min (pos + 1) (len s) in next_from (len s - p) s p

module _ {Line : Type 0} where
  abbrev pub default : App Line
  default = record {
    scrollback = [];
    input = [];
    cursor = 0;
    mode = idle;
    chat_scroll = 0;
    scrollback_revision = 0;
    cached_chat_lines = [];
    cached_chat_width = none;
    cached_chat_revision = 0;
  }

  unfoldable pub mark_scrollback_dirty : App Line → App Line
  mark_scrollback_dirty a = record a { scrollback_revision = (a.scrollback_revision + 1) % 2 ^ 64 }

  unfoldable pub push_line : RenderedLine → App Line → App Line
  unfolding mark_scrollback_dirty
  push_line line a =
      mark_scrollback_dirty (record a { scrollback = a.scrollback ++ line ∷ []; chat_scroll = 0 })

  unfoldable pub clear_scrollback : App Line → App Line
  unfolding mark_scrollback_dirty
  clear_scrollback a = mark_scrollback_dirty (record a { scrollback = []; chat_scroll = 0 })

  -- a changed input box, unless there was a panic
  abbrev pub with_input : Option Text → ℕ → App Line → Option (App Line)
  with_input none cursor a = none
  with_input (some s) cursor a = some (record a { input = s; cursor = cursor })

  unfoldable pub insert_at_cursor : ℕ → App Line → Option (App Line)
  insert_at_cursor c a =
      with_input (insert_char c (split_at a.input a.cursor)) (a.cursor + len_utf8 c) a

  unfoldable pub delete_before_cursor : App Line → Option (App Line)
  delete_before_cursor a =
      let prev = prev_char_boundary a.input a.cursor in
      if a.cursor == 0 then some a else with_input (remove_range a.input prev a.cursor) prev a

  unfoldable pub delete_at_cursor : App Line → Option (App Line)
  delete_at_cursor a =
      let next = next_char_boundary a.input a.cursor in
      if leb (len a.input) a.cursor
      then some a
      else with_input (remove_range a.input a.cursor next) a.cursor a

  unfoldable pub move_cursor_left : App Line → App Line
  move_cursor_left a =
      if a.cursor == 0 then a else record a { cursor = prev_char_boundary a.input a.cursor }

  unfoldable pub move_cursor_right : App Line → App Line
  move_cursor_right a =
      if leb (len a.input) a.cursor
      then a
      else record a { cursor = next_char_boundary a.input a.cursor }

  abbrev pub move_cursor_home : App Line → App Line
  move_cursor_home a = record a { cursor = 0 }

  abbrev pub move_cursor_end : App Line → App Line
  move_cursor_end a = record a { cursor = len a.input }

  module _ (build_chat_lines : List RenderedLine → ℕ → List Line) where
    -- whether the cached lines are those of the width and of the scrollback's revision
    unfoldable pub is_cached : ℕ → App Line → Bool
    is_cached width a =
        elim a.cached_chat_width [ none ↦ false | some w ↦ w == width ]
        && a.cached_chat_revision == a.scrollback_revision

    unfoldable pub chat_lines_for_width : ℕ → App Line → List Line × App Line
    unfolding is_cached
    chat_lines_for_width width a =
        let lines = build_chat_lines a.scrollback width in
        if is_cached width a then (a.cached_chat_lines, a) else (
          lines,
          record a {
            cached_chat_lines = lines;
            cached_chat_width = some width;
            cached_chat_revision = a.scrollback_revision;
          },
        )
