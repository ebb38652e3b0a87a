-- ===== src/Tui/Keys.antt =====
-- crates/hermes-cli/src/tui/input.rs: what a key does to the state and which event it yields. `none`
-- is a panic. Of crossterm, a key is its code and whether the control key is held.
use perry_hermes.Prelude.{
  ℕ, ◌+◌, ◌-◌, ◌^◌, Bool, true, false, ◌&&◌, Option, none, some, [], ◌++◌, Text, codes, is_empty,
  trim, trim_start, ◌==◌, if◌then◌else◌, min,
}
use perry_hermes.Commands.{
  quit, compact, clear, ParsedCommand, meta, parse, split_word, starts_with_slash,
}
use perry_hermes.Tui.App.{App, AppMode, idle, awaiting_model, cancelling, RenderedLine, system}
use perry_hermes.Tui.Zipper.{insert, backspace, delete, go_left, go_right, go_home, go_end, edit}

pub data KeyCode : Type 0 where
  char : ℕ → KeyCode
  backspace_key delete_key left right home end enter esc up down page_up page_down other : KeyCode

pub record KeyEvent : Type 0 where
  pub code : KeyCode
  pub control : Bool

-- the events that a key yields
pub data AppEvent : Type 0 where
  tick quit_event cancel_in_flight clear_event : AppEvent
  submit : Text → AppEvent
  compact_event : Option Text → AppEvent
  append : RenderedLine → AppEvent

abbrev pub scroll_page : ℕ
scroll_page = 10

abbrev pub is_control_char : ℕ → KeyEvent → Bool
is_control_char c key = elim key.code as (λ k. Bool) [ char d ↦ d == c && key.control | _ ↦ false ]

abbrev pub help : Text
help = codes "Try /quit, /exit, /compact [focus], /clear."

abbrev first_word : Text → Text
first_word s = (split_word (trim_start s)).0

-- the event of a command; `none` if its metadata are missing
unfoldable pub event_of_command : ParsedCommand → Option AppEvent
event_of_command p = elim p.command as (λ c. Option AppEvent) [
  | quit ↦ some quit_event
  | compact ↦ some (compact_event p.arg)
  | clear ↦ some clear_event
  | other_command ↦ elim (meta other_command) as (λ m. Option AppEvent) [
    | none ↦ none
    | some m ↦
        some (append (system (codes "Unknown command: /" ++ (m.name ++ (codes ". " ++ help)))))
  ]
]

unfoldable pub parse_slash_or_submit : Text → Option AppEvent
unfolding event_of_command
parse_slash_or_submit text =
    let trimmed = trim text in
    if starts_with_slash trimmed
    then elim (parse trimmed) [
      | some p ↦ event_of_command p
      | none ↦ some (
          append
            (system (codes "Unknown command: " ++ (first_word trimmed ++ (codes ". " ++ help)))))
    ]
    else some (submit text)

abbrev saturating_add_u16 : ℕ → ℕ → ℕ
saturating_add_u16 a b = min (a + b) (2 ^ 16 - 1)

abbrev pub on_interrupt : AppMode → AppEvent
on_interrupt awaiting_model = cancel_in_flight
on_interrupt idle = quit_event
on_interrupt cancelling = quit_event

abbrev pub on_escape : AppMode → AppEvent
on_escape awaiting_model = cancel_in_flight
on_escape idle = tick
on_escape cancelling = quit_event

abbrev pub is_escape : KeyCode → Bool
is_escape esc = true
is_escape _ = false

module _ {Line : Type 0} where
  abbrev with_tick : Option (App Line) → Option (App Line × AppEvent)
  with_tick none = none
  with_tick (some a) = some (a, tick)

  abbrev with_event : App Line → Option AppEvent → Option (App Line × AppEvent)
  with_event a none = none
  with_event a (some e) = some (a, e)

  -- the scroll keys, if the key is one
  abbrev pub scroll : KeyCode → App Line → Option (App Line)
  scroll up a = some (record a { chat_scroll = saturating_add_u16 a.chat_scroll 1 })
  scroll down a = some (record a { chat_scroll = a.chat_scroll - 1 })
  scroll page_up a = some (record a { chat_scroll = saturating_add_u16 a.chat_scroll scroll_page })
  scroll page_down a = some (record a { chat_scroll = a.chat_scroll - scroll_page })
  scroll end a = some (record a { chat_scroll = 0 })
  scroll _ a = none

  -- the key of a line that is entered
  unfoldable pub enter_line : App Line → Option (App Line × AppEvent)
  unfolding parse_slash_or_submit
  enter_line a =
      let a' : App Line = record a { input = []; cursor = 0 } in
      let event = parse_slash_or_submit a.input in
      if is_empty (trim a.input) then some (a', tick) else with_event a' event

  -- the keys of the input box
  unfoldable pub edit_key : KeyCode → App Line → Option (App Line × AppEvent)
  unfolding enter_line
  edit_key (char c) a = with_tick (edit (insert c) a)
  edit_key backspace_key a = with_tick (edit backspace a)
  edit_key delete_key a = with_tick (edit delete a)
  edit_key left a = with_tick (edit go_left a)
  edit_key right a = with_tick (edit go_right a)
  edit_key home a = with_tick (edit go_home a)
  edit_key end a = with_tick (edit go_end a)
  edit_key enter a = elim a.mode [ cancelling ↦ some (a, tick) | _ ↦ enter_line a ]
  edit_key _ a = some (a, tick)

  -- a key in the idle mode that is neither an interrupt nor the escape
  unfoldable pub idle_key : KeyEvent → App Line → Option (App Line × AppEvent)
  unfolding edit_key
  idle_key key a =
      if is_control_char 100 key
      then some (a, quit_event)
      else elim (scroll key.code a) [ some a' ↦ some (a', tick) | none ↦ edit_key key.code a ]

  unfoldable pub awaiting_key : KeyEvent → App Line → Option (App Line × AppEvent)
  unfolding edit_key
  awaiting_key key a = if is_control_char 100 key then some (a, tick) else edit_key key.code a

  unfoldable pub handle_key : KeyEvent → App Line → Option (App Line × AppEvent)
  unfolding idle_key awaiting_key
  handle_key key a =
      if is_control_char 99 key
      then some (a, on_interrupt a.mode)
      else if is_escape key.code
      then some (a, on_escape a.mode)
      else elim a.mode [
        | cancelling ↦ some (a, tick)
        | idle ↦ idle_key key a
        | awaiting_model ↦ awaiting_key key a
      ]
