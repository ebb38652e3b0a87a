-- ===== src/Tui/Editing.antt =====
-- The keys on a state whose input and cursor show a zipper.
use perry_hermes.Prelude.{
  ◌≡◌, refl, inl, inr, Option, none, some, [], Text, is_empty, trim, Bool-cases, Option-cases,
}
use perry_hermes.Commands.{
  Command, reset, new, compact, status, quit, clear, ParsedCommand, meta, parse, starts_with_slash,
}
use perry_hermes.Tui.App.{App, AppMode, idle, awaiting_model, cancelling}
use perry_hermes.Tui.Zipper.{
  Zipper, Edit, insert, backspace, delete, go_left, go_right, go_home, go_end, edit, zip, at_zipper,
  shown, edit-zip,
}
use perry_hermes.Tui.Keys.{
  KeyCode, char, backspace_key, delete_key, left, right, home, end, enter, esc, up, down, page_up,
  page_down, other, KeyEvent, AppEvent, tick, quit_event, is_control_char, is_escape,
  event_of_command, parse_slash_or_submit, scroll, enter_line, edit_key, idle_key, awaiting_key,
  handle_key,
}

event_of_command-some : (p : ParsedCommand) → (e : AppEvent) × (event_of_command p ≡ some e)
unfolding event_of_command meta
event_of_command-some p = go p.command
  where
    go :
        (c : Command)
        → (e : AppEvent) × (event_of_command (record { command = c; arg = p.arg }) ≡ some e)
    go reset = (_, refl)
    go new = (_, refl)
    go compact = (_, refl)
    go status = (_, refl)
    go quit = (_, refl)
    go clear = (_, refl)

parse_slash_or_submit-some : (text : Text) → (e : AppEvent) × (parse_slash_or_submit text ≡ some e)
unfolding parse_slash_or_submit
parse_slash_or_submit-some text = elim (Bool-cases (starts_with_slash (trim text))) [
  | inr h ↦ rw (h, parse_slash_or_submit) (_, refl)
  | inl h ↦ elim (Option-cases (parse (trim text))) [
    | inl k ↦ rw (h, parse_slash_or_submit) (rw (k, parse_slash_or_submit) (_, refl))
    | inr (p, k) ↦
        rw (h, parse_slash_or_submit) (rw (k, parse_slash_or_submit) (event_of_command-some p))
  ]
]

module _ {Line : Type 0} where
  -- A key has been handled with no panic: the state again shows a zipper, in the same mode and with
  -- the same scrollback.
  abbrev pub Handled : App Line → Option (App Line × AppEvent) → Type 0
  Handled a r =
      (z : Zipper) × (b : App Line) × (e : AppEvent) × (r ≡ some (at_zipper z b, e))
      × (b.mode ≡ a.mode)
      × (b.scrollback ≡ a.scrollback)

  unmoved : (z : Zipper) (a : App Line) (e : AppEvent) → Handled a (some (at_zipper z a, e))
  unmoved z a e = (z, a, e, refl, refl, refl)

  edited :
      (e : Edit) (z : Zipper) (a : App Line)
      → Handled a (elim (edit e (at_zipper z a)) as (λ x. Option (App Line × AppEvent)) [
        | none ↦ none
        | some b ↦ some (b, tick)
      ])
  edited e z a = rw (edit-zip e z a) (zip e z, a, tick, refl, refl, refl)

  enter_line-Handled : (z : Zipper) (a : App Line) → Handled a (enter_line (at_zipper z a))
  unfolding enter_line
  enter_line-Handled z a = elim (Bool-cases (is_empty (trim (shown z)))) [
    | inl h ↦ rw (h, enter_line) (record { left = []; right = [] }, a, tick, refl, refl, refl)
    | inr h ↦
        let (e, k) = parse_slash_or_submit-some (shown z) in
        rw (h, enter_line)
          (rw (k, enter_line) (record { left = []; right = [] }, a, e, refl, refl, refl))
  ]

  edit_key-Handled :
      (code : KeyCode) (z : Zipper) (a : App Line) → Handled a (edit_key code (at_zipper z a))
  unfolding edit_key
  edit_key-Handled (char c) z a = edited (insert c) z a
  edit_key-Handled backspace_key z a = edited backspace z a
  edit_key-Handled delete_key z a = edited delete z a
  edit_key-Handled left z a = edited go_left z a
  edit_key-Handled right z a = edited go_right z a
  edit_key-Handled home z a = edited go_home z a
  edit_key-Handled end z a = edited go_end z a
  edit_key-Handled enter z a = go a.mode refl
    where
      go :
          (m : AppMode)
          → a.mode ≡ m
          → Handled a (elim m as (λ x. Option (App Line × AppEvent)) [
            | cancelling ↦ some (at_zipper z a, tick)
            | _ ↦ enter_line (at_zipper z a)
          ])
      go idle h = enter_line-Handled z a
      go awaiting_model h = enter_line-Handled z a
      go cancelling h = unmoved z a tick
  edit_key-Handled esc z a = unmoved z a tick
  edit_key-Handled up z a = unmoved z a tick
  edit_key-Handled down z a = unmoved z a tick
  edit_key-Handled page_up z a = unmoved z a tick
  edit_key-Handled page_down z a = unmoved z a tick
  edit_key-Handled other z a = unmoved z a tick

  idle_key-Handled :
      (key : KeyEvent) (z : Zipper) (a : App Line) → Handled a (idle_key key (at_zipper z a))
  unfolding idle_key
  idle_key-Handled key z a = elim (Bool-cases (is_control_char 100 key)) [
    | inl h ↦ rw (h, idle_key) (unmoved z a quit_event)
    | inr h ↦ rw (h, idle_key) (go key.code)
  ]
    where
      go :
          (code : KeyCode)
          → Handled a (elim (scroll code (at_zipper z a)) as (λ x. Option (App Line × AppEvent)) [
            | some b ↦ some (b, tick)
            | none ↦ edit_key code (at_zipper z a)
          ])
      go up = (z, record a { chat_scroll = _ }, tick, refl, refl, refl)
      go down = (z, record a { chat_scroll = _ }, tick, refl, refl, refl)
      go page_up = (z, record a { chat_scroll = _ }, tick, refl, refl, refl)
      go page_down = (z, record a { chat_scroll = _ }, tick, refl, refl, refl)
      go end = (z, record a { chat_scroll = _ }, tick, refl, refl, refl)
      go (char c) = edit_key-Handled (char c) z a
      go backspace_key = edit_key-Handled backspace_key z a
      go delete_key = edit_key-Handled delete_key z a
      go left = edit_key-Handled left z a
      go right = edit_key-Handled right z a
      go home = edit_key-Handled home z a
      go enter = edit_key-Handled enter z a
      go esc = edit_key-Handled esc z a
      go other = edit_key-Handled other z a

  awaiting_key-Handled :
      (key : KeyEvent) (z : Zipper) (a : App Line) → Handled a (awaiting_key key (at_zipper z a))
  unfolding awaiting_key
  awaiting_key-Handled key z a = elim (Bool-cases (is_control_char 100 key)) [
    | inl h ↦ rw (h, awaiting_key) (unmoved z a tick)
    | inr h ↦ rw (h, awaiting_key) (edit_key-Handled key.code z a)
  ]

  -- On a state whose input and cursor show a zipper, every key is handled with no panic (the
  -- commands' metadata are never missing, and the cursor never splits a character): the state
  -- shows a zipper again, in the same mode and with the same scrollback.
  pub handle_key-Handled :
      (key : KeyEvent) (z : Zipper) (a : App Line) → Handled a (handle_key key (at_zipper z a))
  unfolding handle_key
  handle_key-Handled key z a = elim (Bool-cases (is_control_char 99 key)) [
    | inl h ↦ rw (h, handle_key) (unmoved z a _)
    | inr h ↦ elim (Bool-cases (is_escape key.code)) [
      | inl k ↦ rw (h, handle_key) (rw (k, handle_key) (unmoved z a _))
      | inr k ↦ rw (h, handle_key) (rw (k, handle_key) (go a.mode))
    ]
  ]
    where
      go :
          (m : AppMode)
          → Handled a (elim m as (λ x. Option (App Line × AppEvent)) [
            | cancelling ↦ some (at_zipper z a, tick)
            | idle ↦ idle_key key (at_zipper z a)
            | awaiting_model ↦ awaiting_key key (at_zipper z a)
          ])
      go cancelling = unmoved z a tick
      go idle = idle_key-Handled key z a
      go awaiting_model = awaiting_key-Handled key z a
