-- ===== src/Tui/Rows.antt =====
-- How the input box is laid out in rows.
use perry_hermes.Prelude.{
  ℕ, zero, suc, ◌+◌, ◌-◌, ◌≤◌, ◌<◌, ◌≡◌, refl, ap, ◌∙◌, inl, inr, Bool, false, Option, some, List,
  [], ◌∷◌, ◌++◌, Text, length, length-append, is_empty, ltb, ◌==◌, arith, All, if◌then◌else◌,
  Bool-cases,
}
use perry_hermes.Tui.App.{App}
use perry_hermes.Tui.Layout.{
  prompt, placeholder, split_loop, split_at_display_width, with_row, more_rows, rows_of,
  build_input_lines,
}

abbrev pub concat : List Text → Text
concat [] = []
concat (r ∷ rs) = r ++ concat rs

else_part : {A : Type 0} {b : Bool} (x : A) {y : A} → b ≡ false → (if b then x else y) ≡ y
else_part x h = rw h refl

module _ (width : ℕ → ℕ) (visible_width : Text → ℕ) where
  -- the columns that the characters of a text take
  abbrev pub columns : Text → ℕ
  columns [] = 0
  columns (c ∷ s) = width c + columns s

  split_loop-parts :
      (used max_width : ℕ) (s : Text)
      → used ≤ max_width
      → let cut = split_loop width visible_width used max_width s in
        (cut.0 ++ cut.1 ≡ s) × (used + columns cut.0 ≤ max_width)
  unfolding split_loop
  split_loop-parts used m [] h = (refl, omega (arith, h))
  split_loop-parts used m (c ∷ s) h = elim (Bool-cases (ltb m (used + width c))) [
    | inl k ↦ rw (k, split_loop) (refl, omega (arith, h))
    | inr k ↦
        let (e, n) = split_loop-parts (used + width c) m s (ground (arith, k)) in
        rw (k, split_loop) (ap (◌∷◌ c) e, omega (arith, n))
  ]

  -- A character that fits is taken.
  split_loop-shorter :
      (m c : ℕ) (s : Text)
      → width c ≤ m
      → length (split_loop width visible_width 0 m (c ∷ s)).1 ≤ length s
  unfolding split_loop
  split_loop-shorter m c s h =
      let fits : ltb m (0 + width c) ≡ false = ground (arith, h) in
      let (e, n) = split_loop-parts (0 + width c) m s (omega (arith, h)) in
      let size =
        length-append (split_loop width visible_width (0 + width c) m s).0
          (split_loop width visible_width (0 + width c) m s).1 in
      rw (fits, split_loop) (omega (arith, ap length e, size))

  split-parts :
      (m : ℕ) (s : Text)
      → let cut = split_at_display_width width visible_width s m in
        (cut.0 ++ cut.1 ≡ s) × (columns cut.0 ≤ m)
  unfolding split_at_display_width
  split-parts m s = elim (Bool-cases (m == 0)) [
    | inl k ↦ rw (k, split_at_display_width) (refl, omega arith)
    | inr k ↦
        let (e, n) = split_loop-parts 0 m s (omega arith) in
        rw (k, split_at_display_width) (e, omega (arith, n))
  ]

  module _ (narrow : (c : ℕ) → width c ≤ 2) where
    split-shorter :
        (m c : ℕ) (s : Text)
        → 2 ≤ m
        → length (split_at_display_width width visible_width (c ∷ s) m).1 ≤ length s
    unfolding split_at_display_width
    split-shorter m c s h =
        let some_room : (m == 0) ≡ false = ground (arith, h) in
        rw (some_room, split_at_display_width)
          (split_loop-shorter m c s (omega (arith, narrow c, h)))

    -- rows that hold a text, none wider than the box
    abbrev Rows : Text → ℕ → Option (List Text) → Type 0
    Rows s inner_w o =
        (rows : List Text) × (o ≡ some rows)
        × (concat rows ≡ s)
        × All (λ r. columns r ≤ inner_w) rows

    more_rows-Rows :
        (fuel inner_w : ℕ) (s : Text)
        → 2 ≤ inner_w
        → length s ≤ fuel
        → Rows s inner_w (more_rows width visible_width fuel inner_w s)
    unfolding more_rows
    more_rows-Rows fuel w [] h n = ([], refl, refl, tt)
    more_rows-Rows zero w (c ∷ s) h n = absurd (omega (arith, n))
    more_rows-Rows (suc fuel) w (c ∷ s) h n =
        let (e, fits) = split-parts w (c ∷ s) in
        let shorter = split-shorter w c s h in
        let (rows, f, g, all) =
          more_rows-Rows fuel w (split_at_display_width width visible_width (c ∷ s) w).1 h
            (omega (arith, shorter, n)) in
        (
          (split_at_display_width width visible_width (c ∷ s) w).0 ∷ rows,
          rw (f, more_rows) refl,
          ap (λ t. (split_at_display_width width visible_width (c ∷ s) w).0 ++ t) g ∙ e,
          (fits, all),
        )

    rows_of-lem :
        (s : Text) (inner_w : ℕ)
        → 2 ≤ inner_w
        → visible_width prompt < inner_w
        → (first : Text) × (rows : List Text) × (rows_of width visible_width s inner_w
            ≡ some (first ∷ rows))
          × (first ++ concat rows ≡ s)
          × (visible_width prompt + columns first ≤ inner_w)
          × All (λ r. columns r ≤ inner_w) rows
    unfolding rows_of
    rows_of-lem s w h room =
        let first_w = w - visible_width prompt in
        let some_room : (first_w == 0) ≡ false = ground (arith, room) in
        let (e, fits) = split-parts first_w s in
        let cut = split_at_display_width width visible_width s first_w in
        let (rows, f, g, all) = more_rows-Rows (length cut.1) w cut.1 h (omega arith) in
        (
          cut.0,
          rows,
          else_part (some ([] ∷ [])) some_room ∙ ap (with_row cut.0) f,
          ap (λ t. cut.0 ++ t) g ∙ e,
          omega (arith, fits, room),
          all,
        )

    -- what the box shows
    abbrev pub shown_text : {Line : Type 0} → App Line → Text
    shown_text a = if is_empty a.input then placeholder else a.input

    -- In a box at least two columns wide and wider than the prompt, on a terminal whose characters take
    -- at most two columns, the loop over the rows ends. The rows, one after the other, hold the whole
    -- input, or the placeholder if it is empty, and none is wider than the box; the first one leaves
    -- room for the prompt.
    pub build_input_lines-rows :
        {Line : Type 0} (a : App Line) (inner_w : ℕ)
        → 2 ≤ inner_w
        → visible_width prompt < inner_w
        → (first : Text) × (rows : List Text) × (build_input_lines width visible_width a inner_w
            ≡ some (first ∷ rows))
          × (first ++ concat rows ≡ shown_text a)
          × (visible_width prompt + columns first ≤ inner_w)
          × All (λ r. columns r ≤ inner_w) rows
    unfolding build_input_lines
    build_input_lines-rows a w h room = elim (Bool-cases (is_empty a.input)) [
      | inl k ↦ rw (k, build_input_lines) (rows_of-lem placeholder w h room)
      | inr k ↦ rw (k, build_input_lines) (rows_of-lem a.input w h room)
    ]
