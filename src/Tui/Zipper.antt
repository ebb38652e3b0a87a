-- ===== src/Tui/Zipper.antt =====
-- The input box as a zipper of characters, with no bytes: what its editing operations promise.
use perry_hermes.Prelude.{
  ℕ, ◌+◌, ◌≡◌, refl, sym, ap, ◌∙◌, Option, none, some, List, [], ◌∷◌, ◌++◌, Text, arith,
  append_assoc, append-nil,
}
use perry_hermes.Utf8.{len_utf8, len, split_at, insert_char, remove_range}
use perry_hermes.Tui.App.{
  App, with_input, insert_at_cursor, delete_before_cursor, delete_at_cursor, move_cursor_left,
  move_cursor_right, move_cursor_home, move_cursor_end, prev_char_boundary, next_char_boundary,
}
use perry_hermes.Tui.Boundary.{prev_char_boundary-start, next_char_boundary-end}
use perry_hermes.Utf8.Offsets.{len_utf8-bounds, split_at-append, remove_range-first}

-- The characters before the cursor, the nearest first, and those after it.
pub record Zipper : Type 0 where
  pub left : Text
  pub right : Text

pub data Edit : Type 0 where
  insert : ℕ → Edit
  backspace delete go_left go_right go_home go_end : Edit

-- The first text, read backwards, before the second.
abbrev pub rev_onto : Text → Text → Text
rev_onto [] r = r
rev_onto (c ∷ l) r = rev_onto l (c ∷ r)

abbrev pub shown : Zipper → Text
shown z = rev_onto z.left z.right

abbrev pub zip_left : Text → Text → Zipper
zip_left [] r = record { left = []; right = r }
zip_left (c ∷ l) r = record { left = l; right = c ∷ r }

abbrev pub zip_right : Text → Text → Zipper
zip_right l [] = record { left = l; right = [] }
zip_right l (c ∷ r) = record { left = c ∷ l; right = r }

abbrev pub drop_one : Text → Text
drop_one [] = []
drop_one (c ∷ s) = s

-- What an edit does to the characters.
abbrev pub zip : Edit → Zipper → Zipper
zip (insert c) z = record z { left = c ∷ z.left }
zip backspace z = record z { left = drop_one z.left }
zip delete z = record z { right = drop_one z.right }
zip go_left z = zip_left z.left z.right
zip go_right z = zip_right z.left z.right
zip go_home z = record { left = []; right = shown z }
zip go_end z = record { left = rev_onto z.right z.left; right = [] }

-- What it does to the state of the interface.
module _ {Line : Type 0} where
  unfoldable pub edit : Edit → App Line → Option (App Line)
  unfolding insert_at_cursor delete_before_cursor delete_at_cursor move_cursor_left
      move_cursor_right
  edit (insert c) a = insert_at_cursor c a
  edit backspace a = delete_before_cursor a
  edit delete a = delete_at_cursor a
  edit go_left a = some (move_cursor_left a)
  edit go_right a = some (move_cursor_right a)
  edit go_home a = some (move_cursor_home a)
  edit go_end a = some (move_cursor_end a)

  -- The state that shows a zipper.
  abbrev pub at_zipper : Zipper → App Line → App Line
  at_zipper z a = record a { input = shown z; cursor = len z.left }

-- The characters before the cursor, in their order.
abbrev before : Text → Text
before l = rev_onto l []

rev_onto-before : (l r : Text) → rev_onto l r ≡ before l ++ r
rev_onto-before [] r = refl
rev_onto-before (c ∷ l) r =
    rev_onto-before l (c ∷ r)
    ∙ sym (append_assoc (before l) (c ∷ []) r)
    ∙ ap (λ z. z ++ r) (sym (rev_onto-before l (c ∷ [])))

len-rev_onto : (l r : Text) → len (rev_onto l r) ≡ len l + len r
len-rev_onto [] r = omega arith
len-rev_onto (c ∷ l) r = omega (arith, len-rev_onto l (c ∷ r))

len-before : (l : Text) → len (before l) ≡ len l
len-before l = omega (arith, len-rev_onto l [])

split_at-shown : (l r : Text) → split_at (rev_onto l r) (len l) ≡ some (before l, r)
split_at-shown l r =
    ap (λ s. split_at s (len l)) (rev_onto-before l r)
    ∙ ap (split_at (before l ++ r)) (sym (len-before l))
    ∙ split_at-append (before l) r

prev-shown :
    (l : Text) (c : ℕ) (r : Text)
    → prev_char_boundary (rev_onto l (c ∷ r)) (len_utf8 c + len l) ≡ len l
prev-shown l c r =
    let at : len_utf8 c + len l ≡ len (before l) + len_utf8 c = omega (arith, len-before l) in
    ap (prev_char_boundary (rev_onto l (c ∷ r))) at
    ∙ ap (λ s. prev_char_boundary s (len (before l) + len_utf8 c)) (rev_onto-before l (c ∷ r))
    ∙ prev_char_boundary-start (before l) c r
    ∙ len-before l

next-shown :
    (l : Text) (c : ℕ) (r : Text)
    → next_char_boundary (rev_onto l (c ∷ r)) (len l) ≡ len_utf8 c + len l
next-shown l c r =
    ap (next_char_boundary (rev_onto l (c ∷ r))) (sym (len-before l))
    ∙ ap (λ s. next_char_boundary s (len (before l))) (rev_onto-before l (c ∷ r))
    ∙ next_char_boundary-end (before l) c r
    ∙ omega (arith, len-before l)

remove-shown :
    (l : Text) (c : ℕ) (r : Text)
    → remove_range (rev_onto l (c ∷ r)) (len l) (len_utf8 c + len l) ≡ some (rev_onto l r)
remove-shown l c r =
    let end : len_utf8 c + len l ≡ len (before l) + len_utf8 c = omega (arith, len-before l) in
    ap (remove_range (rev_onto l (c ∷ r)) (len l)) end
    ∙ ap (λ n. remove_range (rev_onto l (c ∷ r)) n (len (before l) + len_utf8 c))
        (sym (len-before l))
    ∙ ap (λ s. remove_range s (len (before l)) (len (before l) + len_utf8 c))
        (rev_onto-before l (c ∷ r))
    ∙ remove_range-first (before l) c r
    ∙ ap some (sym (rev_onto-before l r))

rev_onto-twice : (r l x : Text) → rev_onto (rev_onto r l) x ≡ rev_onto l (r ++ x)
rev_onto-twice [] l x = refl
rev_onto-twice (c ∷ r) l x = rev_onto-twice r (c ∷ l) x

module _ {Line : Type 0} where
  shown_ext :
      (a : App Line) {s s' : Text} {n n' : ℕ}
      → s ≡ s'
      → n ≡ n'
      → record a { input = s; cursor = n } ≡ record a { input = s'; cursor = n' }
  shown_ext a e k = λ i. record a { input = e i; cursor = k i }

  insert-shown :
      (c : ℕ) (l r : Text) (a : App Line)
      → insert_at_cursor c (at_zipper (record { left = l; right = r }) a)
        ≡ some (at_zipper (record { left = c ∷ l; right = r }) a)
  unfolding insert_at_cursor
  insert-shown c l r a =
      ap
        (λ o.
          with_input (insert_char c o) (len l + len_utf8 c)
            (at_zipper (record { left = l; right = r }) a))
        (split_at-shown l r)
      ∙ ap (λ s. some (record a { input = s; cursor = len l + len_utf8 c }))
          (sym (rev_onto-before l (c ∷ r)))
      ∙ ap (λ n. some (record a { input = rev_onto l (c ∷ r); cursor = n })) (omega arith)

  -- Each editing operation, on a state whose input and cursor show a zipper, ends without a panic
  -- and does to the characters what the edit does to the zipper; the new cursor is again the
  -- length in bytes of what is before it, and nothing else of the state changes.
  pub edit-zip :
      (e : Edit) (z : Zipper) (a : App Line) → edit e (at_zipper z a) ≡ some (at_zipper (zip e z) a)
  unfolding edit delete_before_cursor delete_at_cursor move_cursor_left move_cursor_right
  edit-zip e z a = go e z.left z.right
    where
      go :
          (e : Edit) (l r : Text)
          → edit e (at_zipper (record { left = l; right = r }) a)
            ≡ some (at_zipper (zip e (record { left = l; right = r })) a)
      go (insert c) l r = insert-shown c l r a
      go backspace [] r = refl
      go backspace (c ∷ l) r =
          ground (arith, len_utf8-bounds c, prev-shown l c r, remove-shown l c r)
      go delete l [] = ground (arith, len-rev_onto l [])
      go delete l (c ∷ r) =
          ground
            (arith, len_utf8-bounds c, len-rev_onto l (c ∷ r), next-shown l c r, remove-shown l c r)
      go go_left [] r = refl
      go go_left (c ∷ l) r = ground (arith, len_utf8-bounds c, prev-shown l c r)
      go go_right l [] = ground (arith, len-rev_onto l [])
      go go_right l (c ∷ r) =
          ground (arith, len_utf8-bounds c, len-rev_onto l (c ∷ r), next-shown l c r)
      go go_home l r = refl
      go go_end l r = ap some (
          shown_ext a (sym (ap (rev_onto l) (append-nil r)) ∙ sym (rev_onto-twice r l []))
            (omega (arith, len-rev_onto l r, len-rev_onto r l)))

  -- several edits, one after the other
  unfoldable pub edits : List Edit → App Line → Option (App Line)
  edits [] a = some a
  edits (e ∷ es) a = elim (edit e a) [ none ↦ none | some a' ↦ edits es a' ]

abbrev pub zips : List Edit → Zipper → Zipper
zips [] z = z
zips (e ∷ es) z = zips es (zip e z)

module _ {Line : Type 0} where
  -- After any edits of an input box, whatever characters are typed, there has been no panic, and
  -- the box shows what the edits make of the characters alone.
  pub edits-zips :
      (es : List Edit) (z : Zipper) (a : App Line)
      → edits es (at_zipper z a) ≡ some (at_zipper (zips es z) a)
  unfolding edits
  edits-zips [] z a = refl
  edits-zips (e ∷ es) z a = rw (edit-zip e z a, edits) (edits-zips es (zip e z) a)
