-- ===== src/Patch/RoundTrip.antt =====
-- What is read back from a printed patch.
use perry_hermes.Prelude.{
  ℕ, ◌≡◌, refl, sym, ap, ◌∙◌, none, some, List, [], ◌∷◌, ◌++◌, map, append_assoc, append-nil, Text,
  codes, All, trim, ok,
}
use perry_hermes.Patch.Parse.{
  OpKind, add, update, delete, move, Hunk, V4aOp, Parser, Step, on_last, keep_line, drop_line,
  put_line, hunk_edit, hunk_line, update_line, add_line, body_line, move_to_line, closed, step,
  parse_lines, parse_patch, finished, not_empty_ops,
}
use perry_hermes.Patch.Printing.{
  HunkLine, Section, print_hunk_line, print_hunks, print_section, print_sections, print_patch,
  add_hunk_line, add_hunk_lines, hunk_of, unlines, op_of, IsPlain, IsPrintable, keep, drop, put,
  add_file, update_file, delete_file, move_file,
}

on_last-append :
    (f : Hunk → Hunk) (hs : List Hunk) (h : Hunk) → on_last f (hs ++ h ∷ []) ≡ some (hs ++ f h ∷ [])
on_last-append f [] h = refl
on_last-append f (g ∷ []) h = refl
on_last-append f (g ∷ k ∷ hs) h = rw (on_last-append f (k ∷ hs) h, on_last) refl

-- the state in the body of an updated file
abbrev updating : List V4aOp → Text → List Hunk → ℕ → Parser
updating ops path hs mode = record {
  ops = ops;
  current = some (record { kind = update; path = path; body = []; hunks = hs; move_to = none });
  mode = mode;
}

hunk_line-edit :
    (line : Text) (f : Hunk → Hunk) (ops : List V4aOp) (path : Text) (hs : List Hunk) (h : Hunk)
    → hunk_edit line ≡ some f
    → hunk_line line
        (record { kind = update; path = path; body = []; hunks = hs ++ h ∷ []; move_to = none })
        (updating ops path (hs ++ h ∷ []) 2)
      ≡ Step.next (updating ops path (hs ++ f h ∷ []) 2)
unfolding hunk_line
hunk_line-edit line f ops path hs h e =
    rw (on_last-append (λ x. x) hs h, hunk_line)
      (rw (e, hunk_line) (rw (on_last-append f hs h, hunk_line) refl))

step-hunk_line :
    (l : HunkLine) (ops : List V4aOp) (path : Text) (hs : List Hunk) (h : Hunk)
    → IsPlain l
    → step (print_hunk_line l) (updating ops path (hs ++ h ∷ []) 2)
      ≡ Step.next (updating ops path (hs ++ add_hunk_line l h ∷ []) 2)
unfolding step body_line update_line hunk_edit
step-hunk_line (keep l) ops path hs h plain =
    rw (plain.0, step)
      (rw (plain.1, update_line) (hunk_line-edit (32 ∷ l) (keep_line l) ops path hs h refl))
step-hunk_line (drop l) ops path hs h plain =
    hunk_line-edit (45 ∷ l) (drop_line l) ops path hs h refl
step-hunk_line (put l) ops path hs h plain = hunk_line-edit (43 ∷ l) (put_line l) ops path hs h refl

parse_lines-next :
    (l : Text) (ls : List Text) (p p' : Parser)
    → step l p ≡ Step.next p'
    → parse_lines (l ∷ ls) p ≡ parse_lines ls p'
unfolding parse_lines
parse_lines-next l ls p p' e = rw (e, parse_lines) refl

parse-hunk_lines :
    (ls : List HunkLine) (rest : List Text) (ops : List V4aOp) (path : Text) (hs : List Hunk)
    (h : Hunk)
    → All IsPlain ls
    → parse_lines (map print_hunk_line ls ++ rest) (updating ops path (hs ++ h ∷ []) 2)
      ≡ parse_lines rest (updating ops path (hs ++ add_hunk_lines ls h ∷ []) 2)
unfolding parse_lines
parse-hunk_lines [] rest ops path hs h a = refl
parse-hunk_lines (l ∷ ls) rest ops path hs h a =
    rw (step-hunk_line l ops path hs h a.0, parse_lines)
      (parse-hunk_lines ls rest ops path hs (add_hunk_line l h) a.1)

step-hunk_start :
    (ops : List V4aOp) (path : Text) (hs : List Hunk) (mode : ℕ)
    → step (codes "@@") (updating ops path hs mode)
      ≡ Step.next (updating ops path (hs ++ record { search = []; replace = [] } ∷ []) 2)
unfolding step body_line update_line
step-hunk_start ops path hs mode = refl

-- the mode after hunks
abbrev hunks_mode : ℕ → List (List HunkLine) → ℕ
hunks_mode mode [] = mode
hunks_mode mode (h ∷ hs) = 2

hunks_mode-same : (ls : List (List HunkLine)) → hunks_mode 2 ls ≡ 2
hunks_mode-same [] = refl
hunks_mode-same (l ∷ ls) = refl

updating_ext :
    (ops : List V4aOp) (path : Text) {hs hs' : List Hunk} {m m' : ℕ}
    → hs ≡ hs'
    → m ≡ m'
    → updating ops path hs m ≡ updating ops path hs' m'
updating_ext ops path e k = λ i. updating ops path (e i) (k i)

parse-hunks :
    (ls : List (List HunkLine)) (rest : List Text) (ops : List V4aOp) (path : Text) (hs : List Hunk)
    (mode : ℕ)
    → All (All IsPlain) ls
    → parse_lines (print_hunks ls ++ rest) (updating ops path hs mode)
      ≡ parse_lines rest (updating ops path (hs ++ map hunk_of ls) (hunks_mode mode ls))
unfolding parse_lines
parse-hunks [] rest ops path hs mode a =
    ap (λ z. parse_lines rest (updating ops path z mode)) (sym (append-nil hs))
parse-hunks (l ∷ ls) rest ops path hs mode a =
    ap (λ z. parse_lines z (updating ops path hs mode))
      (ap (λ z. codes "@@" ∷ z) (append_assoc (map print_hunk_line l) (print_hunks ls) rest))
    ∙ parse_lines-next (codes "@@") (map print_hunk_line l ++ (print_hunks ls ++ rest))
        (updating ops path hs mode)
        (updating ops path (hs ++ record { search = []; replace = [] } ∷ []) 2)
        (step-hunk_start ops path hs mode)
    ∙ (parse-hunk_lines l (print_hunks ls ++ rest) ops path hs
        (record { search = []; replace = [] }) a.0)
    ∙ parse-hunks ls rest ops path (hs ++ hunk_of l ∷ []) 2 a.1
    ∙ ap (parse_lines rest) (
        updating_ext ops path (append_assoc hs (hunk_of l ∷ []) (map hunk_of ls))
          (hunks_mode-same ls))

-- the state in the body of an added file
abbrev adding : List V4aOp → Text → Text → Parser
adding ops path body = record {
  ops = ops;
  current = some (record { kind = add; path = path; body = body; hunks = []; move_to = none });
  mode = 2;
}

step-add_line :
    (l : Text) (ops : List V4aOp) (path body : Text)
    → step (43 ∷ l) (adding ops path body) ≡ Step.next (adding ops path (body ++ (l ++ codes "\n")))
unfolding step body_line add_line
step-add_line l ops path body = refl

parse-add_lines :
    (ls rest : List Text) (ops : List V4aOp) (path body : Text)
    → parse_lines (map (λ l. 43 ∷ l) ls ++ rest) (adding ops path body)
      ≡ parse_lines rest (adding ops path (body ++ unlines ls))
parse-add_lines [] rest ops path body =
    ap (λ b. parse_lines rest (adding ops path b)) (sym (append-nil body))
parse-add_lines (l ∷ ls) rest ops path body =
    parse_lines-next (43 ∷ l) (map (λ x. 43 ∷ x) ls ++ rest) (adding ops path body)
      (adding ops path (body ++ (l ++ codes "\n"))) (step-add_line l ops path body)
    ∙ parse-add_lines ls rest ops path (body ++ (l ++ codes "\n"))
    ∙ ap (λ b. parse_lines rest (adding ops path b))
        (append_assoc body (l ++ codes "\n") (unlines ls)
          ∙ ap (λ z. body ++ z) (append_assoc l (codes "\n") (unlines ls)))

-- The state after a section.
abbrev mode_after : Section → ℕ
mode_after (add_file path ls) = 2
mode_after (update_file path hs) = hunks_mode 1 hs
mode_after (delete_file path) = 0
mode_after (move_file path dest) = 0

abbrev after : Section → Parser → Parser
after s p = record { ops = closed p; current = some (op_of s); mode = mode_after s }

-- the state after the line that opens an operation
abbrev opened : OpKind → ℕ → Text → Parser → Parser
opened kind mode path p = record {
  ops = closed p;
  current = some (record { kind = kind; path = path; body = []; hunks = []; move_to = none });
  mode = mode;
}

open_path :
    (kind : OpKind) (mode : ℕ) (path : Text) (p : Parser)
    → trim path ≡ path
    → Step.next (opened kind mode (trim (32 ∷ path)) p) ≡ Step.next (opened kind mode path p)
open_path kind mode path p h = ap (λ x. Step.next (opened kind mode x p)) h

parse-section :
    (s : Section) (rest : List Text) (p : Parser)
    → IsPrintable s
    → parse_lines (print_section s ++ rest) p ≡ parse_lines rest (after s p)
unfolding step move_to_line
parse-section (add_file path ls) rest p h =
    parse_lines-next _ (map (λ x. 43 ∷ x) ls ++ rest) p (opened add 2 path p)
      (open_path add 2 path p h)
    ∙ parse-add_lines ls rest (closed p) path []
parse-section (update_file path hs) rest p h =
    parse_lines-next _ (print_hunks hs ++ rest) p (opened update 1 path p)
      (open_path update 1 path p h.0)
    ∙ parse-hunks hs rest (closed p) path [] 1 h.1
parse-section (delete_file path) rest p h =
    parse_lines-next _ rest p (opened delete 0 path p) (open_path delete 0 path p h)
parse-section (move_file path dest) rest p h =
    parse_lines-next _ ((codes "*** Move to: " ++ dest) ∷ rest) p (opened move 0 path p)
      (open_path move 0 path p h.0)
    ∙ parse_lines-next _ rest (opened move 0 path p) (after (move_file path dest) p)
        (ap (λ d. Step.next (after (move_file path d) p)) h.1)

parse-sections :
    (ss : List Section) (p : Parser)
    → All IsPrintable ss
    → (q : Parser) × (parse_lines (print_sections ss) p ≡ ok q)
      × (closed q ≡ closed p ++ map op_of ss)
unfolding parse_lines step
parse-sections [] p a = (p, refl, sym (append-nil (closed p)))
parse-sections (s ∷ ss) p a =
    let (q, e, c) = parse-sections ss (after s p) a.1 in
    (
      q,
      parse-section s (print_sections ss) p a.0 ∙ e,
      c ∙ append_assoc (closed p) (op_of s ∷ []) (map op_of ss),
    )

-- A patch that is printed from at least one section, with trimmed paths and no kept line that looks
-- like a directive or the start of a hunk, parses to the operations of its sections, in order.
pub parse_patch-print_patch :
    (s : Section) (ss : List Section)
    → All IsPrintable (s ∷ ss)
    → parse_patch (print_patch (s ∷ ss)) ≡ ok (map op_of (s ∷ ss))
unfolding parse_patch
parse_patch-print_patch s ss a =
    let (q, e, c) = parse-sections (s ∷ ss) (record { ops = []; current = none; mode = 0 }) a in
    ap finished e ∙ ap not_empty_ops c
