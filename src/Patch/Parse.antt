-- ===== src/Patch/Parse.antt =====
-- `parse_v4a` of crates/hermes-skill-tools/src/tools/files/patch.rs: a patch as a list of operations.
use perry_hermes.Prelude.{
  ℕ, Bool, true, false, ◌||◌, Option, none, some, List, [], ◌∷◌, ◌++◌, Text, codes, text_eq,
  is_empty, lines, trim, trim_start, strip_prefix, ◌==◌, if◌then◌else◌, Result, ok, err,
}

pub data OpKind : Type 0 where
  add update delete move : OpKind

unfoldable pub kind_str : OpKind → Text
kind_str add = codes "add"
kind_str update = codes "update"
kind_str delete = codes "delete"
kind_str move = codes "move"

pub record Hunk : Type 0 where
  pub search : List Text
  pub replace : List Text

pub record V4aOp : Type 0 where
  pub kind : OpKind
  pub path : Text
  pub body : Text
  pub hunks : List Hunk
  pub move_to : Option Text

abbrev pub starts_with : Text → Text → Bool
starts_with p s = elim (strip_prefix p s) [ none ↦ false | some r ↦ true ]

-- `is_v4a_end_marker`
unfoldable pub is_v4a_end_marker : Text → Bool
is_v4a_end_marker trimmed = elim (strip_prefix (codes "*** End") trimmed) [
  | none ↦ false
  | some rest ↦
      starts_with (codes "Patch") (trim_start rest)
      || starts_with (codes "of Patch") (trim_start rest)
]

-- The variables of the loop; `mode` is 0 between operations, 1 before the first hunk and 2 in a
-- body.
pub record Parser : Type 0 where
  pub ops : List V4aOp
  pub current : Option V4aOp
  pub mode : ℕ

-- a line ends the loop, or goes on, or is an error
pub data Step : Type 0 where
  stop : Step
  next : Parser → Step
  fail : Text → Step

abbrev pub new_op : OpKind → Text → V4aOp
new_op kind path = record { kind = kind; path = path; body = []; hunks = []; move_to = none }

-- `ops` with the current operation, if there is one
abbrev pub closed : Parser → List V4aOp
closed p = elim p.current [ none ↦ p.ops | some op ↦ p.ops ++ op ∷ [] ]

abbrev pub open_op : OpKind → ℕ → Text → Parser → Parser
open_op kind mode rest p = record {
  ops = closed p;
  current = some (new_op kind (trim rest));
  mode = mode;
}

abbrev pub with_current : V4aOp → Parser → Parser
with_current op p = record p { current = some op }

-- `*** Move to:`
unfoldable pub move_to_line : Text → Option V4aOp → Parser → Step
move_to_line rest none p = fail (codes "'*** Move to:' must follow a '*** Move File:'")
move_to_line rest (some op) p = elim op.kind as (λ k. Step) [
  | move ↦ next (with_current (record op { move_to = some (trim rest) }) p)
  | _ ↦ fail (codes "'*** Move to:' must follow a '*** Move File:'")
]

-- a line of the body of an added file
unfoldable pub add_line : Text → V4aOp → Parser → Step
add_line line op p = elim (strip_prefix (codes "+") line) [
  | some rest ↦ next (with_current (record op { body = op.body ++ (rest ++ codes "\n") }) p)
  | none ↦
      if is_empty line
      then next (with_current (record op { body = op.body ++ codes "\n" }) p)
      else fail (codes "Add File body lines must start with '+'")
]

-- the change of the last hunk; `none` if there is no hunk
abbrev pub on_last : (Hunk → Hunk) → List Hunk → Option (List Hunk)
on_last f [] = none
on_last f (h ∷ []) = some (f h ∷ [])
on_last f (h ∷ k ∷ hs) = elim (on_last f (k ∷ hs)) [ none ↦ none | some r ↦ some (h ∷ r) ]

abbrev pub keep_line : Text → Hunk → Hunk
keep_line s h = record { search = h.search ++ s ∷ []; replace = h.replace ++ s ∷ [] }

abbrev pub drop_line : Text → Hunk → Hunk
drop_line s h = record h { search = h.search ++ s ∷ [] }

abbrev pub put_line : Text → Hunk → Hunk
put_line s h = record h { replace = h.replace ++ s ∷ [] }

-- what a line does to its hunk; `none` is an error
unfoldable pub hunk_edit : Text → Option (Hunk → Hunk)
hunk_edit [] = some (keep_line [])
hunk_edit (c ∷ rest) =
    if c == 32
    then some (keep_line rest)
    else if c == 45
    then some (drop_line rest)
    else if c == 43
    then some (put_line rest)
    else none

-- a line of a hunk, once there is one
unfoldable pub hunk_line : Text → V4aOp → Parser → Step
unfolding hunk_edit
hunk_line line op p = elim (on_last (λ h. h) op.hunks) [
  | none ↦ fail (codes "Update File hunk lines must follow '@@'")
  | some same ↦ elim (hunk_edit line) [
    | none ↦ fail (codes "Update File hunk lines must start with ' ', '-', or '+'")
    | some f ↦ elim (on_last f op.hunks) [
      | none ↦ fail (codes "Update File hunk lines must follow '@@'")
      | some hunks ↦ next (with_current (record op { hunks = hunks }) p)
    ]
  ]
]

unfoldable pub update_line : Text → Text → V4aOp → Parser → Step
unfolding hunk_line
update_line line trimmed op p =
    if text_eq trimmed (codes "@@")
    then next (record p {
      current = some (record op { hunks = op.hunks ++ record { search = []; replace = [] } ∷ [] });
      mode = 2;
    })
    else if p.mode == 1
    then fail (codes "Update File requires '@@' marker before hunks")
    else hunk_line line op p

-- a line that is no directive
unfoldable pub body_line : Text → Text → Option V4aOp → Parser → Step
unfolding add_line update_line kind_str
body_line line trimmed none p = fail (codes "Unexpected line in patch: " ++ line)
body_line line trimmed (some op) p = elim op.kind as (λ k. Step) [
  | add ↦ add_line line op p
  | update ↦ update_line line trimmed op p
  | kind ↦ fail (codes "Unexpected body line for " ++ (kind_str kind ++ (codes " op: " ++ line)))
]

-- The directives, in the order of the tests.
pub data Directive : Type 0 where
  end_marker : Directive
  opens : OpKind → Text → Directive
  move_to : Text → Directive
  none_of_them : Directive

abbrev pub directive_or : Text → (Text → Directive) → Text → Directive → Directive
directive_or prefix found trimmed rest = elim (strip_prefix prefix trimmed) [
  | none ↦ rest
  | some s ↦ found s
]

unfoldable pub directive : Text → Directive
unfolding is_v4a_end_marker
directive trimmed =
    if is_v4a_end_marker trimmed
    then end_marker
    else directive_or (codes "*** Add File:") (opens add) trimmed (
        directive_or (codes "*** Update File:") (opens update) trimmed (
          directive_or (codes "*** Delete File:") (opens delete) trimmed (
            directive_or (codes "*** Move File:") (opens move) trimmed
              (directive_or (codes "*** Move to:") move_to trimmed none_of_them))))

-- the mode that an operation opens in
abbrev pub mode_of : OpKind → ℕ
mode_of add = 2
mode_of update = 1
mode_of delete = 0
mode_of move = 0

-- one round of the loop
unfoldable pub step : Text → Parser → Step
unfolding directive move_to_line body_line
step line p = elim (directive (trim_start line)) as (λ d. Step) [
  | end_marker ↦ stop
  | opens kind rest ↦ next (open_op kind (mode_of kind) rest p)
  | move_to rest ↦ move_to_line rest p.current p
  | none_of_them ↦ body_line line (trim_start line) p.current p
]

-- the loop
unfoldable pub parse_lines : List Text → Parser → Result Parser Text
unfolding step
parse_lines [] p = ok p
parse_lines (l ∷ ls) p = elim (step l p) as (λ s. Result Parser Text) [
  | stop ↦ ok p
  | next p' ↦ parse_lines ls p'
  | fail e ↦ err e
]

abbrev pub not_empty_ops : List V4aOp → Result (List V4aOp) Text
not_empty_ops [] = err (codes "patch body contained no operations")
not_empty_ops (op ∷ ops) = ok (op ∷ ops)

abbrev pub finished : Result Parser Text → Result (List V4aOp) Text
finished (err e) = err e
finished (ok p) = not_empty_ops (closed p)

-- the lines of a patch, the first of which is the header
unfoldable pub parse_patch : List Text → Result (List V4aOp) Text
unfolding parse_lines
parse_patch [] = err (codes "empty patch body")
parse_patch (header ∷ ls) =
    if starts_with (codes "*** Begin Patch") (trim_start header)
    then finished (parse_lines ls (record { ops = []; current = none; mode = 0 }))
    else err (codes "patch must start with '*** Begin Patch'")

unfoldable pub parse_v4a : Text → Result (List V4aOp) Text
unfolding parse_patch
parse_v4a body = parse_patch (lines body)
