-- ===== src/Patch/Ops.antt =====
-- The operations of a patch on files: apply_v4a_op and patch_mode of patch.rs. An inner `none` stands
-- for the failed `expect` of apply_hunks_to_text, which never happens.
use perry_hermes.Prelude.{
  Bool, true, false, Option, none, some, List, [], ◌∷◌, ◌++◌, Text, codes, text_eq, is_empty,
  if◌then◌else◌, Result, ok, err,
}
use perry_hermes.Patch.Parse.{add, update, delete, move, V4aOp, kind_str, parse_v4a}
use perry_hermes.Patch.Hunks.{apply_hunks_to_text}
use perry_hermes.Patch.Tool.{
  ReadError, not_found, other_error, PatchFiles, PatchArgs, OpResult, ToolOutput, failed, patched,
  or_false, refused, shown_path, Swap, swapped, no_temp, write_failed, rename_failed, swap,
  replace_mode,
}

-- what the loop of `patch_mode` has gathered
abbrev pub contains : Text → List Text → Bool
contains p [] = false
contains p (q ∷ qs) = if text_eq q p then true else contains p qs

abbrev pub add_modified : Text → List Text → List Text
add_modified p ps = if is_empty p then ps else if contains p ps then ps else ps ++ p ∷ []

pub record Gathered : Type 0 where
  pub results : List OpResult
  pub files_modified : List Text

abbrev pub result_of : V4aOp → Option Text → OpResult
result_of op rejected = record { op = kind_str op.kind; path = op.path; rejected = rejected }

abbrev pub all_applied : List OpResult → Bool
all_applied [] = true
all_applied (r ∷ rs) = elim r.rejected as (λ x. Bool) [ none ↦ all_applied rs | some msg ↦ false ]

module _ {F : Type 0} (fs : PatchFiles F) where
  abbrev pub Applied : Type 0
  Applied = Result Text Text × F

  -- `Add`
  abbrev pub written : Text → Result Unit Text × F → Applied
  written resolved (err e, f) = (err (codes "failed to write file: " ++ e), f)
  written resolved (ok u, f) = (ok resolved, f)

  abbrev pub write_added : Text → Text → Result Unit Text × F → Applied
  write_added resolved body (err e, f) = (err (codes "failed to create parent dir: " ++ e), f)
  write_added resolved body (ok u, f) = written resolved (fs.write resolved body f)

  -- `Update`
  abbrev pub update_swapped : Text → F → Swap fs → Applied
  update_swapped resolved f (swapped f') = (ok resolved, f')
  update_swapped resolved f (no_temp msg) = (err msg, f)
  update_swapped resolved f (write_failed tmp f' e) =
      (err (codes "failed to write temp file: " ++ e), f')
  update_swapped resolved f (rename_failed tmp f' e) =
      (err (codes "atomic rename failed: " ++ e), f')

  abbrev pub update_with : Text → F → Option (Result Text Text) → Option Applied
  update_with resolved f none = none
  update_with resolved f (some (err msg)) = some (err msg, f)
  update_with resolved f (some (ok updated)) =
      some (update_swapped resolved f (swap fs resolved updated f))

  unfoldable pub update_read : V4aOp → Text → F → Result Text ReadError → Option Applied
  update_read op resolved f (ok original) =
      update_with resolved f (apply_hunks_to_text original op.hunks op.path)
  update_read op resolved f (err not_found) =
      some (err (codes "Update target file not found: " ++ op.path), f)
  update_read op resolved f (err (other_error e)) = some (err (codes "read failed: " ++ e), f)

  unfoldable pub apply_update : V4aOp → Text → F → Option Applied
  unfolding update_read
  apply_update op resolved f =
      if is_empty op.hunks
      then some (err (codes "Update File has no hunks (missing '@@' marker)"), f)
      else update_read op resolved f (fs.read resolved f)

  -- `Delete`: a file that is not there is deleted
  abbrev pub removed : Text → Result Unit ReadError × F → Applied
  removed resolved (ok u, f) = (ok resolved, f)
  removed resolved (err not_found, f) = (ok resolved, f)
  removed resolved (err (other_error e), f) = (err (codes "failed to delete file: " ++ e), f)

  -- `Move`
  abbrev pub moved : Text → Result Unit Text × F → Applied
  moved dest (err e, f) = (err (codes "failed to move file: " ++ e), f)
  moved dest (ok u, f) = (ok dest, f)

  abbrev pub move_with_parent : Text → Text → Result Unit Text × F → Applied
  move_with_parent resolved dest (err e, f) =
      (err (codes "failed to create destination dir: " ++ e), f)
  move_with_parent resolved dest (ok u, f) = moved dest (fs.rename resolved dest f)

  abbrev pub move_to_path : Text → Text → Bool → F → Result Text Text → Applied
  move_to_path resolved dest cross f (err e) =
      (err (codes "destination path resolution failed: " ++ e), f)
  move_to_path resolved dest cross f (ok dest_path) =
      elim (refused fs dest dest_path cross) as (λ x. Applied) [
        | some msg ↦ (err msg, f)
        | none ↦ move_with_parent resolved dest_path (fs.make_parent dest_path f)
      ]

  unfoldable pub apply_move : V4aOp → Text → Bool → F → Applied
  apply_move op resolved cross f = elim op.move_to as (λ x. Applied) [
    | none ↦ (err (codes "Move op requires '*** Move to:'"), f)
    | some dest ↦ move_to_path resolved dest cross f (fs.resolve dest)
  ]

  -- the operation on a path that may be written
  unfoldable pub apply_kind : V4aOp → Text → Bool → F → Option Applied
  unfolding apply_update apply_move
  apply_kind op resolved cross f = elim op.kind as (λ k. Option Applied) [
    | add ↦ some (write_added resolved op.body (fs.make_parent resolved f))
    | update ↦ apply_update op resolved f
    | delete ↦ some (removed resolved (fs.remove resolved f))
    | move ↦ some (apply_move op resolved cross f)
  ]

  abbrev pub apply_resolved : V4aOp → Bool → F → Result Text Text → Option Applied
  apply_resolved op cross f (err e) = some (err (codes "path resolution failed: " ++ e), f)
  apply_resolved op cross f (ok resolved) =
      elim (refused fs op.path resolved cross) as (λ x. Option Applied) [
        | some msg ↦ some (err msg, f)
        | none ↦ apply_kind op resolved cross f
      ]

  unfoldable pub apply_v4a_op : V4aOp → Bool → F → Option Applied
  unfolding apply_kind
  apply_v4a_op op cross f = apply_resolved op cross f (fs.resolve op.path)

  unfoldable pub record_op : V4aOp → Applied → Gathered → Gathered
  record_op op (ok p, f) r = record {
    results = r.results ++ result_of op none ∷ [];
    files_modified = add_modified (shown_path fs p f) r.files_modified;
  }
  record_op op (err msg, f) r = record r { results = r.results ++ result_of op (some msg) ∷ [] }

  unfoldable pub apply_ops : List V4aOp → Bool → Gathered → F → Option (Gathered × F)
  unfolding apply_v4a_op record_op
  apply_ops [] cross r f = some (r, f)
  apply_ops (op ∷ ops) cross r f = elim (apply_v4a_op op cross f) as (λ x. Option (Gathered × F)) [
    | none ↦ none
    | some applied ↦ apply_ops ops cross (record_op op applied r) applied.1
  ]

  abbrev pub reported : Option (Gathered × F) → Option (ToolOutput × F)
  reported none = none
  reported (some (r, f)) = some (patched (all_applied r.results) r.files_modified r.results, f)

  unfoldable pub patch_mode : PatchArgs → F → Option (ToolOutput × F)
  unfolding apply_ops
  patch_mode args f = elim args.patch as (λ x. Option (ToolOutput × F)) [
    | none ↦ some (failed (codes "mode='patch' requires 'patch'"), f)
    | some body ↦ elim (parse_v4a body) as (λ x. Option (ToolOutput × F)) [
      | err e ↦ some (failed e, f)
      | ok ops ↦
          reported
            (apply_ops ops (or_false args.cross) (record { results = []; files_modified = [] }) f)
    ]
  ]

  unfoldable pub execute : Option Text → PatchArgs → F → Option (ToolOutput × F)
  unfolding patch_mode replace_mode
  execute none args f = some (failed (codes "missing 'mode'"), f)
  execute (some mode) args f =
      let in_patch_mode = patch_mode args f in
      if text_eq mode (codes "replace")
      then some (replace_mode fs args f)
      else if text_eq mode (codes "patch")
      then in_patch_mode
      else some (
        failed
            (codes "Unknown patch mode '" ++ (mode ++ codes "'. Expected 'replace' or 'patch'.")),
        f,
      )
