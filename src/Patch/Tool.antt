-- ===== src/Patch/Tool.antt =====
-- The patch tool of crates/hermes-skill-tools/src/tools/files/patch.rs on files: replace_mode,
-- apply_v4a_op and patch_mode. The arguments are those that the JSON object has, and an output is what
-- its JSON text shows. The path policy (policy.rs) and the file system are parameters; a path is its
-- text.
use perry_hermes.Prelude.{
  ℕ, Bool, false, not, ◌&&◌, Option, none, some, List, [], ◌∷◌, ◌++◌, Text, codes, decimal,
  is_empty, ltb, ◌==◌, if◌then◌else◌, Result, ok, err,
}
use perry_hermes.Patch.Hunks.{ends_with_feed}
use perry_hermes.Patch.Replace.{count_from, replace_from, replace_first}

pub data ReadError : Type 0 where
  not_found : ReadError
  other_error : Text → ReadError

-- What the tool calls: the policy on paths, with the working directory in it, and the file system,
-- whose state is `F`.
pub record PatchFiles (F : Type 0) : Type 0 where
  pub resolve : Text → Result Text Text
  pub sensitive : Text → Text → Option Text
  pub cross_profile : Text → Option Text
  pub temp_sibling : Text → Result Text Text
  pub is_status_text : Text → Bool
  pub read : Text → F → Result Text ReadError
  pub write : Text → Text → F → Result Unit Text × F
  pub rename : Text → Text → F → Result Unit Text × F
  pub remove : Text → F → Result Unit ReadError × F
  -- the creation of the parent directory, where it is missing
  pub make_parent : Text → F → Result Unit Text × F
  pub canonicalize : Text → F → Option Text

pub record PatchArgs : Type 0 where
  pub path : Option Text
  pub old_string : Option Text
  pub new_string : Option Text
  pub patch : Option Text
  pub replace_all : Option Bool
  pub cross : Option Bool

-- the outcome of an operation of a patch
pub record OpResult : Type 0 where
  pub op : Text
  pub path : Text
  pub rejected : Option Text

pub data ToolOutput : Type 0 where
  failed : Text → ToolOutput
  failed_hint : Text → Text → ToolOutput
  replaced : Text → Text → Bool → ToolOutput
  patched : Bool → List Text → List OpResult → ToolOutput

abbrev pub or_false : Option Bool → Bool
or_false none = false
or_false (some b) = b

-- `split_inclusive('\n')`
abbrev first_piece : ℕ → List Text → List Text
first_piece c [] = (c ∷ []) ∷ []
first_piece c (l ∷ ls) = (c ∷ l) ∷ ls

abbrev pub split_inclusive : Text → List Text
split_inclusive [] = []
split_inclusive (c ∷ s) =
    let rest = split_inclusive s in if c == 10 then (c ∷ []) ∷ rest else first_piece c rest

abbrev pub diff_lines : ℕ → List Text → Text
diff_lines sign [] = []
diff_lines sign (l ∷ ls) =
    sign ∷ (l ++ ((if ends_with_feed l then [] else codes "\n") ++ diff_lines sign ls))

unfoldable pub render_diff : Text → Text → Text
render_diff original updated =
    codes "--- before\n"
    ++ (codes "+++ after\n"
        ++ (diff_lines 45 (split_inclusive original) ++ diff_lines 43 (split_inclusive updated)))

abbrev pub occurrences : Text → Text → ℕ
occurrences old original = if is_empty old then 0 else count_from old 0 original

abbrev pub multiple_error : ℕ → Text
multiple_error n =
    codes "old_string matches multiple ("
    ++ (decimal n
        ++ codes
            ") locations. Pass replace_all=true to replace all, or include more surrounding context to make the match unique.")

abbrev pub updated_text : Bool → Text → Text → Text → Text
updated_text all old new original =
    if all then replace_from old new 0 original else replace_first old new original

module _ {F : Type 0} (fs : PatchFiles F) where
  -- the checks on a path before it is written
  unfoldable pub refused : Text → Text → Bool → Option Text
  refused path resolved cross = elim (fs.sensitive path resolved) [
    | some msg ↦ some msg
    | none ↦ if cross then none else fs.cross_profile resolved
  ]

  abbrev pub shown_path : Text → F → Text
  shown_path p f = elim (fs.canonicalize p f) [ some c ↦ c | none ↦ p ]

  -- the temporary file that is written and takes the place of the file
  pub data Swap : Type 0 where
    swapped : F → Swap
    no_temp : Text → Swap
    write_failed rename_failed : Text → F → Text → Swap

  abbrev pub rename_step : Text → Text → Result Unit Text × F → Swap
  rename_step tmp resolved (ok u, f) = swapped f
  rename_step tmp resolved (err e, f) = rename_failed tmp f e

  abbrev pub write_step : Text → Text → Result Unit Text × F → Swap
  write_step tmp resolved (err e, f) = write_failed tmp f e
  write_step tmp resolved (ok u, f) = rename_step tmp resolved (fs.rename tmp resolved f)

  unfoldable pub swap : Text → Text → F → Swap
  swap resolved updated f = elim (fs.temp_sibling resolved) as (λ x. Swap) [
    | err msg ↦ no_temp msg
    | ok tmp ↦ write_step tmp resolved (fs.write tmp updated f)
  ]

  -- `replace_mode`, after the arguments are there
  abbrev pub replace_done : Text → Text → Text → Bool → F → Swap → ToolOutput × F
  replace_done resolved original updated all f (swapped f') =
      (replaced (shown_path resolved f') (render_diff original updated) all, f')
  replace_done resolved original updated all f (no_temp msg) = (failed msg, f)
  replace_done resolved original updated all f (write_failed tmp f' e) =
      (failed (codes "Failed to write temp file: " ++ e), (fs.remove tmp f').1)
  replace_done resolved original updated all f (rename_failed tmp f' e) =
      (failed (codes "Atomic rename failed: " ++ e), (fs.remove tmp f').1)

  unfoldable pub replace_text : Text → Text → Text → Text → Bool → F → ToolOutput × F
  unfolding swap
  replace_text resolved original old new all f =
      let n = occurrences old original in
      let updated = updated_text all old new original in
      if n == 0
      then (
        failed_hint
            (codes "old_string not found in file. Re-read the file to confirm current contents.")
            (codes "old_string must match exactly including whitespace and newlines."),
        f,
      )
      else if ltb 1 n && not all
      then (failed (multiple_error n), f)
      else replace_done resolved original updated all f (swap resolved updated f)

  abbrev pub replace_read :
      Text → Text → Text → Text → Bool → F → Result Text ReadError → ToolOutput × F
  replace_read path resolved old new all f (ok original) =
      replace_text resolved original old new all f
  replace_read path resolved old new all f (err not_found) =
      (failed (codes "File not found: " ++ path), f)
  replace_read path resolved old new all f (err (other_error e)) =
      (failed (codes "read failed: " ++ e), f)

  unfoldable pub replace_file : Text → Text → Text → Bool → Bool → F → ToolOutput × F
  unfolding refused replace_text
  replace_file path old new all cross f =
      if fs.is_status_text new
      then (failed (codes "Refusing to write internal read_file status text as file content."), f)
      else elim (fs.resolve path) as (λ x. ToolOutput × F) [
        | err msg ↦ (failed msg, f)
        | ok resolved ↦ elim (refused path resolved cross) as (λ x. ToolOutput × F) [
          | some msg ↦ (failed msg, f)
          | none ↦ replace_read path resolved old new all f (fs.read resolved f)
        ]
      ]

  unfoldable pub replace_mode : PatchArgs → F → ToolOutput × F
  unfolding replace_file
  replace_mode args f = elim args.path as (λ x. ToolOutput × F) [
    | none ↦ (failed (codes "mode='replace' requires 'path'"), f)
    | some path ↦ elim args.old_string as (λ x. ToolOutput × F) [
      | none ↦ (failed (codes "mode='replace' requires 'old_string'"), f)
      | some old ↦ elim args.new_string as (λ x. ToolOutput × F) [
        | none ↦ (failed (codes "mode='replace' requires 'new_string'"), f)
        | some new ↦ replace_file path old new (or_false args.replace_all) (or_false args.cross) f
      ]
    ]
  ]
