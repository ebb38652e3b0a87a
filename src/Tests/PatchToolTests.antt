-- ===== src/Tests/PatchToolTests.antt =====
-- The patch tool on files in memory.
use perry_hermes.Prelude.{
  ◌↔◌, All, true, Bool, ◌≡◌, refl, sym, ap, ◌∙◌, false, Option, none, some, List, [], ◌∷◌, ◌++◌,
  Text, codes, Result, ok, err,
}
use perry_hermes.Maps.{get, put, remove, get-put}
use perry_hermes.Patch.Parse.{V4aOp, update, delete, parse_v4a}
use perry_hermes.Patch.Tool.{
  or_false, ReadError, not_found, PatchFiles, PatchArgs, OpResult, patched, replace_file,
}
use perry_hermes.Patch.Ops.{apply_v4a_op, patch_mode}
use perry_hermes.Patch.Files.{IsLawful, Updated, apply_v4a_op-Updated}
use perry_hermes.Patch.Replacing.{ReplacesAt, replace_file-ReplacesAt}
use perry_hermes.Patch.Report.{Logged, NoDup, patch_mode-report}

abbrev Disk : Type 0
Disk = List (Text × Text)

abbrev as_read : Option Text → Result Text ReadError
as_read none = err not_found
as_read (some t) = ok t

abbrev renamed : Text → Text → Disk → Option Text → Result Unit Text × Disk
renamed p q f none = (err (codes "no such file"), f)
renamed p q f (some t) = (ok tt, put q t (remove p f))

abbrev pub disk : PatchFiles Disk
disk = record {
  resolve = λ p. ok p;
  sensitive = λ p q. none;
  cross_profile = λ p. none;
  temp_sibling = λ p. ok (p ++ codes ".tmp");
  is_status_text = λ t. false;
  read = λ p f. as_read (get p f);
  write = λ p t f. (ok tt, put p t f);
  rename = λ p q f. renamed p q f (get p f);
  remove = λ p f. (ok tt, remove p f);
  make_parent = λ p f. (ok tt, f);
  canonicalize = λ p f. none;
}

rename-read :
    (p q : Text) (f f' : Disk) (o : Option Text)
    → renamed p q f o ≡ (ok tt, f')
    → as_read (get q f') ≡ as_read o
rename-read p q f f' none h = absurd (cc)
rename-read p q f f' (some t) h =
    ap (λ r. as_read (get q r.1)) (sym h) ∙ ap as_read (get-put q t (remove p f))

disk-IsLawful : IsLawful disk
disk-IsLawful = record {
  read-write = λ p t f f' h. ap (λ r. as_read (get p r.1)) (sym h) ∙ ap as_read (get-put p t f);
  read-rename = λ p q f f' h. rename-read p q f f' (get p f) h;
}

abbrev pub files : Disk
files = (codes "f", codes "a\nb\n") ∷ []

abbrev change : V4aOp
change = record {
  kind = update;
  path = codes "f";
  body = [];
  hunks = record { search = codes "a" ∷ []; replace = codes "c" ∷ [] } ∷ [];
  move_to = none;
}

apply_v4a_op-Updated_example :
    Updated disk disk-IsLawful change.hunks files (apply_v4a_op disk change false files)
apply_v4a_op-Updated_example = apply_v4a_op-Updated disk disk-IsLawful change false files refl

replace_file-ReplacesAt_example :
    ReplacesAt disk disk-IsLawful
      (codes "f")
      (codes "a")
      (codes "bb")
      false
      files
      (replace_file disk (codes "f") (codes "a") (codes "bb") false false files)
replace_file-ReplacesAt_example =
    replace_file-ReplacesAt disk disk-IsLawful (codes "f") (codes "a") (codes "bb") false false
      files

abbrev two_ops : Text
two_ops = codes "*** Begin Patch\n*** Delete File: g\n*** Update File: f\n@@\n-a\n+c\n*** End Patch"

abbrev pub deletion : V4aOp
deletion = record { kind = delete; path = codes "g"; body = []; hunks = []; move_to = none }

abbrev args : PatchArgs
args = record {
  path = none;
  old_string = none;
  new_string = none;
  patch = some two_ops;
  replace_all = none;
  cross = none;
}

patch_mode-report_example :
    (f' : Disk) × (modified : List Text) × (rs : List OpResult) × (success : Bool) × (patch_mode
        disk args files
      ≡ some (patched success modified rs, f'))
    × Logged disk (or_false args.cross) (deletion ∷ change ∷ []) files rs f'
    × ((success ≡ true) ↔ All (λ x. x.rejected ≡ none) rs)
    × NoDup modified
unfolding parse_v4a
patch_mode-report_example =
    patch_mode-report disk args two_ops (deletion ∷ change ∷ []) files refl refl

-- The patched file holds the new line.
abbrev after_patch : Option (Result Text ReadError)
after_patch = elim (patch_mode disk args files) as (λ x. Option (Result Text ReadError)) [
  | none ↦ none
  | some (out, f) ↦ some (disk.read (codes "f") f)
]

patched_file : after_patch ≡ some (ok (codes "c\nb\n"))
unfolding patch_mode parse_v4a perry_hermes.Patch.Tool.refused get remove
    perry_hermes.Patch.Hunks.apply_hunks_to_text perry_hermes.Patch.Hunks.apply_hunk
    perry_hermes.Patch.Hunks.count_subsequence perry_hermes.Patch.Hunks.find_subsequence
    perry_hermes.Patch.Hunks.lines_start perry_hermes.Patch.Tool.swap put
patched_file = refl
