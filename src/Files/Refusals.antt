-- ===== src/Files/Refusals.antt =====
-- What the file tools refuse to write.
use perry_hermes.Prelude.{
  ◌≡◌, refl, Bool, true, false, ◌||◌, some, List, [], ◌∷◌, ◌++◌, Text, strip_prefix, arith, ◌==◌,
  ok, err,
}
use perry_hermes.Patch.Parse.{V4aOp}
use perry_hermes.Patch.Tool.{PatchFiles, refused}
use perry_hermes.Patch.Ops.{apply_v4a_op}
use perry_hermes.Files.Policy.{
  Env, resolve_user_path, normalize_path_string, has_path_prefix, prefix_blocked, any_prefix,
  sensitive_write_path_message, cross_profile_write_message, is_internal_file_status_text,
}

-- The patch tool with this policy, on any file system.
abbrev pub guarded : {F : Type 0} → Env → PatchFiles F → PatchFiles F
guarded env fs = record fs {
  resolve = resolve_user_path env;
  sensitive = sensitive_write_path_message env;
  cross_profile = cross_profile_write_message env;
  is_status_text = is_internal_file_status_text;
}

-- Where a path stands in a list.
pub data In (p : Text) : List Text → Type 0 where
  here : (ps : List Text) → In p (p ∷ ps)
  there : (q : Text) (ps : List Text) → In p ps → In p (q ∷ ps)

strip_prefix-append : (p s : Text) → strip_prefix p (p ++ s) ≡ some s
strip_prefix-append [] s = refl
strip_prefix-append (c ∷ p) s =
    let same : (c == c) ≡ true = ground arith in rw same (strip_prefix-append p s)

or_true : (b : Bool) → (b || true) ≡ true
or_true true = refl
or_true false = refl

has_path_prefix-below : (p rest : Text) → has_path_prefix (p ++ 47 ∷ rest) p ≡ true
unfolding has_path_prefix
has_path_prefix-below p rest = rw (strip_prefix-append p (47 ∷ rest), has_path_prefix) (or_true _)

any_prefix-below :
    (a p rest : Text) {ps : List Text} → In p ps → any_prefix a (p ++ 47 ∷ rest) ps ≡ true
unfolding any_prefix
any_prefix-below a p rest (here ps) =
    rw (has_path_prefix-below p rest, any_prefix) (rw (or_true (has_path_prefix a p)) refl)
any_prefix-below a p rest (there q ps i) = rw (any_prefix-below a p rest i, any_prefix) (or_true _)

-- An operation of a patch whose path resolves to one below a blocked directory is refused, with or
-- without cross_profile, and leaves the files as they are.
pub apply_v4a_op-blocked :
    {F : Type 0} (env : Env) (fs : PatchFiles F) (op : V4aOp) (cross : Bool) (f : F) (p rest : Text)
    → In p prefix_blocked
    → resolve_user_path env op.path ≡ ok (p ++ 47 ∷ rest)
    → (msg : Text) × (apply_v4a_op (guarded env fs) op cross f ≡ some (err msg, f))
unfolding apply_v4a_op refused sensitive_write_path_message
apply_v4a_op-blocked env fs op cross f p rest i e =
    let blocked = any_prefix-below (normalize_path_string env op.path) p rest i in
    rw (e, apply_v4a_op)
      (rw (blocked, refused, sensitive_write_path_message) (rw (or_true _) (_, refl)))
