-- ===== src/Patch/Files.antt =====
-- What the patch tool does to files.
use perry_hermes.Prelude.{
  ◌≡◌, refl, ◌∙◌, inl, inr, Bool, Option, none, some, List, Text, is_empty, Result, ok, err,
  Bool-cases,
}
use perry_hermes.Patch.Parse.{update, V4aOp, Hunk}
use perry_hermes.Patch.Hunks.{apply_hunks_to_text}
use perry_hermes.Patch.Applying.{Outcome}
use perry_hermes.Patch.Lines.{TextRewritten, apply_hunks_to_text-Outcome}
use perry_hermes.Patch.Tool.{
  ReadError, not_found, other_error, PatchFiles, refused, Swap, swapped, no_temp, write_failed,
  rename_failed, swap, rename_step, write_step,
}
use perry_hermes.Patch.Ops.{
  Applied, update_swapped, update_with, update_read, apply_update, apply_kind, apply_resolved,
  apply_v4a_op,
}

-- The file system gives back what was written, and a renamed file keeps its text.
pub record IsLawful {F : Type 0} (fs : PatchFiles F) : Type 0 where
  pub read-write : (p t : Text) (f f' : F) → fs.write p t f ≡ (ok tt, f') → fs.read p f' ≡ ok t
  pub read-rename :
      (p q : Text) (f f' : F) → fs.rename p q f ≡ (ok tt, f') → fs.read q f' ≡ fs.read p f

module _ {F : Type 0} (fs : PatchFiles F) (lawful : IsLawful fs) where
  -- A swap that succeeds leaves the new text in the file.
  abbrev pub Swapped : Text → Text → Swap fs → Type 0
  Swapped resolved updated (swapped f) = fs.read resolved f ≡ ok updated
  Swapped resolved updated _ = Unit

  rename_step-reads :
      (tmp resolved updated : Text) (f : F) (o : Result Unit Text × F)
      → fs.read tmp f ≡ ok updated
      → fs.rename tmp resolved f ≡ o
      → Swapped resolved updated (rename_step fs tmp resolved o)
  rename_step-reads tmp resolved updated f (ok u, f') h e =
      lawful.read-rename tmp resolved f f' e ∙ h
  rename_step-reads tmp resolved updated f (err x, f') h e = tt

  write_step-reads :
      (tmp resolved updated : Text) (f : F) (o : Result Unit Text × F)
      → fs.write tmp updated f ≡ o
      → Swapped resolved updated (write_step fs tmp resolved o)
  write_step-reads tmp resolved updated f (ok u, f') e =
      rename_step-reads tmp resolved updated f' (fs.rename tmp resolved f')
        (lawful.read-write tmp updated f f' e) refl
  write_step-reads tmp resolved updated f (err x, f') e = tt

  pub swap-reads :
      (resolved updated : Text) (f : F) → Swapped resolved updated (swap fs resolved updated f)
  unfolding swap
  swap-reads resolved updated f = go (fs.temp_sibling resolved)
    where
      go :
          (o : Result Text Text)
          → Swapped resolved updated (elim o as (λ x. Swap fs) [
            | err msg ↦ no_temp msg
            | ok tmp ↦ write_step fs tmp resolved (fs.write tmp updated f)
          ])
      go (err msg) = tt
      go (ok tmp) = write_step-reads tmp resolved updated f (fs.write tmp updated f) refl

  -- An update ends, and if it is applied the file is read, rewritten by the hunks, and holds the
  -- rewritten text.
  abbrev pub Updated : List Hunk → F → Option (Applied fs) → Type 0
  Updated hunks f none = ⊥
  Updated hunks f (some (err msg, f')) = Unit
  Updated hunks f (some (ok p, f')) =
      (original : Text) × (out : Text) × (fs.read p f ≡ ok original)
      × TextRewritten original hunks out
      × (fs.read p f' ≡ ok out)

  update_swapped-Updated :
      (hunks : List Hunk) (resolved original out : Text) (f : F) (s : Swap fs)
      → fs.read resolved f ≡ ok original
      → TextRewritten original hunks out
      → Swapped resolved out s
      → Updated hunks f (some (update_swapped fs resolved f s))
  update_swapped-Updated hunks resolved original out f (swapped f') r t h = (original, out, r, t, h)
  update_swapped-Updated hunks resolved original out f (no_temp msg) r t h = tt
  update_swapped-Updated hunks resolved original out f (write_failed tmp f' e) r t h = tt
  update_swapped-Updated hunks resolved original out f (rename_failed tmp f' e) r t h = tt

  update_with-Updated :
      (hunks : List Hunk) (resolved original : Text) (f : F) (o : Option (Result Text Text))
      → fs.read resolved f ≡ ok original
      → Outcome (TextRewritten original hunks) o
      → Updated hunks f (update_with fs resolved f o)
  update_with-Updated hunks resolved original f none r h = h
  update_with-Updated hunks resolved original f (some (err msg)) r h = tt
  update_with-Updated hunks resolved original f (some (ok out)) r h =
      update_swapped-Updated hunks resolved original out f (swap fs resolved out f) r h
        (swap-reads resolved out f)

  update_read-Updated :
      (op : V4aOp) (resolved : Text) (f : F) (o : Result Text ReadError)
      → fs.read resolved f ≡ o
      → Updated op.hunks f (update_read fs op resolved f o)
  unfolding update_read
  update_read-Updated op resolved f (ok original) e =
      update_with-Updated op.hunks resolved original f
        (apply_hunks_to_text original op.hunks op.path) e
        (apply_hunks_to_text-Outcome original op.hunks op.path)
  update_read-Updated op resolved f (err not_found) e = tt
  update_read-Updated op resolved f (err (other_error x)) e = tt

  apply_update-Updated :
      (op : V4aOp) (resolved : Text) (f : F) → Updated op.hunks f (apply_update fs op resolved f)
  unfolding apply_update
  apply_update-Updated op resolved f = elim (Bool-cases (is_empty op.hunks)) [
    | inl k ↦ rw (k, apply_update) tt
    | inr k ↦ rw (k, apply_update) (update_read-Updated op resolved f (fs.read resolved f) refl)
  ]

  -- On a lawful file system, an Update operation of a patch ends without a failed `expect`. If it is
  -- reported as applied to a file, then that file could be read before, and holds afterwards the text
  -- that the operation's hunks make of it, with all other lines kept.
  pub apply_v4a_op-Updated :
      (op : V4aOp) (cross : Bool) (f : F)
      → op.kind ≡ update
      → Updated op.hunks f (apply_v4a_op fs op cross f)
  unfolding apply_v4a_op apply_kind
  apply_v4a_op-Updated op cross f kind = go (fs.resolve op.path)
    where
      allowed :
          (resolved : Text) (o : Option Text)
          → Updated op.hunks f (elim o as (λ x. Option (Applied fs)) [
            | some msg ↦ some (err msg, f)
            | none ↦ apply_kind fs op resolved cross f
          ])
      allowed resolved (some msg) = tt
      allowed resolved none = rw (kind, apply_kind) (apply_update-Updated op resolved f)

      go : (o : Result Text Text) → Updated op.hunks f (apply_resolved fs op cross f o)
      go (err e) = tt
      go (ok resolved) = allowed resolved (refused fs op.path resolved cross)
