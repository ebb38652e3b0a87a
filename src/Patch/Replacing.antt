-- ===== src/Patch/Replacing.antt =====
-- What `replace_mode` of the patch tool does to a file.
use perry_hermes.Prelude.{
  All, ℕ, ◌≡◌, ◌<◌, refl, sym, ap, ◌∙◌, ◌⊎◌, inl, inr, Bool, true, false, not, ◌&&◌, Option, none,
  some, List, [], ◌∷◌, Text, join, length, ltb, ◌==◌, arith, Result, ok, err, Bool-cases,
}
use perry_hermes.Patch.Replace.{IsFree, count_from, replace_from, cut, replace_first-once}
use perry_hermes.Patch.Tool.{
  ReadError, not_found, other_error, PatchFiles, ToolOutput, failed, failed_hint, replaced, patched,
  refused, Swap, swapped, no_temp, write_failed, rename_failed, swap, updated_text, replace_text,
  replace_done, replace_read, replace_file,
}
use perry_hermes.Patch.Files.{IsLawful, Swapped, swap-reads}

module _ {F : Type 0} (fs : PatchFiles F) (lawful : IsLawful fs) where
  -- What a replacement leaves: the pieces of the file between the places of the old text, joined by
  -- the new one, and free of the old one. If not all places are to be replaced, there is one.
  abbrev pub Pieces : Text → Text → Text → Bool → F → F → Type 0
  Pieces resolved old new all f f' =
      (p : Text) × (ps : List Text) × (fs.read resolved f ≡ ok (join old (p ∷ ps)))
      × (fs.read resolved f' ≡ ok (join new (p ∷ ps)))
      × (0 < length ps)
      × ((all ≡ true) ⊎ (length ps ≡ 1))
      × All (IsFree old) (p ∷ ps)

  abbrev Replaces : Text → Text → Text → Bool → F → ToolOutput × F → Type 0
  Replaces resolved old new all f (replaced path diff a, f') = Pieces resolved old new all f f'
  Replaces resolved old new all f _ = Unit

  updated_text-Pieces :
      (resolved : Text) (d : ℕ) (ds new original : Text) (all : Bool) (f f' : F)
      → fs.read resolved f ≡ ok original
      → fs.read resolved f' ≡ ok (updated_text all (d ∷ ds) new original)
      → (count_from (d ∷ ds) 0 original == 0) ≡ false
      → (ltb 1 (count_from (d ∷ ds) 0 original) && not all) ≡ false
      → Pieces resolved (d ∷ ds) new all f f'
  updated_text-Pieces resolved d ds new original all f f' before after some_place once =
      let (p, ps, e, g, n, free) = cut d ds new 0 original in
      (
        p,
        ps,
        before ∙ ap ok (sym e),
        after ∙ ap ok (text all once ∙ sym g),
        ground (arith, n, some_place),
        places all once n,
        free,
      )
    where
      text :
          (all : Bool)
          → (ltb 1 (count_from (d ∷ ds) 0 original) && not all) ≡ false
          → updated_text all (d ∷ ds) new original ≡ replace_from (d ∷ ds) new 0 original
      text true h = refl
      text false h = replace_first-once d ds new original (ground (arith, h, some_place))

      places :
          {m : ℕ} (all : Bool)
          → (ltb 1 (count_from (d ∷ ds) 0 original) && not all) ≡ false
          → m ≡ count_from (d ∷ ds) 0 original
          → (all ≡ true) ⊎ (m ≡ 1)
      places true h n = inl refl
      places false h n = inr (ground (arith, h, n, some_place))

  replace_text-Replaces :
      (resolved original old new : Text) (all : Bool) (f : F)
      → fs.read resolved f ≡ ok original
      → Replaces resolved old new all f (replace_text fs resolved original old new all f)
  unfolding replace_text
  replace_text-Replaces resolved original [] new all f e = tt
  replace_text-Replaces resolved original (d ∷ ds) new all f e =
      elim (Bool-cases (count_from (d ∷ ds) 0 original == 0)) [
        | inl k ↦ rw (k, replace_text) tt
        | inr k ↦ elim (Bool-cases (ltb 1 (count_from (d ∷ ds) 0 original) && not all)) [
          | inl l ↦ rw (k, replace_text) (rw (l, replace_text) tt)
          | inr l ↦
              rw (k, replace_text)
                (rw (l, replace_text)
                  (go k l (swap fs resolved (updated_text all (d ∷ ds) new original) f)
                    (swap-reads fs lawful resolved (updated_text all (d ∷ ds) new original) f)))
        ]
      ]
    where
      go :
          (count_from (d ∷ ds) 0 original == 0) ≡ false
          → (ltb 1 (count_from (d ∷ ds) 0 original) && not all) ≡ false
          → (s : Swap fs) → Swapped fs lawful resolved (updated_text all (d ∷ ds) new original) s
          → Replaces resolved
              (d ∷ ds)
              new
              all
              f
              (replace_done fs resolved original (updated_text all (d ∷ ds) new original) all f s)
      go k l (swapped f') h = updated_text-Pieces resolved d ds new original all f f' e h k l
      go k l (no_temp msg) h = tt
      go k l (write_failed tmp f' x) h = tt
      go k l (rename_failed tmp f' x) h = tt

  -- the same for the path that was given
  abbrev pub ReplacesAt : Text → Text → Text → Bool → F → ToolOutput × F → Type 0
  ReplacesAt path old new all f (replaced shown diff a, f') =
      (resolved : Text) × (fs.resolve path ≡ ok resolved) × Pieces resolved old new all f f'
  ReplacesAt path old new all f _ = Unit

  resolved_at :
      (path resolved old new : Text) (all : Bool) (f : F) (r : ToolOutput × F)
      → fs.resolve path ≡ ok resolved
      → Replaces resolved old new all f r
      → ReplacesAt path old new all f r
  resolved_at path resolved old new all f (replaced shown diff a, f') e h = (resolved, e, h)
  resolved_at path resolved old new all f (failed x, f') e h = tt
  resolved_at path resolved old new all f (failed_hint x y, f') e h = tt
  resolved_at path resolved old new all f (patched a b c, f') e h = tt

  replace_read-ReplacesAt :
      (path resolved old new : Text) (all : Bool) (f : F) (o : Result Text ReadError)
      → fs.resolve path ≡ ok resolved
      → fs.read resolved f ≡ o
      → ReplacesAt path old new all f (replace_read fs path resolved old new all f o)
  replace_read-ReplacesAt path resolved old new all f (ok original) e r =
      resolved_at path resolved old new all f _ e
        (replace_text-Replaces resolved original old new all f r)
  replace_read-ReplacesAt path resolved old new all f (err not_found) e r = tt
  replace_read-ReplacesAt path resolved old new all f (err (other_error x)) e r = tt

  -- On a lawful file system, if a replacement is reported as done, then the file of the resolved path
  -- was made of pieces with the old text between them, and now holds the same pieces with the new text
  -- between them; the old text stands in none of the pieces. There was at least one place, and just
  -- one unless all were to be replaced.
  pub replace_file-ReplacesAt :
      (path old new : Text) (all cross : Bool) (f : F)
      → ReplacesAt path old new all f (replace_file fs path old new all cross f)
  unfolding replace_file
  replace_file-ReplacesAt path old new all cross f = elim (Bool-cases (fs.is_status_text new)) [
    | inl k ↦ rw (k, replace_file) tt
    | inr k ↦ rw (k, replace_file) (go (fs.resolve path) refl)
  ]
    where
      allowed :
          (resolved : Text) (o : Option Text)
          → fs.resolve path ≡ ok resolved
          → ReplacesAt path old new all f (elim o as (λ x. ToolOutput × F) [
            | some msg ↦ (failed msg, f)
            | none ↦ replace_read fs path resolved old new all f (fs.read resolved f)
          ])
      allowed resolved (some msg) e = tt
      allowed resolved none e =
          replace_read-ReplacesAt path resolved old new all f (fs.read resolved f) e refl

      go :
          (o : Result Text Text)
          → fs.resolve path ≡ o
          → ReplacesAt path old new all f (elim o as (λ x. ToolOutput × F) [
            | err msg ↦ (failed msg, f)
            | ok resolved ↦ elim (refused fs path resolved cross) as (λ x. ToolOutput × F) [
              | some msg ↦ (failed msg, f)
              | none ↦ replace_read fs path resolved old new all f (fs.read resolved f)
            ]
          ])
      go (err msg) e = tt
      go (ok resolved) e = allowed resolved (refused fs path resolved cross) e
