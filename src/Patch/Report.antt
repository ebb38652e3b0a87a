-- ===== src/Patch/Report.antt =====
-- What `patch_mode` of the patch tool reports.
use perry_hermes.Prelude.{
  true, ◌↔◌, All, Option-cases, ◌≡◌, refl, sym, ap, ◌∙◌, inl, inr, Bool, false, Option, none, some,
  List, [], ◌∷◌, ◌++◌, Text, is_empty, text_eq, text_eq_iff, append_assoc, append-nil, Result, ok,
  err, Bool-cases,
}
use perry_hermes.Patch.Parse.{OpKind, add, update, delete, move, V4aOp, kind_str, parse_v4a}
use perry_hermes.Patch.Hunks.{apply_hunks_to_text}
use perry_hermes.Patch.Applying.{Outcome}
use perry_hermes.Patch.Lines.{TextRewritten, apply_hunks_to_text-Outcome}
use perry_hermes.Patch.Tool.{
  ReadError, not_found, other_error, PatchFiles, PatchArgs, OpResult, patched, or_false, refused,
  shown_path,
}
use perry_hermes.Patch.Ops.{
  Applied, update_with, update_read, apply_update, apply_kind, apply_resolved, apply_v4a_op,
  contains, add_modified, Gathered, result_of, record_op, apply_ops, all_applied, patch_mode,
}

-- No text stands twice in a list.
abbrev pub NoDup : List Text → Type 0
NoDup [] = Unit
NoDup (p ∷ ps) = (contains p ps ≡ false) × NoDup ps

-- what a result and an operation are headed by
abbrev pub heading : OpResult → Text × Text
heading r = (r.op, r.path)

abbrev pub op_heading : V4aOp → Text × Text
op_heading op = (kind_str op.kind, op.path)

contains-append :
    (p q : Text) (ps : List Text)
    → contains p ps ≡ false
    → text_eq q p ≡ false
    → contains p (ps ++ q ∷ []) ≡ false
contains-append p q [] h k = rw k refl
contains-append p q (x ∷ ps) h k = elim (Bool-cases (text_eq x p)) [
  | inl e ↦ absurd (cc (rw e at h))
  | inr e ↦ rw e (contains-append p q ps (rw e at h) k)
]

not_contained :
    (q x : Text) (ps : List Text)
    → contains q (x ∷ ps) ≡ false
    → (text_eq x q ≡ false) × (contains q ps ≡ false)
not_contained q x ps h = elim (Bool-cases (text_eq x q)) [
  | inl e ↦ absurd (cc (rw e at h))
  | inr e ↦ (e, rw e at h)
]

text_eq-sym : (s t : Text) → text_eq s t ≡ false → text_eq t s ≡ false
text_eq-sym s t h = elim (Bool-cases (text_eq t s)) [
  | inl k ↦ absurd (cc (sym ((text_eq_iff s t).1 (sym ((text_eq_iff t s).0 k))) ∙ h))
  | inr k ↦ k
]

append-NoDup : (q : Text) (ps : List Text) → contains q ps ≡ false → NoDup ps → NoDup (ps ++ q ∷ [])
append-NoDup q [] h n = (refl, tt)
append-NoDup q (x ∷ ps) h n =
    let (differ, rest) = not_contained q x ps h in
    (contains-append x q ps n.0 (text_eq-sym x q differ), append-NoDup q ps rest n.1)

add_modified-NoDup : (q : Text) (ps : List Text) → NoDup ps → NoDup (add_modified q ps)
add_modified-NoDup q ps n = elim (Bool-cases (is_empty q)) [
  | inl k ↦ rw k n
  | inr k ↦ elim (Bool-cases (contains q ps)) [
    | inl l ↦ rw (k, l) n
    | inr l ↦ rw (k, l) (append-NoDup q ps l n)
  ]
]

module _ {F : Type 0} (fs : PatchFiles F) where
  abbrev Ended : Option (Applied fs) → Type 0
  Ended o = (a : Applied fs) × (o ≡ some a)

  update_with-Ended :
      (original resolved : Text) (op : V4aOp) (f : F) (o : Option (Result Text Text))
      → Outcome (TextRewritten original op.hunks) o
      → Ended (update_with fs resolved f o)
  update_with-Ended original resolved op f none h = absurd h
  update_with-Ended original resolved op f (some (err e)) h = (_, refl)
  update_with-Ended original resolved op f (some (ok out)) h = (_, refl)

  update_read-Ended :
      (op : V4aOp) (resolved : Text) (f : F) (o : Result Text ReadError)
      → Ended (update_read fs op resolved f o)
  unfolding update_read
  update_read-Ended op resolved f (ok original) =
      update_with-Ended original resolved op f (apply_hunks_to_text original op.hunks op.path)
        (apply_hunks_to_text-Outcome original op.hunks op.path)
  update_read-Ended op resolved f (err not_found) = (_, refl)
  update_read-Ended op resolved f (err (other_error x)) = (_, refl)

  apply_update-Ended :
      (op : V4aOp) (resolved : Text) (f : F) → Ended (apply_update fs op resolved f)
  unfolding apply_update
  apply_update-Ended op resolved f = elim (Bool-cases (is_empty op.hunks)) [
    | inl k ↦ rw (k, apply_update) (_, refl)
    | inr k ↦ rw (k, apply_update) (update_read-Ended op resolved f (fs.read resolved f))
  ]

  apply_kind-Ended :
      (k : OpKind) (op : V4aOp) (resolved : Text) (cross : Bool) (f : F)
      → Ended (apply_kind fs (record op { kind = k }) resolved cross f)
  unfolding apply_kind
  apply_kind-Ended add op resolved cross f = (_, refl)
  apply_kind-Ended update op resolved cross f =
      apply_update-Ended (record op { kind = update }) resolved f
  apply_kind-Ended delete op resolved cross f = (_, refl)
  apply_kind-Ended move op resolved cross f = (_, refl)

  apply_v4a_op-Ended : (op : V4aOp) (cross : Bool) (f : F) → Ended (apply_v4a_op fs op cross f)
  unfolding apply_v4a_op
  apply_v4a_op-Ended op cross f = go (fs.resolve op.path)
    where
      allowed :
          (resolved : Text) (o : Option Text)
          → Ended (elim o as (λ x. Option (Applied fs)) [
            | some msg ↦ some (err msg, f)
            | none ↦ apply_kind fs op resolved cross f
          ])
      allowed resolved (some msg) = (_, refl)
      allowed resolved none = apply_kind-Ended op.kind op resolved cross f

      go : (o : Result Text Text) → Ended (apply_resolved fs op cross f o)
      go (err e) = (_, refl)
      go (ok resolved) = allowed resolved (refused fs op.path resolved cross)

  -- A result says of its operation whether it was applied, or why not.
  abbrev pub Agrees : V4aOp → Result Text Text → OpResult → Type 0
  Agrees op (ok p) x = (heading x ≡ op_heading op) × (x.rejected ≡ none)
  Agrees op (err msg) x = (heading x ≡ op_heading op) × (x.rejected ≡ some msg)

  -- The operations are applied one after the other, each to the files that the one before leaves,
  -- and each has its result.
  abbrev pub Logged : Bool → List V4aOp → F → List OpResult → F → Type 0
  Logged cross [] f [] f' = f' ≡ f
  Logged cross [] f (x ∷ xs) f' = ⊥
  Logged cross (op ∷ ops) f [] f' = ⊥
  Logged cross (op ∷ ops) f (x ∷ xs) f' =
      (r : Result Text Text) × (next : F) × (apply_v4a_op fs op cross f ≡ some (r, next))
      × Agrees op r x
      × Logged cross ops next xs f'

  record_op-Agrees :
      (op : V4aOp) (a : Applied fs) (r : Gathered)
      → NoDup r.files_modified
      → (x : OpResult) × ((record_op fs op a r).results ≡ r.results ++ x ∷ [])
        × Agrees op a.0 x
        × NoDup (record_op fs op a r).files_modified
  unfolding record_op
  record_op-Agrees op (ok p, f) r n = (
    result_of op none,
    refl,
    (refl, refl),
    add_modified-NoDup (shown_path fs p f) r.files_modified n,
  )
  record_op-Agrees op (err msg, f) r n = (result_of op (some msg), refl, (refl, refl), n)

  apply_ops-Logged :
      (ops : List V4aOp) (cross : Bool) (r : Gathered) (f : F)
      → NoDup r.files_modified
      → (r' : Gathered) × (f' : F) × (rs : List OpResult) × (apply_ops fs ops cross r f
          ≡ some (r', f'))
        × (r'.results ≡ r.results ++ rs)
        × Logged cross ops f rs f'
        × NoDup r'.files_modified
  unfolding apply_ops
  apply_ops-Logged [] cross r f n = (r, f, [], refl, sym (append-nil r.results), refl, n)
  apply_ops-Logged (op ∷ ops) cross r f n =
      let (a, e) = apply_v4a_op-Ended op cross f in
      let (x, e1, h, n1) = record_op-Agrees op a r n in
      let (r', f', rs, e2, e3, hs, n2) = apply_ops-Logged ops cross (record_op fs op a r) a.1 n1 in
      (
        r',
        f',
        x ∷ rs,
        rw (e, apply_ops) e2,
        e3 ∙ ap (λ t. t ++ rs) e1 ∙ append_assoc r.results (x ∷ []) rs,
        (a.0, a.1, e, h, hs),
        n2,
      )

  all_applied_iff : (rs : List OpResult) → (all_applied rs ≡ true) ↔ All (λ x. x.rejected ≡ none) rs
  all_applied_iff [] = (λ h. tt, λ h. refl)
  all_applied_iff (r ∷ rs) = elim (Option-cases r.rejected) [
    | inl e ↦
        let (to, back) = all_applied_iff rs in
        rw (e, all_applied) (λ h. (refl, to h), λ h. back h.1)
    | inr (msg, e) ↦ rw (e, all_applied) (λ h. absurd (cc), λ h. absurd (cc (h.0)))
  ]

  -- A patch that parses ends without a failed `expect`, whatever the files. Its operations are applied
  -- in order, also after one that is rejected, and the output has one result for each: that it was
  -- applied, or the text of its rejection. The output is a success just if all are applied, and no
  -- modified file is listed twice.
  pub patch_mode-report :
      (args : PatchArgs) (body : Text) (ops : List V4aOp) (f : F)
      → args.patch ≡ some body
      → parse_v4a body ≡ ok ops
      → (f' : F) × (files : List Text) × (rs : List OpResult) × (success : Bool) × (patch_mode fs
            args f
          ≡ some (patched success files rs, f'))
        × Logged (or_false args.cross) ops f rs f'
        × ((success ≡ true) ↔ All (λ x. x.rejected ≡ none) rs)
        × NoDup files
  unfolding patch_mode
  patch_mode-report args body ops f e parsed =
      let (r, f', rs, e1, e2, hs, n) =
        apply_ops-Logged ops (or_false args.cross) (record { results = []; files_modified = [] }) f
          tt in
      (
        f',
        r.files_modified,
        rs,
        all_applied rs,
        rw (e, patch_mode)
            (rw (parsed, patch_mode)
              (rw e1 (ap (λ x. some (patched (all_applied x) r.files_modified x, f')) e2))),
        hs,
        all_applied_iff rs,
        n,
      )
