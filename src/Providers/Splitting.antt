-- ===== src/Providers/Splitting.antt =====
-- The loop of `split_think_tag_content` and the segments of a chunk.
use perry_hermes.Prelude.{
  ℕ, zero, suc, ◌<◌, ◌≤◌, ◌≡◌, refl, sym, ap, ◌∙◌, inl, inr, Bool, true, false, not, none, some,
  List, [], ◌∷◌, ◌++◌, Text, length, append_assoc, append-nil, length-append, arith, Option-cases,
}
use perry_hermes.Providers.ThinkTags.{
  find_tag, Split, tag_of, push_text, flip, split_loop, outcome, text_or_none,
  split_think_tag_content, open_tag, close_tag,
}
use perry_hermes.Providers.Segments.{
  Segmented, visible_of, reasoning_of_segments, flag_after, find_tag-some,
}

abbrev state : Bool → Text → Text → Split
state flag v r = record { in_think_tag = flag; visible = v; reasoning = r }

-- The loop's variables after the segments.
abbrev after_segments : Bool → Text → Text → List Text → Split
after_segments flag v r segs = record {
  in_think_tag = flag_after flag segs;
  visible = v ++ visible_of flag segs;
  reasoning = r ++ reasoning_of_segments flag segs;
}

abbrev Splits : ℕ → Bool → Text → Text → Text → Type 0
Splits fuel flag s v r =
    (segs : List Text) × Segmented flag s segs
    × (split_loop fuel s (state flag v r) ≡ some (after_segments flag v r segs))

split_ext :
    (flag : Bool) (v v' r r' : Text)
    → v ≡ v'
    → r ≡ r'
    → some (state flag v r) ≡ some (state flag v' r')
split_ext flag v v' r r' e k = cc

rest_shorter : (flag : Bool) (s b a : Text) → s ≡ b ++ (tag_of flag ++ a) → length a < length s
rest_shorter true s b a e =
    omega (arith, ap length e, length-append b (close_tag ++ a), length-append {0} close_tag a)
rest_shorter false s b a e =
    omega (arith, ap length e, length-append b (open_tag ++ a), length-append {0} open_tag a)

-- the last segment
split_last :
    (fuel : ℕ) (flag : Bool) (s v r : Text)
    → split_loop fuel s (state flag v r) ≡ some (push_text s (state flag v r))
    → find_tag (tag_of flag) s ≡ none
    → Splits fuel flag s v r
split_last fuel true s v r e h = (
  s ∷ [],
  (refl, h),
  e
      ∙ split_ext true v (v ++ []) (r ++ s) (r ++ (s ++ [])) (sym (append-nil v))
          (ap (λ z. r ++ z) (sym (append-nil s))),
)
split_last fuel false s v r e h = (
  s ∷ [],
  (refl, h),
  e
      ∙ split_ext false (v ++ s) (v ++ (s ++ [])) r (r ++ [])
          (ap (λ z. v ++ z) (sym (append-nil s))) (sym (append-nil r)),
)

-- a segment before a tag
split_first :
    (fuel : ℕ) (flag : Bool) (s b a v r : Text)
    → (s ≡ b ++ (tag_of flag ++ a)) × (find_tag (tag_of flag) b ≡ none)
    → split_loop (suc fuel) s (state flag v r)
      ≡ split_loop fuel a (flip (push_text b (state flag v r)))
    → Splits fuel
        (not flag)
        a
        (push_text b (state flag v r)).visible
        (push_text b (state flag v r)).reasoning
    → Splits (suc fuel) flag s v r
split_first fuel flag s b a v r (e, h) step ([], k, done) = absurd k
split_first fuel true s b a v r (e, h) step (y ∷ ys, k, done) = (
  b ∷ y ∷ ys,
  (a, e, h, k),
  step ∙ done ∙ split_ext _ _ _ _ _ refl (append_assoc r b (reasoning_of_segments false (y ∷ ys))),
)
split_first fuel false s b a v r (e, h) step (y ∷ ys, k, done) = (
  b ∷ y ∷ ys,
  (a, e, h, k),
  step ∙ done ∙ split_ext _ _ _ _ _ (append_assoc v b (visible_of true (y ∷ ys))) refl,
)

split_loop-Splits :
    (fuel : ℕ) (flag : Bool) (s v r : Text) → length s ≤ fuel → Splits fuel flag s v r
unfolding split_loop
split_loop-Splits fuel true [] v r h = (
  [] ∷ [],
  (refl, refl),
  split_ext true v (v ++ []) r (r ++ []) (sym (append-nil v)) (sym (append-nil r)),
)
split_loop-Splits fuel false [] v r h = (
  [] ∷ [],
  (refl, refl),
  split_ext false v (v ++ []) r (r ++ []) (sym (append-nil v)) (sym (append-nil r)),
)
split_loop-Splits zero flag (c ∷ s) v r h = absurd (omega arith)
split_loop-Splits (suc fuel) flag (c ∷ s) v r h =
    elim (Option-cases (find_tag (tag_of flag) (c ∷ s))) [
      | inl k ↦ split_last (suc fuel) flag (c ∷ s) v r (rw (k, split_loop) refl) k
      | inr ((b, a), k) ↦
          let parts = find_tag-some (tag_of flag) (c ∷ s) b a k in
          let shorter = rest_shorter flag (c ∷ s) b a parts.0 in
          let x = push_text b (state flag v r) in
          split_first fuel flag (c ∷ s) b a v r parts (rw (k, split_loop) refl)
            (split_loop-Splits fuel (not flag) a x.visible x.reasoning (omega arith))
    ]

-- For every chunk and flag the loop ends, and its results are those of the chunk's segments: cut at
-- each first tag that changes the flag, all characters but the tags are kept in order, the ones
-- outside the tags as content and the ones inside as reasoning, each `None` if there are none. The
-- flag changes once for each tag.
pub split_think_tag_content-Segmented :
    (content : Text) (flag : Bool)
    → (segs : List Text) × Segmented flag content segs
      × (split_think_tag_content (some content) flag
          ≡ some (
            (text_or_none (visible_of flag segs), text_or_none (reasoning_of_segments flag segs)),
            flag_after flag segs,
          ))
unfolding split_think_tag_content
split_think_tag_content-Segmented content flag =
    let (segs, k, e) = split_loop-Splits (length content) flag content [] [] (omega arith) in
    (segs, k, ap (outcome flag) e)
