-- ===== src/Providers/Segments.antt =====
-- A chunk as segments between tags, which are in turn visible and reasoning.
use perry_hermes.Prelude.{
  ℕ, ◌≡◌, refl, sym, ap, ◌∙◌, inl, inr, Bool, true, false, not, Option, none, some, List, [], ◌∷◌,
  ◌++◌, Text, strip_prefix, arith, Option-cases, length, length-append, ◌≤◌, ◌+◌,
}
use perry_hermes.Providers.ThinkTags.{find_tag, cons_before, tag_of}

-- The segments of a text that starts with a flag: each but the last ends at the first tag that
-- changes the flag, and the last has no such tag.
abbrev pub Segmented : Bool → Text → List Text → Type 0
Segmented flag s [] = ⊥
Segmented flag s (x ∷ []) = (s ≡ x) × (find_tag (tag_of flag) x ≡ none)
Segmented flag s (x ∷ y ∷ ys) =
    (rest : Text) × (s ≡ x ++ (tag_of flag ++ rest))
    × (find_tag (tag_of flag) x ≡ none)
    × Segmented (not flag) rest (y ∷ ys)

-- The visible segments and those of reasoning, joined, and the flag at the end.
abbrev pub visible_of : Bool → List Text → Text
visible_of flag [] = []
visible_of true (x ∷ xs) = visible_of false xs
visible_of false (x ∷ xs) = x ++ visible_of true xs

abbrev pub reasoning_of_segments : Bool → List Text → Text
reasoning_of_segments flag [] = []
reasoning_of_segments true (x ∷ xs) = x ++ reasoning_of_segments false xs
reasoning_of_segments false (x ∷ xs) = reasoning_of_segments true xs

abbrev pub flag_after : Bool → List Text → Bool
flag_after flag [] = flag
flag_after flag (x ∷ []) = flag
flag_after flag (x ∷ y ∷ ys) = flag_after (not flag) (y ∷ ys)

strip_prefix-some : (p s r : Text) → strip_prefix p s ≡ some r → s ≡ p ++ r
strip_prefix-some [] s r h = cc
strip_prefix-some (a ∷ p) [] r h = absurd (cc)
strip_prefix-some (a ∷ p) (c ∷ s) r h = ground (arith, strip_prefix-some p s r)

strip_prefix-append :
    (p s r x : Text) → strip_prefix p s ≡ some r → strip_prefix p (s ++ x) ≡ some (r ++ x)
strip_prefix-append [] s r x h =
    ap (λ o. elim o as (λ z. Option Text) [ none ↦ none | some t ↦ some (t ++ x) ]) h
strip_prefix-append (a ∷ p) [] r x h = absurd (cc)
strip_prefix-append (a ∷ p) (c ∷ s) r x h = ground (arith, strip_prefix-append p s r x)

cons_before-some :
    (c : ℕ) (o : Option (Text × Text)) (b a : Text)
    → cons_before c o ≡ some (b, a)
    → (b' : Text) × (o ≡ some (b', a)) × (b ≡ c ∷ b')
cons_before-some c none b a h = absurd (cc)
cons_before-some c (some (b', a')) b a h =
    let e : some (c ∷ b', a') ≡ some (b, a) = h in
    let ea : a' ≡ a = cc in let eb : b ≡ c ∷ b' = cc in (b', ap (λ z. some (b', z)) ea, eb)

no_prefix : (tag s x : Text) → strip_prefix tag (s ++ x) ≡ none → strip_prefix tag s ≡ none
no_prefix tag s x h = elim (Option-cases (strip_prefix tag s)) [
  | inl k ↦ k
  | inr (r, k) ↦ absurd (cc (h, strip_prefix-append tag s r x k))
]

-- The text before a tag that is found has no such tag.
pub find_tag-some :
    (tag s b a : Text)
    → find_tag tag s ≡ some (b, a)
    → (s ≡ b ++ (tag ++ a)) × (find_tag tag b ≡ none)
find_tag-some tag [] b a h = absurd (cc)
find_tag-some tag (c ∷ s) b a h = elim (Option-cases (strip_prefix tag (c ∷ s))) [
  | inr (r, k) ↦
      let e : some ([], r) ≡ some (b, a) = rw (k, find_tag) at h in
      let eb : b ≡ [] = cc in
      let er : a ≡ r = cc in rw (eb, er) (strip_prefix-some tag (c ∷ s) r k, refl)
  | inl k ↦
      let (b', found, eb) = cons_before-some c (find_tag tag s) b a (rw (k, find_tag) at h) in
      let (es, clean) = find_tag-some tag s b' a found in
      let first : strip_prefix tag (c ∷ b') ≡ none =
        no_prefix tag (c ∷ b') (tag ++ a) (ap (λ z. strip_prefix tag (c ∷ z)) (sym es) ∙ k) in
      rw eb (ap (◌∷◌ c) es, rw (first, find_tag) (ap (cons_before c) clean))
]

pub strip_prefix-long :
    (p s x : Text) → length p ≤ length s → strip_prefix p s ≡ none → strip_prefix p (s ++ x) ≡ none
strip_prefix-long [] s x l h = absurd (cc)
strip_prefix-long (a ∷ p) [] x l h = absurd (omega arith)
strip_prefix-long (a ∷ p) (c ∷ s) x l h = ground (arith, strip_prefix-long p s x)

cons_before-eq :
    (c : ℕ) (o : Option (Text × Text)) (b a : Text)
    → o ≡ some (b, a)
    → cons_before c o ≡ some (c ∷ b, a)
cons_before-eq c o b a h = ap (cons_before c) h

-- A text in which something is found is no shorter than what is before, the tag and what is after.
pub find_tag-length :
    (tag s b a : Text)
    → find_tag tag s ≡ some (b, a)
    → length s ≡ length b + (length tag + length a)
find_tag-length tag s b a h =
    ap length (find_tag-some tag s b a h).0
    ∙ omega (arith, length-append b (tag ++ a), length-append tag a)

-- What is found in a text is found in what the text grows to.
pub find_tag-append :
    (tag s x b a : Text) → find_tag tag s ≡ some (b, a) → find_tag tag (s ++ x) ≡ some (b, a ++ x)
find_tag-append tag [] x b a h = absurd (cc)
find_tag-append tag (c ∷ s) x b a h = elim (Option-cases (strip_prefix tag (c ∷ s))) [
  | inr (r, k) ↦
      let e : some ([], r) ≡ some (b, a) = rw (k, find_tag) at h in
      let eb : b ≡ [] = cc in
      let er : a ≡ r = cc in
      let k' : strip_prefix tag (c ∷ (s ++ x)) ≡ some (r ++ x) =
        strip_prefix-append tag (c ∷ s) r x k in
      rw (k', find_tag, eb, er) refl
  | inl k ↦
      let (b', found, eb) = cons_before-some c (find_tag tag s) b a (rw (k, find_tag) at h) in
      let long : length tag ≤ length (c ∷ s) = omega (arith, find_tag-length tag (c ∷ s) b a h) in
      let k' : strip_prefix tag (c ∷ (s ++ x)) ≡ none = strip_prefix-long tag (c ∷ s) x long k in
      rw (k', find_tag, eb) (cons_before-eq c _ b' (a ++ x) (find_tag-append tag s x b' a found))
]
