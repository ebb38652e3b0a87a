-- ===== src/Patch/Replace.antt =====
-- The strings of `replace_mode` in patch.rs: the places of a text in another one, which do not
-- overlap, and their replacement. The text that is searched for is not empty.
use perry_hermes.Utf8.Offsets.{same_parts}
use perry_hermes.Prelude.{
  true, ◌≢◌, All, append-nil, append_assoc, ◌++◌, ℕ, zero, suc, ◌-◌, ◌≡◌, refl, sym, ap, ◌∙◌, inl,
  inr, Option, none, some, List, [], ◌∷◌, ◌++◌, Text, join, length, drop, strip_prefix, arith, ◌==◌,
  ==_iff, Bool-cases, Option-cases,
}

-- the first place: what is before it and what is after it
unfoldable pub find_text : Text → Text → Option (Text × Text)
find_text needle [] = none
find_text needle (c ∷ s) = elim (strip_prefix needle (c ∷ s)) [
  | some rest ↦ some ([], rest)
  | none ↦ elim (find_text needle s) as (λ x. Option (Text × Text)) [
    | none ↦ none
    | some (b, a) ↦ some (c ∷ b, a)
  ]
]

-- `match_indices(needle).count()`; the number is how many characters belong to the last match
unfoldable pub count_from : Text → ℕ → Text → ℕ
count_from needle k [] = 0
count_from needle (suc k) (c ∷ s) = count_from needle k s
count_from needle zero (c ∷ s) = elim (strip_prefix needle (c ∷ s)) [
  | some rest ↦ suc (count_from needle (length needle - 1) s)
  | none ↦ count_from needle zero s
]

-- `replace(needle, new)`
unfoldable pub replace_from : Text → Text → ℕ → Text → Text
replace_from needle new k [] = []
replace_from needle new (suc k) (c ∷ s) = replace_from needle new k s
replace_from needle new zero (c ∷ s) = elim (strip_prefix needle (c ∷ s)) [
  | some rest ↦ new ++ replace_from needle new (length needle - 1) s
  | none ↦ c ∷ replace_from needle new zero s
]

-- `replacen(needle, new, 1)`
unfoldable pub replace_first : Text → Text → Text → Text
unfolding find_text
replace_first needle new s = elim (find_text needle s) as (λ x. Text) [
  | none ↦ s
  | some (b, a) ↦ b ++ (new ++ a)
]

strip_prefix-some :
    (p s rest : Text) → strip_prefix p s ≡ some rest → (s ≡ p ++ rest) × (rest ≡ drop (length p) s)
strip_prefix-some [] s rest h = let e : some s ≡ some rest = h in (cc, cc)
strip_prefix-some (d ∷ p) [] rest h = absurd (cc)
strip_prefix-some (d ∷ p) (c ∷ s) rest h = elim (Bool-cases (d == c)) [
  | inl k ↦
      let (e, f) = strip_prefix-some p s rest (rw k at h) in
      (ap (λ x. x ∷ s) (sym ((==_iff d c).0 k)) ∙ ap (◌∷◌ d) e, f)
  | inr k ↦ absurd (cc (rw k at h))
]

join-cons :
    (sep : Text) (c : ℕ) (p : Text) (ps : List Text)
    → join sep ((c ∷ p) ∷ ps) ≡ c ∷ join sep (p ∷ ps)
join-cons sep c p [] = refl
join-cons sep c p (q ∷ ps) = refl

-- The needle stands nowhere in the piece.
abbrev pub IsFree : Text → Text → Type 0
IsFree needle q = (a b : Text) → q ≢ a ++ (needle ++ b)

prefix-found : (p s : Text) → strip_prefix p (p ++ s) ≡ some s
prefix-found [] s = refl
prefix-found (c ∷ p) s = let same : (c == c) ≡ true = ground arith in rw same (prefix-found p s)

join-starts : (sep p : Text) (ps : List Text) → (x : Text) × (join sep (p ∷ ps) ≡ p ++ x)
join-starts sep p [] = ([], sym (append-nil p))
join-starts sep p (q ∷ ps) = (sep ++ join sep (q ∷ ps), refl)

-- A piece that is free stays so with a character at which the needle does not begin.
cons-IsFree :
    (needle p : Text) (c : ℕ) (s x : Text)
    → s ≡ p ++ x
    → strip_prefix needle (c ∷ s) ≡ none
    → IsFree needle p
    → IsFree needle (c ∷ p)
cons-IsFree needle p c s x e h free [] b k =
    let whole : c ∷ s ≡ needle ++ (b ++ x) =
      ap (◌∷◌ c) e ∙ (ap (λ z. z ++ x) k ∙ append_assoc needle b x) in
    let found : strip_prefix needle (c ∷ s) ≡ some (b ++ x) =
      ap (strip_prefix needle) whole ∙ prefix-found needle (b ++ x) in
    absurd (cc (found, h))
cons-IsFree needle p c s x e h free (y ∷ a) b k =
    let tail : p ≡ a ++ (needle ++ b) = cc in free a b tail

empty-IsFree : (d : ℕ) (ds : Text) → IsFree (d ∷ ds) []
empty-IsFree d ds [] b k = absurd (cc)
empty-IsFree d ds (y ∷ a) b k = absurd (cc)

-- The text is cut at the places of the needle; the pieces are joined by the replacement.
abbrev pub Cut : Text → Text → ℕ → Text → Type 0
Cut needle new k s =
    (p : Text) × (ps : List Text) × (join needle (p ∷ ps) ≡ drop k s)
    × (join new (p ∷ ps) ≡ replace_from needle new k s)
    × (length ps ≡ count_from needle k s)
    × All (IsFree needle) (p ∷ ps)

pub cut : (d : ℕ) (ds new : Text) (k : ℕ) (s : Text) → Cut (d ∷ ds) new k s
unfolding count_from replace_from
cut d ds new zero [] = ([], [], refl, refl, refl, (empty-IsFree d ds, tt))
cut d ds new (suc k) [] = ([], [], refl, refl, refl, (empty-IsFree d ds, tt))
cut d ds new (suc k) (c ∷ s) = cut d ds new k s
cut d ds new zero (c ∷ s) = elim (Option-cases (strip_prefix (d ∷ ds) (c ∷ s))) [
  | inl h ↦
      let (p, ps, e, f, n, free) = cut d ds new zero s in
      (
        c ∷ p,
        ps,
        join-cons (d ∷ ds) c p ps ∙ ap (◌∷◌ c) e,
        join-cons new c p ps ∙ rw (h, replace_from) (ap (◌∷◌ c) f),
        rw (h, count_from) n,
        (
          cons-IsFree (d ∷ ds) p c s (join-starts (d ∷ ds) p ps).0
              (sym e ∙ (join-starts (d ∷ ds) p ps).1) h free.0,
          free.1,
        ),
      )
  | inr (rest, h) ↦
      let (p, ps, e, f, n, free) = cut d ds new (length ds) s in
      let (whole, tail) = strip_prefix-some (d ∷ ds) (c ∷ s) rest h in
      let width : length (d ∷ ds) - 1 ≡ length ds = omega arith in
      (
        [],
        p ∷ ps,
        ap (λ t. (d ∷ ds) ++ t) (e ∙ sym tail) ∙ sym whole,
        rw (h, replace_from) (rw width (ap (λ t. new ++ t) f)),
        rw (h, count_from) (rw width (omega (arith, n))),
        (empty-IsFree d ds, free),
      )
]

-- No match means no change.
replace_from-none :
    (d : ℕ) (ds new s : Text) → count_from (d ∷ ds) 0 s ≡ 0 → replace_from (d ∷ ds) new 0 s ≡ s
replace_from-none d ds new s h = go (cut d ds new 0 s)
  where
    go : Cut (d ∷ ds) new 0 s → replace_from (d ∷ ds) new 0 s ≡ s
    go (p, [], e, f, n, free) = sym f ∙ e
    go (p, q ∷ ps, e, f, n, free) = absurd (omega (arith, n, h))

replace_from-skip :
    (needle new : Text) (k : ℕ) (s : Text)
    → (replace_from needle new k s ≡ replace_from needle new 0 (drop k s))
      × (count_from needle k s ≡ count_from needle 0 (drop k s))
unfolding replace_from count_from
replace_from-skip needle new zero s = (refl, refl)
replace_from-skip needle new (suc k) [] = (refl, refl)
replace_from-skip needle new (suc k) (c ∷ s) = replace_from-skip needle new k s

-- What the first place of the needle means for the others.
abbrev First : ℕ → Text → Text → Text → Text → Text → Type 0
First d ds new s b a =
    (replace_from (d ∷ ds) new 0 s ≡ b ++ (new ++ replace_from (d ∷ ds) new 0 a))
    × (count_from (d ∷ ds) 0 s ≡ suc (count_from (d ∷ ds) 0 a))

find_text-some :
    (d : ℕ) (ds new s b a : Text) → find_text (d ∷ ds) s ≡ some (b, a) → First d ds new s b a
unfolding find_text replace_from count_from
find_text-some d ds new [] b a h = absurd (cc)
find_text-some d ds new (c ∷ s) b a h = elim (Option-cases (strip_prefix (d ∷ ds) (c ∷ s))) [
  | inr (rest, k) ↦
      let (front, back) = same_parts [] rest b a (rw (k, find_text) at h) in
      let (whole, tail) = strip_prefix-some (d ∷ ds) (c ∷ s) rest k in
      let width : length (d ∷ ds) - 1 ≡ length ds = omega arith in
      let (skipped, counted) = replace_from-skip (d ∷ ds) new (length ds) s in
      let at : drop (length ds) s ≡ a = sym tail ∙ back in
      (
        rw (k, replace_from)
            (rw (width, sym front)
              (ap (λ t. new ++ t) (skipped ∙ ap (replace_from (d ∷ ds) new 0) at))),
        rw (k, count_from) (rw width (ap (λ n. suc n) (counted ∙ ap (count_from (d ∷ ds) 0) at))),
      )
  | inl k ↦ elim (Option-cases (find_text (d ∷ ds) s)) [
    | inl n ↦ absurd (cc (rw n at (rw (k, find_text) at h)))
    | inr ((x, y), n) ↦
        let (front, back) = same_parts (c ∷ x) y b a (rw n at (rw (k, find_text) at h)) in
        let (f, g) = find_text-some d ds new s x y n in
        (
          rw (k, replace_from)
              (ap (◌∷◌ c) f
                ∙ ap (λ t. t ++ (new ++ replace_from (d ∷ ds) new 0 y)) front
                ∙ ap (λ t. b ++ (new ++ replace_from (d ∷ ds) new 0 t)) back),
          rw (k, count_from) (g ∙ ap (λ t. suc (count_from (d ∷ ds) 0 t)) back),
        )
  ]
]

find_text-none :
    (d : ℕ) (ds new s : Text) → find_text (d ∷ ds) s ≡ none → replace_from (d ∷ ds) new 0 s ≡ s
unfolding find_text replace_from
find_text-none d ds new [] h = refl
find_text-none d ds new (c ∷ s) h = elim (Option-cases (strip_prefix (d ∷ ds) (c ∷ s))) [
  | inr (rest, k) ↦ absurd (cc (rw (k, find_text) at h))
  | inl k ↦ elim (Option-cases (find_text (d ∷ ds) s)) [
    | inl n ↦ rw (k, replace_from) (ap (◌∷◌ c) (find_text-none d ds new s n))
    | inr (x, n) ↦ absurd (cc (rw n at (rw (k, find_text) at h)))
  ]
]

-- Replacing the first place is replacing them all, where there is just one.
pub replace_first-once :
    (d : ℕ) (ds new s : Text)
    → count_from (d ∷ ds) 0 s ≡ 1
    → replace_first (d ∷ ds) new s ≡ replace_from (d ∷ ds) new 0 s
unfolding replace_first
replace_first-once d ds new s h = elim (Option-cases (find_text (d ∷ ds) s)) [
  | inl n ↦ rw (n, replace_first) (sym (find_text-none d ds new s n))
  | inr ((b, a), n) ↦
      let (f, g) = find_text-some d ds new s b a n in
      let last : count_from (d ∷ ds) 0 a ≡ 0 = omega (arith, g, h) in
      rw (n, replace_first)
        (sym (f ∙ ap (λ t. b ++ (new ++ t)) (replace_from-none d ds new a last)))
]
