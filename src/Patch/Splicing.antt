-- ===== src/Patch/Splicing.antt =====
-- What hunks do to the lines of a file.
use perry_hermes.Prelude.{
  ℕ, zero, suc, ◌+◌, ◌-◌, ◌<◌, ◌≡◌, refl, sym, ap, ◌∙◌, inl, inr, true, false, Option, none, some,
  List, [], ◌∷◌, ◌++◌, Text, append_assoc, text_eq_iff, is_empty, length, length-append, take, drop,
  arith, Bool-cases, Option-cases,
}
use perry_hermes.Patch.Hunks.{
  lines_start, shift, find_from, find_subsequence, count_loop, count_subsequence, splice,
}

lines_start-append : (ns ls : List Text) → lines_start ns ls ≡ true → ls ≡ ns ++ drop (length ns) ls
unfolding lines_start
lines_start-append [] ls h = refl
lines_start-append (n ∷ ns) [] h = absurd (cc)
lines_start-append (n ∷ ns) (l ∷ ls) h = ground (arith, text_eq_iff n l, lines_start-append ns ls)

-- The needle stands in the lines, after `pos` of them.
abbrev pub Located : List Text → List Text → ℕ → Type 0
Located ls needle pos =
    (pre : List Text) × (post : List Text) × (ls ≡ pre ++ (needle ++ post)) × (length pre ≡ pos)

shift-some : (o : Option ℕ) (n : ℕ) → shift o ≡ some n → (m : ℕ) × (o ≡ some m) × (n ≡ suc m)
shift-some none n h = absurd (cc)
shift-some (some m) n h = let e : some (suc m) ≡ some n = h in (m, refl, cc)

find_from-Located :
    (ls needle : List Text) (pos : ℕ) → find_from ls needle ≡ some pos → Located ls needle pos
unfolding find_from
find_from-Located [] needle pos h = elim (Bool-cases (lines_start needle [])) [
  | inl k ↦
      let e : some 0 ≡ some pos = rw (k, find_from) at h in
      let z : 0 ≡ pos = cc in ([], drop (length needle) [], lines_start-append needle [] k, z)
  | inr k ↦ absurd (cc (rw (k, find_from) at h))
]
find_from-Located (l ∷ ls) needle pos h = elim (Bool-cases (lines_start needle (l ∷ ls))) [
  | inl k ↦
      let e : some 0 ≡ some pos = rw (k, find_from) at h in
      let z : 0 ≡ pos = cc in
      ([], drop (length needle) (l ∷ ls), lines_start-append needle (l ∷ ls) k, z)
  | inr k ↦
      let (m, found, same) = shift-some (find_from ls needle) pos (rw (k, find_from) at h) in
      let (pre, post, e, n) = find_from-Located ls needle m found in
      (l ∷ pre, post, ap (◌∷◌ l) e, omega (arith, n, same))
]

pub find_subsequence-Located :
    (ls needle : List Text) (pos : ℕ)
    → is_empty needle ≡ false
    → find_subsequence ls needle ≡ some pos
    → Located ls needle pos
unfolding find_subsequence
find_subsequence-Located ls needle pos full h =
    find_from-Located ls needle pos (rw (full, find_subsequence) at h)

take-append : (pre rest : List Text) → take (length pre) (pre ++ rest) ≡ pre
take-append [] rest = refl
take-append (l ∷ pre) rest = ap (◌∷◌ l) (take-append pre rest)

drop-append : (pre rest : List Text) → drop (length pre) (pre ++ rest) ≡ rest
drop-append [] rest = refl
drop-append (l ∷ pre) rest = drop-append pre rest

-- The splice at a match keeps all that stands around it.
pub splice-Located :
    (pre needle post new : List Text)
    → splice (length pre) (length needle) new (pre ++ (needle ++ post)) ≡ pre ++ (new ++ post)
splice-Located pre needle post new =
    let whole = sym (append_assoc pre needle post) in
    let place : length pre + length needle ≡ length (pre ++ needle) =
      sym (length-append pre needle) in
    rw (take-append pre (needle ++ post)) (
      ap (λ t. pre ++ (new ++ t))
        (ap (λ n. drop n (pre ++ (needle ++ post))) place
          ∙ ap (drop (length (pre ++ needle))) whole
          ∙ drop-append (pre ++ needle) post))

length-drop : (n : ℕ) (ls : List Text) → length (drop n ls) ≡ length ls - n
length-drop zero ls = omega arith
length-drop (suc n) [] = omega arith
length-drop (suc n) (l ∷ ls) = omega (arith, length-drop n ls)

not_empty-length : (ls : List Text) → is_empty ls ≡ false → 0 < length ls
not_empty-length [] h = absurd (cc)
not_empty-length (l ∷ ls) h = omega arith

dropped_shorter :
    (ls needle : List Text) (pos : ℕ)
    → is_empty needle ≡ false
    → Located ls needle pos
    → (fuel : ℕ) → length ls < suc fuel
    → length (drop (pos + length needle) ls) < fuel
dropped_shorter ls needle pos full (pre, post, e, n) fuel h = omega (
  arith,
  length-drop (pos + length needle) ls,
  not_empty-length needle full,
  ap length e,
  length-append pre (needle ++ post),
  length-append needle post,
)

-- The counting loop ends, as each round drops at least one line.
count_loop-some :
    (fuel : ℕ) (ls needle : List Text)
    → is_empty needle ≡ false
    → length ls < fuel
    → (n : ℕ) × (count_loop fuel ls needle ≡ some n)
unfolding count_loop
count_loop-some zero ls needle full h = absurd (omega arith)
count_loop-some (suc fuel) ls needle full h = elim (Option-cases (find_subsequence ls needle)) [
  | inl k ↦ rw (k, count_loop) (0, refl)
  | inr (pos, k) ↦
      let (pre, post, e, n) = find_subsequence-Located ls needle pos full k in
      let shorter : length (drop (pos + length needle) ls) < fuel =
        dropped_shorter ls needle pos full (pre, post, e, n) fuel h in
      let (m, c) = count_loop-some fuel (drop (pos + length needle) ls) needle full shorter in
      rw (k, count_loop) (rw c (suc m, refl))
]

-- The search of a needle finds it wherever the counting loop counts at least one match.
pub counted_found :
    (ls needle : List Text) (n : ℕ)
    → is_empty needle ≡ false
    → count_subsequence ls needle ≡ some (suc n)
    → (pos : ℕ) × (find_subsequence ls needle ≡ some pos)
unfolding count_subsequence count_loop
counted_found ls needle n full h = elim (Option-cases (find_subsequence ls needle)) [
  | inl k ↦ absurd (cc (rw (full, k, count_subsequence, count_loop) at h))
  | inr found ↦ found
]

pub counted :
    (ls needle : List Text)
    → is_empty needle ≡ false
    → (n : ℕ) × (count_subsequence ls needle ≡ some n)
unfolding count_subsequence
counted ls needle full =
    rw (full, count_subsequence) (count_loop-some (suc (length ls)) ls needle full (omega arith))
