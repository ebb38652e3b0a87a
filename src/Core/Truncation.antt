-- ===== src/Core/Truncation.antt =====
-- `truncate_output` of crates/hermes-core/src/util.rs: a long output keeps its head and its tail.
use perry_hermes.Prelude.{
  ℕ, zero, suc, ◌+◌, ◌%◌, ◌^◌, ◌-◌, ◌*◌, ◌/◌, ◌<◌, ◌≤◌, ◌≡◌, refl, sym, ap, ◌∙◌, false, [], ◌∷◌,
  ◌++◌, Text, codes, decimal, length, take, drop, leb, length-append, if◌then◌else◌, arith,
}

abbrev pub notice : ℕ → ℕ → Text
notice omitted char_count =
    codes "\n\n... [OUTPUT TRUNCATED - "
    ++ (decimal omitted
        ++ (codes " chars omitted out of " ++ (decimal char_count ++ codes " total] ...\n\n")))

unfoldable pub truncate_output : Text → ℕ → Text
truncate_output s max_chars =
    let char_count = length s in
    let head_chars = max_chars * 2 % 2 ^ 64 / 5 in
    let tail_chars = max_chars - head_chars in
    let head = take head_chars s in
    let tail = drop (char_count - tail_chars) s in
    let omitted = char_count - head_chars - tail_chars in
    if leb char_count max_chars then s else head ++ (notice omitted char_count ++ tail)

take-drop : (n : ℕ) (s : Text) → take n s ++ drop n s ≡ s
take-drop zero s = refl
take-drop (suc n) [] = refl
take-drop (suc n) (c ∷ s) = ap (◌∷◌ c) (take-drop n s)

length-take : (n : ℕ) (s : Text) → n ≤ length s → length (take n s) ≡ n
length-take zero s h = refl
length-take (suc n) [] h = omega arith
length-take (suc n) (c ∷ s) h = omega (arith, length-take n s)

drop_nil : (n : ℕ) → drop {A = ℕ} n [] ≡ []
drop_nil zero = refl
drop_nil (suc n) = refl

drop-drop : (m n : ℕ) (s : Text) → drop m (drop n s) ≡ drop (n + m) s
drop-drop m zero s = ap (λ k. drop k s) (omega arith)
drop-drop m (suc n) [] = drop_nil m ∙ sym (drop_nil (suc n + m))
drop-drop m (suc n) (c ∷ s) =
    let same : suc (n + m) ≡ suc n + m = omega arith in
    drop-drop m n s ∙ ap (λ k. drop k (c ∷ s)) same

-- A text longer than the limit, which is below 2^63, is cut in three: its head, two
-- fifths of the limit, and its tail, the rest of the limit, are kept, and the notice between them
-- states exactly how many characters are left out, and of how many.
pub truncate_output-cut :
    (s : Text) (max_chars : ℕ)
    → max_chars < length s
    → max_chars < 2 ^ 63
    → (head : Text) × (middle : Text) × (tail : Text) × (s ≡ head ++ (middle ++ tail))
      × (truncate_output s max_chars ≡ head ++ (notice (length middle) (length s) ++ tail))
      × (length head ≡ max_chars * 2 / 5)
      × (length head + length tail ≡ max_chars)
unfolding truncate_output
truncate_output-cut s max_chars long small =
    let h = max_chars * 2 % 2 ^ 64 / 5 in
    let fifths : h ≡ max_chars * 2 / 5 = omega arith in
    let rest = drop h s in
    let omitted = length s - h - (max_chars - h) in
    let head = take h s in
    let middle = take omitted rest in
    let tail = drop omitted rest in
    let whole : s ≡ head ++ (middle ++ tail) =
      sym (ap (λ r. head ++ r) (take-drop omitted rest) ∙ take-drop h s) in
    let lh : length head ≡ h = length-take h s (omega arith) in
    let lr : length head + length rest ≡ length s =
      sym (length-append head rest) ∙ ap length (take-drop h s) in
    let lm : length middle ≡ omitted = length-take omitted rest (omega (arith, lh, lr)) in
    let lt : length middle + length tail ≡ length rest =
      sym (length-append middle tail) ∙ ap length (take-drop omitted rest) in
    let place : h + omitted ≡ length s - (max_chars - h) = omega arith in
    let kept : tail ≡ drop (length s - (max_chars - h)) s =
      drop-drop omitted h s ∙ ap (λ k. drop k s) place in
    let over : leb (length s) max_chars ≡ false = ground arith in
    (
      head,
      middle,
      tail,
      whole,
      rw (over, truncate_output) (rw (lm, kept) refl),
      lh ∙ fifths,
      omega (arith, lh, lr, lm, lt),
    )
