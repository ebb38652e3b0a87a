-- ===== src/Files/Matching.antt =====
-- How a match of a pattern in crates/hermes-skill-tools/src/tools/files/search.rs splits: its parts and
-- its last character.
use perry_hermes.Prelude.{
  ℕ, [], ◌∷◌, ◌++◌, Text, ◌≡◌, ◌≢◌, ◌↔◌, append_assoc, append-nil, refl, sym, ap, ◌∙◌, inl, inr,
  ◌⊎◌,
}
use mathlib.Core.Path.{subst}
use perry_hermes.Files.Glob.{star, Matches, empty, leave, take, same}

pub Matches-star : (s : Text) → Matches (star ∷ []) s
Matches-star [] = leave empty
Matches-star (c ∷ s) = take (Matches-star s)

Matches-append : {p q s t : Text} → Matches p s → Matches q t → Matches (p ++ q) (s ++ t)
Matches-append empty e = e
Matches-append (leave d) e = leave (Matches-append d e)
Matches-append (take d) e = take (Matches-append d e)
Matches-append (same n d) e = same n (Matches-append d e)

-- A match of a pattern in two parts.
abbrev Parts : Text → Text → Text → Type 0
Parts p q s = (a : Text) × (b : Text) × (s ≡ a ++ b) × Matches p a × Matches q b

Parts-leave : {p q s : Text} → Parts p q s → Parts (star ∷ p) q s
Parts-leave (a, b, e, l, r) = (a, b, e, leave l, r)

Parts-take : {p q s : Text} (c : ℕ) → Parts (star ∷ p) q s → Parts (star ∷ p) q (c ∷ s)
Parts-take c (a, b, e, l, r) = (c ∷ a, b, ap (◌∷◌ c) e, take l, r)

Parts-same : {p q s : Text} (c : ℕ) → c ≢ star → Parts p q s → Parts (c ∷ p) q (c ∷ s)
Parts-same c n (a, b, e, l, r) = (c ∷ a, b, ap (◌∷◌ c) e, same n l, r)

Matches-split : (p q : Text) {r s : Text} → r ≡ p ++ q → Matches r s → Parts p q s
Matches-split [] q {s} e d = ([], s, refl, empty, subst (λ z. Matches z s) e d)
Matches-split (c ∷ p) q e empty = absurd (cc)
Matches-split (c ∷ p) q e (leave {p = r} {s} d) =
    let ec : star ≡ c = cc in
    let er : r ≡ p ++ q = cc in
    subst (λ z. Parts (z ∷ p) q s) ec (Parts-leave (Matches-split p q er d))
Matches-split (c ∷ p) q e (take {c = x} {p = r} {s} d) =
    let ec : c ≡ star = cc in
    subst (λ z. Parts (z ∷ p) q (x ∷ s)) (sym ec)
      (Parts-take x (subst (λ z. Parts (z ∷ p) q s) ec (Matches-split (c ∷ p) q e d)))
Matches-split (c ∷ p) q e (same {c = x} {p = r} {s} n d) =
    let ec : x ≡ c = cc in
    let er : r ≡ p ++ q = cc in
    subst (λ z. Parts (z ∷ p) q (x ∷ s)) ec (Parts-same x n (Matches-split p q er d))

-- The last character of a text.
unsnoc : (s : Text) → (s ≡ []) ⊎ ((t : Text) × (c : ℕ) × (s ≡ t ++ (c ∷ [])))
unsnoc [] = inl refl
unsnoc (c ∷ s) = elim (unsnoc s) [
  | inl e ↦ inr ([], c, ap (◌∷◌ c) e)
  | inr (t, x, e) ↦ inr (c ∷ t, x, ap (◌∷◌ c) e)
]

snoc_inj : (s t : Text) (c d : ℕ) → s ++ (c ∷ []) ≡ t ++ (d ∷ []) → (s ≡ t) × (c ≡ d)
snoc_inj [] [] c d e = (refl, cc)
snoc_inj [] (y ∷ []) c d e = absurd (cc)
snoc_inj [] (y ∷ z ∷ t) c d e = absurd (cc)
snoc_inj (x ∷ []) [] c d e = absurd (cc)
snoc_inj (x ∷ z ∷ s) [] c d e = absurd (cc)
snoc_inj (x ∷ s) (y ∷ t) c d e =
    let ex : x ≡ y = cc in
    let rest : s ++ (c ∷ []) ≡ t ++ (d ∷ []) = cc in
    let (es, ec) = snoc_inj s t c d rest in (cc, ec)

-- A star at the end of the pattern: the last character belongs to it or to a shorter match.
pub star_iff :
    (q s : Text) (c : ℕ)
    → Matches (q ++ (star ∷ [])) (s ++ (c ∷ []))
      ↔ (Matches q (s ++ (c ∷ [])) ⊎ Matches (q ++ (star ∷ [])) s)
star_iff q s c = (forth, back)
  where
    forth :
        Matches (q ++ (star ∷ [])) (s ++ (c ∷ []))
        → Matches q (s ++ (c ∷ [])) ⊎ Matches (q ++ (star ∷ [])) s
    forth d =
        let (a, b, e, l, r) = Matches-split q (star ∷ []) refl d in
        elim (unsnoc b) [
          | inl eb ↦
              let whole : s ++ (c ∷ []) ≡ a = e ∙ (ap (λ z. a ++ z) eb ∙ append-nil a) in
              inl (subst (Matches q) (sym whole) l)
          | inr (t, x, eb) ↦
              let whole : s ++ (c ∷ []) ≡ (a ++ t) ++ (x ∷ []) =
                e ∙ (ap (λ z. a ++ z) eb ∙ sym (append_assoc a t (x ∷ []))) in
              inr (
                subst (Matches (q ++ (star ∷ []))) (sym (snoc_inj s (a ++ t) c x whole).0)
                  (Matches-append l (Matches-star t)))
        ]

    back :
        Matches q (s ++ (c ∷ [])) ⊎ Matches (q ++ (star ∷ [])) s
        → Matches (q ++ (star ∷ [])) (s ++ (c ∷ []))
    back (inl d) =
        subst (Matches (q ++ (star ∷ []))) (append-nil (s ++ (c ∷ [])))
          (Matches-append d (Matches-star []))
    back (inr d) =
        let (a, b, e, l, r) = Matches-split q (star ∷ []) refl d in
        subst (Matches (q ++ (star ∷ [])))
          (sym (append_assoc a b (c ∷ [])) ∙ ap (λ z. z ++ (c ∷ [])) (sym e))
          (Matches-append l (Matches-star (b ++ (c ∷ []))))

same_inv :
    {p s : Text} {r : ℕ} → r ≢ star → Matches (r ∷ p) s → (t : Text) × (s ≡ r ∷ t) × Matches p t
same_inv n (leave d) = absurd (n refl)
same_inv n (take d) = absurd (n refl)
same_inv n (same {s} m d) = (s, refl, d)

pub empty_inv : {s : Text} → Matches [] s → s ≡ []
empty_inv empty = refl

-- Another character at the end of the pattern is the last one of the text.
pub same_iff :
    (q s : Text) (p c : ℕ)
    → p ≢ star
    → Matches (q ++ (p ∷ [])) (s ++ (c ∷ [])) ↔ ((p ≡ c) × Matches q s)
same_iff q s p c n = (forth, back)
  where
    forth : Matches (q ++ (p ∷ [])) (s ++ (c ∷ [])) → (p ≡ c) × Matches q s
    forth d =
        let (a, b, e, l, r) = Matches-split q (p ∷ []) refl d in
        let (t, eb, rest) = same_inv n r in
        let whole : s ++ (c ∷ []) ≡ a ++ (p ∷ []) =
          e ∙ ap (λ z. a ++ z) (eb ∙ ap (◌∷◌ p) (empty_inv rest)) in
        let (es, ec) = snoc_inj s a c p whole in (sym ec, subst (Matches q) (sym es) l)

    back : (p ≡ c) × Matches q s → Matches (q ++ (p ∷ [])) (s ++ (c ∷ []))
    back (e, d) =
        subst (λ z. Matches (q ++ (p ∷ [])) (s ++ (z ∷ []))) e (Matches-append d (same n empty))

append_is_nil : (a b : Text) → a ++ b ≡ [] → (a ≡ []) × (b ≡ [])
append_is_nil [] b e = (refl, e)
append_is_nil (x ∷ a) b e = absurd (cc)

at_end : {p : ℕ} {r s : Text} → s ≡ [] → Matches (p ∷ r) s → p ≡ star
at_end e (leave d) = refl
at_end e (take d) = refl
at_end e (same n d) = absurd (cc)

-- The first column.
pub first_iff : (q : Text) (p : ℕ) → Matches (q ++ (p ∷ [])) [] ↔ ((p ≡ star) × Matches q [])
first_iff q p = (forth, back)
  where
    forth : Matches (q ++ (p ∷ [])) [] → (p ≡ star) × Matches q []
    forth d =
        let (a, b, e, l, r) = Matches-split q (p ∷ []) refl d in
        let (ea, eb) = append_is_nil a b (sym e) in (at_end eb r, subst (Matches q) ea l)

    back : (p ≡ star) × Matches q [] → Matches (q ++ (p ∷ [])) []
    back (e, d) = subst (λ z. Matches (q ++ (z ∷ [])) []) (sym e) (Matches-append d (leave empty))
