-- ===== src/Memory/RoundTrip.antt =====
-- Entries written to a file and read again.
use perry_hermes.Prelude.{
  ℕ, ◌≡◌, inl, inr, refl, sym, ap, ◌∙◌, Bool, true, false, List, [], ◌∷◌, ◌++◌, map, Text, filter,
  is_empty, is_whitespace, join, trim, trim_start, trim_end, All, arith, if◌then◌else◌, append-nil,
  Bool-cases,
}
use perry_hermes.Memory.Entries.{
  entry_delimiter, starts_with, contains, cons_first, split_after, not_empty, parse_entries,
  content_of_entries,
}

-- An entry that reads back as it is: trimmed, not empty, and with no delimiter in it, even if the
-- first two characters of one follow.
pub record IsStorable (e : Text) : Type 0 where
  pub trimmed : trim e ≡ e
  pub not_blank : is_empty e ≡ false
  pub undivided : contains entry_delimiter (e ++ 10 ∷ 167 ∷ []) ≡ false

-- Two characters and more decide whether a delimiter starts.
starts-append :
    (c : ℕ) (e rest : Text)
    → starts_with entry_delimiter (c ∷ e ++ 10 ∷ 167 ∷ []) ≡ false
    → starts_with entry_delimiter (c ∷ e ++ (entry_delimiter ++ rest)) ≡ false
starts-append c [] rest h = h
starts-append c (a ∷ []) rest h = h
starts-append c (a ∷ b ∷ e) rest h = h

starts-last :
    (c : ℕ) (e : Text)
    → starts_with entry_delimiter (c ∷ e ++ 10 ∷ 167 ∷ []) ≡ false
    → starts_with entry_delimiter (c ∷ e) ≡ false
starts-last c [] h = ground arith
starts-last c (a ∷ []) h = ground arith
starts-last c (a ∷ b ∷ e) h = h

contains_here :
    (c : ℕ) (s : Text)
    → contains entry_delimiter (c ∷ s) ≡ false
    → (starts_with entry_delimiter (c ∷ s) ≡ false) × (contains entry_delimiter s ≡ false)
contains_here c s h = go (starts_with entry_delimiter (c ∷ s)) h
  where
    go :
        (b : Bool)
        → (if b then true else contains entry_delimiter s) ≡ false
        → (b ≡ false) × (contains entry_delimiter s ≡ false)
    go true k = absurd (cc)
    go false k = (refl, k)

split-entry :
    (e rest : Text)
    → contains entry_delimiter (e ++ 10 ∷ 167 ∷ []) ≡ false
    → split_after 0 (e ++ (entry_delimiter ++ rest)) ≡ e ∷ split_after 0 rest
split-entry [] rest h = refl
split-entry (c ∷ e) rest h =
    let (here, later) = contains_here c (e ++ 10 ∷ 167 ∷ []) h in
    rw (starts-append c e rest here, split_after) (ap (cons_first c) (split-entry e rest later))

split-last :
    (e : Text) → contains entry_delimiter (e ++ 10 ∷ 167 ∷ []) ≡ false → split_after 0 e ≡ e ∷ []
split-last [] h = refl
split-last (c ∷ e) h =
    let (here, later) = contains_here c (e ++ 10 ∷ 167 ∷ []) h in
    rw (starts-last c e here, split_after) (ap (cons_first c) (split-last e later))

split-join :
    (e : Text) (es : List Text)
    → IsStorable e
    → All IsStorable es
    → split_after 0 (join entry_delimiter (e ∷ es)) ≡ e ∷ es
split-join e [] s a = split-last e s.undivided
split-join e (f ∷ es) s a =
    split-entry e (join entry_delimiter (f ∷ es)) s.undivided ∙ ap (◌∷◌ e) (split-join f es a.0 a.1)

kept : (es : List Text) → All IsStorable es → filter not_empty (map trim es) ≡ es
kept [] a = refl
kept (e ∷ es) a = rw a.0.trimmed (rw a.0.not_blank (ap (◌∷◌ e) (kept es a.1)))

-- Text that is not blank stays so, whatever follows.
trim_start-append :
    (e s : Text) → is_empty (trim_start e) ≡ false → is_empty (trim_start (e ++ s)) ≡ false
trim_start-append [] s h = absurd (cc)
trim_start-append (c ∷ e) s h = elim (Bool-cases (is_whitespace c)) [
  | inl w ↦ rw w (trim_start-append e s (rw w at h))
  | inr w ↦ rw w refl
]

-- A text is blank exactly if no start of it stays.
trim-blank : (s : Text) → is_empty (trim s) ≡ is_empty (trim_start s)
trim-blank [] = refl
trim-blank (c ∷ s) = elim (Bool-cases (is_whitespace c)) [
  | inl w ↦ rw w (trim-blank s)
  | inr w ↦ rw w (rw (w, trim_end) refl)
]

trim-append : (e s : Text) → is_empty (trim e) ≡ false → is_empty (trim (e ++ s)) ≡ false
trim-append e s h = trim-blank (e ++ s) ∙ trim_start-append e s (sym (trim-blank e) ∙ h)

join-append : (e : Text) (es : List Text) → (s : Text) × (join entry_delimiter (e ∷ es) ≡ e ++ s)
join-append e [] = ([], sym (append-nil e))
join-append e (f ∷ es) = (_, refl)

join-not_blank :
    (e : Text) (es : List Text)
    → IsStorable e
    → is_empty (trim (join entry_delimiter (e ∷ es))) ≡ false
join-not_blank e es s =
    let (rest, same) = join-append e es in
    rw same (trim-append e rest (ap is_empty s.trimmed ∙ s.not_blank))

-- Entries that are trimmed, not empty and undivided by the delimiter (also by one that they begin
-- and the next delimiter completes) are read back from the file that they are written to, all of
-- them and in order.
pub parse_entries-content :
    (es : List Text) → All IsStorable es → parse_entries (content_of_entries es) ≡ es
unfolding parse_entries
parse_entries-content [] a = refl
parse_entries-content (e ∷ es) (s, a) =
    rw (join-not_blank e es s, parse_entries)
      (ap (λ pieces. filter not_empty (map trim pieces)) (split-join e es s a)
        ∙ kept (e ∷ es) (s, a))
