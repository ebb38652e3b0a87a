-- ===== src/Memory/Adding.antt =====
-- What the files hold after the operations of the memory store.
use perry_hermes.Prelude.{
  sym, ◌≡◌, refl, ◌⊎◌, inl, inr, true, false, Option, none, some, List, [], ◌∷◌, ◌++◌, Text, codes,
  text_eq, any, is_empty, trim, All, ok, Bool-cases,
}
use perry_hermes.Memory.Entries.{read_entries, content_of_entries, dedup_in_place}
use mathlib.Core.Path.{subst}
use perry_hermes.Memory.Distinct.{distinct, dedup_in_place-distinct}
use perry_hermes.Memory.RoundTrip.{IsStorable, parse_entries-content}
use perry_hermes.Memory.Store.{
  TextFiles, LiveState, MemoryTarget, MemoryOpResult, set_entries, path_for, read_file, write_file,
  store_entries, add_trimmed, add,
}

module _ (F : TextFiles) (dir : Text) where
  open F use {Fs}

  -- A file that was written with no error reads back as the entries that were written.
  pub read_file-write_file :
      (target : MemoryTarget) (es : List Text) (fs : Fs)
      → All IsStorable es
      → (write_file F dir target es fs).0 ≡ none
      → read_file F dir target (write_file F dir target es fs).1 ≡ es
  unfolding read_file write_file read_entries
  read_file-write_file target es fs a h = go (F.parent (path_for F dir target)) h
    where
      written : Option Text → Option Text × Fs
      written o = elim o [
        | none ↦ (some (codes "memory file has no parent directory"), fs)
        | some d ↦ elim (F.create_dir_all d fs).0 [
          | none ↦
              F.replace_file (path_for F dir target) (content_of_entries es)
                (F.create_dir_all d fs).1
          | some text ↦ (some text, (F.create_dir_all d fs).1)
        ]
      ]

      go :
          (o : Option Text)
          → (written o).0 ≡ none
          → read_entries (F.read_to_string (path_for F dir target) (written o).1) ≡ es
      go none k = absurd (cc)
      go (some d) k = created (F.create_dir_all d fs) k
        where
          created :
              (r : Option Text × Fs)
              → (elim r.0 as (λ x. Option Text × Fs) [
                | none ↦ F.replace_file (path_for F dir target) (content_of_entries es) r.1
                | some text ↦ (some text, r.1)
              ]).0
                ≡ none
              → read_entries (
                  F.read_to_string
                    (path_for F dir target)
                    (elim r.0 as (λ x. Option Text × Fs) [
                      | none ↦ F.replace_file (path_for F dir target) (content_of_entries es) r.1
                      | some text ↦ (some text, r.1)
                    ]).1)
                ≡ es
          created (some text, fs1) j = absurd (cc)
          created (none, fs1) j =
              rw (F.read-replace_file (path_for F dir target) (content_of_entries es) fs1 j)
                (parse_entries-content es a)

  -- the file and the live entries after an operation that says that it has written
  pub store_entries-reads :
      (target : MemoryTarget) (es : List Text) (message : Text) (live : LiveState) (fs : Fs)
      (r : MemoryOpResult)
      → All IsStorable es
      → (store_entries F dir target es message live (write_file F dir target es fs)).0 ≡ ok r
      → (read_file F dir target
            (store_entries F dir target es message live (write_file F dir target es fs)).1.1
          ≡ es)
        × ((store_entries F dir target es message live (write_file F dir target es fs)).1.0
            ≡ set_entries target es live)
        × (r.entries ≡ es)
  unfolding store_entries
  store_entries-reads target es message live fs r a h =
      go (write_file F dir target es fs) h (read_file-write_file target es fs a)
    where
      go :
          (w : Option Text × Fs)
          → (store_entries F dir target es message live w).0 ≡ ok r
          → (w.0 ≡ none → read_file F dir target w.1 ≡ es)
          → (read_file F dir target (store_entries F dir target es message live w).1.1 ≡ es)
            × ((store_entries F dir target es message live w).1.0 ≡ set_entries target es live)
            × (r.entries ≡ es)
      go (some text, fs1) k back = absurd (cc)
      go (none, fs1) k back = (back refl, refl, cc)

  -- What an addition does to a file whose distinct entries were `es`: nothing, if the content is one
  -- of them, or else the content stands after them.
  abbrev pub Added : MemoryTarget → Text → List Text → LiveState → Fs → LiveState × Fs → Type 0
  Added target c es live fs after =
      ((any (text_eq c) es ≡ true) × (after ≡ (live, fs)))
      ⊎ ((any (text_eq c) es ≡ false)
          × (read_file F dir target after.1 ≡ es ++ c ∷ [])
          × (after.0 ≡ set_entries target (es ++ c ∷ []) live))

  add_dedup :
      (target : MemoryTarget) (content : Text) (live : LiveState) (fs : Fs) (r : MemoryOpResult)
      → All IsStorable (dedup_in_place (read_file F dir target fs) ++ trim content ∷ [])
      → (add F dir target content live fs).0 ≡ ok r
      → Added target
          (trim content)
          (dedup_in_place (read_file F dir target fs))
          live
          fs
          (add F dir target content live fs).1
  unfolding add add_trimmed
  add_dedup target content live fs r a h =
      let c = trim content in
      let fresh = dedup_in_place (read_file F dir target fs) in
      let stored =
        store_entries-reads target (fresh ++ c ∷ []) (codes "Entry added.") live fs r a in
      elim (Bool-cases (is_empty c)) [
        | inl blank ↦ absurd (cc (rw (blank, add) at h))
        | inr full ↦ elim (Bool-cases (any (text_eq c) fresh)) [
          | inl there ↦ inl (there, rw (full, add) (rw (there, add_trimmed) refl))
          | inr absent ↦
              let h1 : (add_trimmed F dir target c live fs).0 ≡ ok r = rw (full, add) at h in
              let (back, same, entries_) = stored (rw (absent, add_trimmed) at h1) in
              inr (
                absent,
                rw (full, add) (rw (absent, add_trimmed) back),
                rw (full, add) (rw (absent, add_trimmed) same),
              )
        ]
      ]

  -- An addition that succeeds either finds the trimmed content among the entries of the file and
  -- changes nothing, or else puts it at their end: the file then reads back as its distinct
  -- entries (each at its first place) and the content, as long as all of them are storable, and the
  -- live entries are the same.
  pub add-reads :
      (target : MemoryTarget) (content : Text) (live : LiveState) (fs : Fs) (r : MemoryOpResult)
      → All IsStorable (distinct (read_file F dir target fs) ++ trim content ∷ [])
      → (add F dir target content live fs).0 ≡ ok r
      → Added target
          (trim content)
          (distinct (read_file F dir target fs))
          live
          fs
          (add F dir target content live fs).1
  add-reads target content live fs r a h =
      let same = dedup_in_place-distinct (read_file F dir target fs) in
      let c = trim content in
      subst (λ es. Added target c es live fs (add F dir target content live fs).1) same
        (add_dedup target content live fs r
          (subst (λ es. All IsStorable (es ++ c ∷ [])) (sym same) a) h)
