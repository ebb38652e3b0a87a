-- ===== src/Agent/Registry/Lookup.antt =====
-- The sessions of a registry by key: opening, sharing and resetting.
use perry_hermes.Prelude.{
  ℕ, ◌≡◌, refl, ap, ◌∙◌, inl, inr, true, false, Option, none, some, List, [], ◌∷◌, Text, text_eq,
  text_eq_iff, text_eq_refl, if◌then◌else◌, Bool-cases, arith,
}
use perry_hermes.Agent.Files.{Files}
use perry_hermes.Agent.Session.{
  Session, Codec, clear_in_memory_only, archive_to, archive_stored, reset as reset_session,
}
use perry_hermes.Agent.Registry.{
  SessionEntry, SessionRegistry, lookup, insert, with_entry, get_session, found_or_opened,
  get_or_create, reset_entry, reset, archive_dir,
}

module _ {V : Type 0} where
  lookup-insert :
      (key : Text) (e : SessionEntry V) (es : List (Text × SessionEntry V))
      → lookup key (insert key e es) ≡ some e
  unfolding lookup insert
  lookup-insert key e [] = rw (text_eq_refl key) refl
  lookup-insert key e (x ∷ es) = elim (Bool-cases (text_eq x.0 key)) [
    | inl h ↦ rw (h, insert) (rw (text_eq_refl key, lookup) refl)
    | inr h ↦ rw (h, insert) (rw (h, lookup) (lookup-insert key e es))
  ]

  lookup-insert_other :
      (key other : Text) (e : SessionEntry V) (es : List (Text × SessionEntry V))
      → text_eq key other ≡ false
      → lookup other (insert key e es) ≡ lookup other es
  unfolding lookup insert
  lookup-insert_other key other e [] apart = rw apart refl
  lookup-insert_other key other e (x ∷ es) apart = elim (Bool-cases (text_eq x.0 key)) [
    | inl h ↦
        let same : x.0 ≡ key = (text_eq_iff x.0 key).0 h in
        rw (h, insert)
          (rw (apart, lookup) (rw (ap (λ k. text_eq k other) same ∙ apart, lookup) refl))
    | inr h ↦
        rw (h, insert)
          (ap (λ r. if text_eq x.0 other then some x.1 else r)
            (lookup-insert_other key other e es apart))
  ]

module _ {V : Type 0} (F : Files) (C : Codec V F.Bytes) where
  open F use {Fs}

  found_or_opened-stored :
      (key ts : Text) (now : ℕ) (reg : SessionRegistry V) (fs : Fs) (o : Option (SessionEntry V))
      → lookup key (found_or_opened F C key ts now reg fs o).1.0.sessions
        ≡ some (found_or_opened F C key ts now reg fs o).0
  unfolding found_or_opened with_entry
  found_or_opened-stored key ts now reg fs none = lookup-insert key _ reg.sessions
  found_or_opened-stored key ts now reg fs (some e) = lookup-insert key _ reg.sessions

  found_or_opened-others :
      (key ts other : Text) (now : ℕ) (reg : SessionRegistry V) (fs : Fs)
      (o : Option (SessionEntry V))
      → text_eq key other ≡ false
      → lookup other (found_or_opened F C key ts now reg fs o).1.0.sessions
        ≡ lookup other reg.sessions
  unfolding found_or_opened with_entry
  found_or_opened-others key ts other now reg fs none h =
      lookup-insert_other key other _ reg.sessions h
  found_or_opened-others key ts other now reg fs (some e) h =
      lookup-insert_other key other _ reg.sessions h

  -- Whoever asks for a key again, at any later time, gets the session that the first call opened,
  -- with no further access to the files; only the time of its last activity changes.
  pub get_or_create-again :
      (key ts ts2 : Text) (now now2 : ℕ) (reg : SessionRegistry V) (fs : Fs)
      → (get_or_create F C key ts2 now2
          (get_or_create F C key ts now reg fs).1.0
          (get_or_create F C key ts now reg fs).1.1)
        ≡ (
          record (get_or_create F C key ts now reg fs).0 { last_active = now2 },
          (
            with_entry key
                (record (get_or_create F C key ts now reg fs).0 { last_active = now2 })
                (get_or_create F C key ts now reg fs).1.0,
            (get_or_create F C key ts now reg fs).1.1,
          ),
        )
  unfolding get_or_create
  get_or_create-again key ts ts2 now now2 reg fs =
      let r = found_or_opened F C key ts now reg fs (lookup key reg.sessions) in
      ap (λ o. found_or_opened F C key ts2 now2 r.1.0 r.1.1 o)
        (found_or_opened-stored key ts now reg fs (lookup key reg.sessions))

  -- Opening the session of one key leaves the sessions of all other keys as they are.
  pub get_or_create-others :
      (key ts other : Text) (now : ℕ) (reg : SessionRegistry V) (fs : Fs)
      → text_eq key other ≡ false
      → get_session other (get_or_create F C key ts now reg fs).1.0 ≡ get_session other reg
  unfolding get_or_create get_session
  get_or_create-others key ts other now reg fs h =
      ap (λ o. elim o as (λ x. Option (Session V)) [ none ↦ none | some e ↦ some e.session ])
        (found_or_opened-others key ts other now reg fs (lookup key reg.sessions) h)

  archive_to-cleared :
      (dir ts : Text) (s : Session V) (fs : Fs)
      → clear_in_memory_only (archive_to F C dir ts s fs).1.0 ≡ clear_in_memory_only s
  unfolding archive_to archive_stored clear_in_memory_only
  archive_to-cleared dir ts s fs = ground arith

  -- A reset of a key with a session reports true and leaves that session with no log, no pending
  -- messages and no baseline and otherwise as it was, whether or not the archiving works.
  pub reset-cleared :
      (key ts : Text) (now : ℕ) (reg : SessionRegistry V) (fs : Fs) (e : SessionEntry V)
      → lookup key reg.sessions ≡ some e
      → ((reset F C key ts now reg fs).0 ≡ true)
        × (get_session key (reset F C key ts now reg fs).1.0
            ≡ some (clear_in_memory_only e.session))
  unfolding reset reset_entry reset_session get_session with_entry
  reset-cleared key ts now reg fs e h =
      rw (h, reset)
        (
          refl,
          rw (lookup-insert key (reset_entry F C ts now reg e fs).0 reg.sessions, get_session)
              (ap some (archive_to-cleared (archive_dir F C reg) ts e.session fs)),
        )
