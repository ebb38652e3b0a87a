-- ===== src/Agent/Registry/Restart.antt =====
-- `get_or_create` for a key whose snapshot is on disk.
use perry_hermes.Prelude.{ℕ, ◌≡◌, ◌≢◌, refl, ap, ◌∙◌, Bool, true, false, none, some, [], Text}
use perry_hermes.Agent.Files.{Files}
use perry_hermes.Agent.Session.{Session, Codec, or_else, snapshot, save, persist, load_json_file}
use perry_hermes.Agent.Session.Storage.{read-save, load-persist}
use perry_hermes.Agent.Registry.{
  SessionRegistry, lookup, store_path, archive_dir, corrupt_target, fresh_session, loaded_or_fresh,
  open_session, found_or_opened, get_or_create,
}

module _ {V : Type 0} (F : Files) (C : Codec V F.Bytes) where
  open F use {Fs, read, exists, rename, create_dir_all}

  -- what making the archive directory and renaming the snapshot into it gives
  abbrev pub moved_aside : Text → Text → SessionRegistry V → Fs → Bool × Fs
  moved_aside key ts reg fs =
      rename (store_path F C key reg) (corrupt_target F C key ts reg)
        (create_dir_all (archive_dir F C reg) fs).1

  get_or_create-opened :
      (key ts : Text) (now : ℕ) (reg : SessionRegistry V) (fs : Fs)
      → lookup key reg.sessions ≡ none
      → ((get_or_create F C key ts now reg fs).0.session ≡ (open_session F C key ts reg fs).0)
        × ((get_or_create F C key ts now reg fs).1.1 ≡ (open_session F C key ts reg fs).1)
  unfolding get_or_create found_or_opened
  get_or_create-opened key ts now reg fs h = rw h (refl, refl)

  exists-persist :
      (path : Text) (s : Session V) (fs : Fs)
      → s.store ≡ some path
      → (save F C path (snapshot s) fs).0 ≡ true
      → exists path (persist F C s fs) ≡ true
  unfolding persist
  exists-persist path s fs h k =
      let (b, r, d) = read-save F C path (snapshot s) fs k in
      rw (h, persist) (F.exists-read path b (save F C path (snapshot s) fs).1 r)

  -- A session that was saved under the path of a key is what a registry without that key opens
  -- for it: its log, its baseline and its identity, with the registry's working directory and
  -- system message (the saved one if the registry has none) and an empty queue. Nothing is written.
  pub get_or_create-restored :
      (key ts : Text) (now : ℕ) (reg : SessionRegistry V) (s : Session V) (fs : Fs)
      → lookup key reg.sessions ≡ none
      → s.store ≡ some (store_path F C key reg)
      → (save F C (store_path F C key reg) (snapshot s) fs).0 ≡ true
      → ((get_or_create F C key ts now reg (persist F C s fs)).0.session ≡ record s {
        working_dir = reg.working_dir;
        system_message = or_else reg.system_message s.system_message;
        pending_messages = [];
      })
        × ((get_or_create F C key ts now reg (persist F C s fs)).1.1 ≡ persist F C s fs)
  unfolding open_session loaded_or_fresh
  get_or_create-restored key ts now reg s fs absent stored saved =
      let path = store_path F C key reg in
      let (opened, kept) = get_or_create-opened key ts now reg (persist F C s fs) absent in
      let found : open_session F C key ts reg (persist F C s fs)
          ≡ loaded_or_fresh F C key ts reg
              (load_json_file F C path (some reg.working_dir) reg.system_message (persist F C s fs))
              (persist F C s fs) =
        rw (exists-persist path s fs stored saved, open_session) refl in
      let loaded =
        found
        ∙ ap (λ o. loaded_or_fresh F C key ts reg o (persist F C s fs))
            (load-persist F C path (some reg.working_dir) reg.system_message s fs stored saved) in
      (opened ∙ ap (λ r. r.0) loaded, kept ∙ ap (λ r. r.1) loaded)

  -- A snapshot that cannot be loaded does not block a key that the registry does not hold: the
  -- session is fresh, whether or not the snapshot can be moved away. The files are those that
  -- making the archive directory and renaming the snapshot leave. If the renaming works, the bytes
  -- of the snapshot are kept in the archive directory, and if it goes to another path, the old path
  -- is free.
  pub get_or_create-corrupt :
      (key ts : Text) (now : ℕ) (reg : SessionRegistry V) (fs : Fs)
      → lookup key reg.sessions ≡ none
      → exists (store_path F C key reg) fs ≡ true
      → load_json_file F C (store_path F C key reg) (some reg.working_dir) reg.system_message fs
        ≡ none
      → ((get_or_create F C key ts now reg fs).0.session ≡ fresh_session F C key reg)
        × ((get_or_create F C key ts now reg fs).1.1 ≡ (moved_aside key ts reg fs).1)
        × ((moved_aside key ts reg fs).0 ≡ true
            → (read (corrupt_target F C key ts reg) (get_or_create F C key ts now reg fs).1.1
                ≡ read (store_path F C key reg) fs)
              × (store_path F C key reg ≢ corrupt_target F C key ts reg
                  → exists (store_path F C key reg) (get_or_create F C key ts now reg fs).1.1
                    ≡ false))
  unfolding open_session loaded_or_fresh moved_aside
  get_or_create-corrupt key ts now reg fs absent there broken =
      let path = store_path F C key reg in
      let fs1 = (create_dir_all (archive_dir F C reg) fs).1 in
      let (opened, kept) = get_or_create-opened key ts now reg fs absent in
      let aside : open_session F C key ts reg fs
          ≡ (fresh_session F C key reg, (rename path (corrupt_target F C key ts reg) fs1).1) =
        rw (there, open_session) (rw (broken, loaded_or_fresh) refl) in
      let after = kept ∙ ap (λ r. r.1) aside in
      (
        opened ∙ ap (λ r. r.0) aside,
        after,
        λ moved. (
          ap (read (corrupt_target F C key ts reg)) after
              ∙ F.read-rename path (corrupt_target F C key ts reg) fs1 moved
              ∙ F.read-create_dir_all (archive_dir F C reg) path fs,
          λ apart.
              ap (exists path) after
              ∙ F.exists-rename path (corrupt_target F C key ts reg) fs1 apart moved,
        ),
      )
