-- ===== src/Tests/RegistryTests.antt =====
-- The session registry on the concrete file system.
use perry_hermes.Prelude.{
  true, ◌≡◌, ◌≢◌, refl, false, none, some, [], ◌∷◌, Text, codes, text_eq_iff,
}
use perry_hermes.Core.Message.{system_message, user_message}
use perry_hermes.Agent.Session.{
  Session, Codec, snapshot, new, with_json_file_store, persist, clear_in_memory_only,
}
use perry_hermes.Agent.Registry.{
  SessionEntry, SessionRegistry, new_registry, new_entry, with_entry, get_session, get_or_create,
  reset, fresh_session, store_path, corrupt_target,
}
use perry_hermes.Agent.Registry.Restart.{get_or_create-restored, get_or_create-corrupt, moved_aside}
use perry_hermes.Tests.World.{Value, files, codec, no_files}

abbrev key : Text
key = codes "cli:a"

abbrev empty_registry : SessionRegistry Value
empty_registry = new_registry (codes "sessions") (codes "/w") (some (system_message (codes "sys")))

abbrev first : SessionEntry Value
unfolding get_or_create
first = (get_or_create files codec key (codes "t") 1 empty_registry no_files).0

-- a session with a message, under the path of the key
abbrev talked : Session Value
talked = record (fresh_session files codec key empty_registry) {
  messages = user_message (codes "hi") ∷ [];
}

abbrev one_session : SessionRegistry Value
one_session = record empty_registry { sessions = (key, new_entry 1 talked) ∷ [] }

get_or_create-restored_example :
    ((get_or_create files codec key
        (codes "t")
        1
        empty_registry
        (persist files codec talked no_files)).0.session
      ≡ talked)
    × ((get_or_create files codec key
          (codes "t")
          1
          empty_registry
          (persist files codec talked no_files)).1.1
        ≡ persist files codec talked no_files)
unfolding perry_hermes.Agent.Registry.lookup perry_hermes.Agent.Session.save
get_or_create-restored_example =
    get_or_create-restored files codec key (codes "t") 1 empty_registry talked no_files refl refl
      refl

-- an encoding that never succeeds, and a snapshot that it cannot decode
abbrev refusing : Codec Value files.Bytes
refusing = record { encode = λ s. none; decode = λ b. none; decode-encode = λ s b e. absurd (cc) }

abbrev old_snapshot : files.Fs
old_snapshot p = some (snapshot talked)

paths_apart :
    store_path files refusing key empty_registry
    ≢ corrupt_target files refusing key (codes "t") empty_registry
paths_apart e =
    let h =
      (text_eq_iff (store_path files refusing key empty_registry)
          (corrupt_target files refusing key (codes "t") empty_registry)).1
        e in
    absurd (cc h)

get_or_create-corrupt_example :
    ((get_or_create files refusing key (codes "t") 1 empty_registry old_snapshot).0.session
      ≡ fresh_session files refusing key empty_registry)
    × ((get_or_create files refusing key (codes "t") 1 empty_registry old_snapshot).1.1
        ≡ (moved_aside files refusing key (codes "t") empty_registry old_snapshot).1)
    × ((moved_aside files refusing key (codes "t") empty_registry old_snapshot).0 ≡ true
        → (files.read
              (corrupt_target files refusing key (codes "t") empty_registry)
              (get_or_create files refusing key (codes "t") 1 empty_registry old_snapshot).1.1
            ≡ files.read (store_path files refusing key empty_registry) old_snapshot)
          × (store_path files refusing key empty_registry
                ≢ corrupt_target files refusing key (codes "t") empty_registry
              → files.exists
                  (store_path files refusing key empty_registry)
                  (get_or_create files refusing key (codes "t") 1 empty_registry old_snapshot).1.1
                ≡ false))
unfolding perry_hermes.Agent.Registry.lookup perry_hermes.Agent.Session.load_json_file
get_or_create-corrupt_example =
    get_or_create-corrupt files refusing key (codes "t") 1 empty_registry old_snapshot refl refl
      refl

-- Here the renaming works, to another path, so the path of the key is free.
old_path_is_free :
    files.exists
      (store_path files refusing key empty_registry)
      (get_or_create files refusing key (codes "t") 1 empty_registry old_snapshot).1.1
    ≡ false
unfolding perry_hermes.Agent.Registry.lookup perry_hermes.Agent.Session.load_json_file moved_aside
old_path_is_free =
    let (fresh, after, kept) =
      get_or_create-corrupt files refusing key (codes "t") 1 empty_registry old_snapshot refl refl
        refl in
    (kept refl).1 paths_apart
