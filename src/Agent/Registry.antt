-- ===== src/Agent/Registry.antt =====
-- crates/hermes-agent/src/session_registry.rs: the sessions of a process by key, loaded from disk or
-- created on demand. The map is an association list; the times and the time stamps that the code
-- takes from the clock are arguments; a turn lock is not modelled, since an operation runs alone.
pub mod Lookup
pub mod Restart
use perry_hermes.Prelude.{
  ℕ, ◌≡◌, refl, Bool, true, false, ◌||◌, Option, none, some, List, [], ◌∷◌, ◌++◌, map, Text, codes,
  text_eq, ◌==◌, if◌then◌else◌,
}
use perry_hermes.Core.Message.{Message}
use perry_hermes.Agent.Files.{Files}
use perry_hermes.Agent.Session.{
  Session, Codec, new as new_session, with_json_file_store, with_subagent_identity, load_json_file,
  archive_to, reset as reset_session,
}

pub record SessionEntry (V : Type 0) : Type 0 where
  pub session : Session V
  pub created_at : ℕ
  pub last_active : ℕ

pub record SessionRegistry (V : Type 0) : Type 0 where
  pub sessions : List (Text × SessionEntry V)
  pub sessions_dir : Text
  pub working_dir : Text
  pub system_message : Option (Message V)

-- `format_session_id`: colons and dashes become underscores
abbrev pub format_session_id : Text → Text
format_session_id = map (λ c. if c == 58 || c == 45 then 95 else c)

module _ {V : Type 0} where
  -- `SessionEntry::new`
  abbrev pub new_entry : ℕ → Session V → SessionEntry V
  new_entry now s = record { session = s; created_at = now; last_active = now }

  -- `SessionRegistry::new`
  abbrev pub new_registry : Text → Text → Option (Message V) → SessionRegistry V
  new_registry sessions_dir working_dir system_message = record {
    sessions = [];
    sessions_dir = sessions_dir;
    working_dir = working_dir;
    system_message = system_message;
  }

  unfoldable pub lookup : Text → List (Text × SessionEntry V) → Option (SessionEntry V)
  lookup key [] = none
  lookup key (e ∷ es) = let rest = lookup key es in if text_eq e.0 key then some e.1 else rest

  -- `DashMap::insert`
  unfoldable pub insert :
      Text → SessionEntry V → List (Text × SessionEntry V) → List (Text × SessionEntry V)
  insert key entry [] = (key, entry) ∷ []
  insert key entry (e ∷ es) =
      let rest = insert key entry es in if text_eq e.0 key then (key, entry) ∷ es else e ∷ rest

  unfoldable pub with_entry : Text → SessionEntry V → SessionRegistry V → SessionRegistry V
  unfolding insert
  with_entry key entry reg = record reg { sessions = insert key entry reg.sessions }

  unfoldable pub get_session : Text → SessionRegistry V → Option (Session V)
  unfolding lookup
  get_session key reg = elim (lookup key reg.sessions) [ none ↦ none | some e ↦ some e.session ]

module _ {V : Type 0} (F : Files) (C : Codec V F.Bytes) where
  open F use {Fs, exists, rename, create_dir_all, join_path}

  abbrev pub store_path : Text → SessionRegistry V → Text
  store_path key reg = join_path reg.sessions_dir (format_session_id key ++ codes ".json")

  abbrev pub archive_dir : SessionRegistry V → Text
  archive_dir reg = join_path reg.sessions_dir (codes ".archive")

  abbrev pub fresh_session : Text → SessionRegistry V → Session V
  fresh_session key reg =
      with_json_file_store (store_path key reg)
        (new_session (format_session_id key) reg.working_dir reg.system_message)

  -- where a corrupt snapshot is put
  abbrev pub corrupt_target : Text → Text → SessionRegistry V → Text
  corrupt_target key ts reg =
      join_path (archive_dir reg)
        (format_session_id key ++ (codes "_" ++ (ts ++ codes ".corrupt.json")))

  -- the session of a key with a snapshot: loaded, or fresh with the snapshot put aside; the
  -- failures of putting it aside are only logged
  unfoldable pub loaded_or_fresh :
      Text → Text → SessionRegistry V → Option (Session V) → Fs → Session V × Fs
  loaded_or_fresh key ts reg (some s) fs = (s, fs)
  loaded_or_fresh key ts reg none fs =
      let (made, fs1) = create_dir_all (archive_dir reg) fs in
      let (moved, fs2) = rename (store_path key reg) (corrupt_target key ts reg) fs1 in
      (fresh_session key reg, fs2)

  unfoldable pub open_session : Text → Text → SessionRegistry V → Fs → Session V × Fs
  unfolding loaded_or_fresh
  open_session key ts reg fs =
      if exists (store_path key reg) fs
      then loaded_or_fresh key ts reg
          (load_json_file F C (store_path key reg) (some reg.working_dir) reg.system_message fs) fs
      else (fresh_session key reg, fs)

  -- `get_or_create`, with the entry that `get` finds
  unfoldable pub found_or_opened :
      Text
      → Text
      → ℕ
      → SessionRegistry V
      → Fs
      → Option (SessionEntry V)
      → SessionEntry V × (SessionRegistry V × Fs)
  unfolding open_session with_entry
  found_or_opened key ts now reg fs (some e) =
      let touched : SessionEntry V = record e { last_active = now } in
      (touched, (with_entry key touched reg, fs))
  found_or_opened key ts now reg fs none =
      let (s, fs1) = open_session key ts reg fs in
      (new_entry now s, (with_entry key (new_entry now s) reg, fs1))

  unfoldable pub get_or_create :
      Text → Text → ℕ → SessionRegistry V → Fs → SessionEntry V × (SessionRegistry V × Fs)
  unfolding found_or_opened lookup
  get_or_create key ts now reg fs = found_or_opened key ts now reg fs (lookup key reg.sessions)

  -- `reset` of an entry: archived if that works, and cleared either way
  unfoldable pub reset_entry :
      Text → ℕ → SessionRegistry V → SessionEntry V → Fs → SessionEntry V × Fs
  reset_entry ts now reg e fs =
      let (path, (s, fs1)) = archive_to F C (archive_dir reg) ts e.session fs in
      let (s2, fs2) = reset_session F C s fs1 in (record e { session = s2; last_active = now }, fs2)

  unfoldable pub reset : Text → Text → ℕ → SessionRegistry V → Fs → Bool × (SessionRegistry V × Fs)
  unfolding reset_entry with_entry lookup
  reset key ts now reg fs = elim (lookup key reg.sessions) [
    | none ↦ (false, (reg, fs))
    | some e ↦ let (e2, fs2) = reset_entry ts now reg e fs in (true, (with_entry key e2 reg, fs2))
  ]

  unfoldable pub archive_active :
      Text → Text → SessionRegistry V → Fs → Option Text × (SessionRegistry V × Fs)
  unfolding with_entry lookup
  archive_active key ts reg fs = elim (lookup key reg.sessions) [
    | none ↦ (none, (reg, fs))
    | some e ↦
        let (path, (s, fs1)) = archive_to F C (archive_dir reg) ts e.session fs in
        (path, (with_entry key (record e { session = s }) reg, fs1))
  ]

  -- the key of a sub-agent's session
  abbrev pub child_key : Text → Text → Text → Text
  child_key parent_key sub_id ts = parent_key ++ (codes "__sub_" ++ (sub_id ++ (codes "__" ++ ts)))

  unfoldable pub create_sub_session :
      Text → Text → Text → ℕ → SessionRegistry V → SessionEntry V × SessionRegistry V
  unfolding with_entry
  create_sub_session parent_key sub_id ts now reg =
      let key = child_key parent_key sub_id ts in
      let s = with_subagent_identity parent_key (fresh_session key reg) in
      (new_entry now s, with_entry key (new_entry now s) reg)
