-- ===== src/Agent/Session.antt =====
-- crates/hermes-agent/src/session.rs: `AgentSession`, one conversation with its queue of pending
-- user messages and its snapshot on disk. An operation that persists takes and returns the state of
-- the file system. Clones of a session share their state in the source; here it is one record.
pub mod Queue
pub mod Baseline
pub mod Storage
use perry_hermes.Prelude.{
  ℕ, ◌≡◌, Bool, true, false, not, Option, none, some, List, [], ◌∷◌, ◌++◌, Text, codes, is_empty,
  join, ◌==◌, if◌then◌else◌, Result, ok, err,
}
use perry_hermes.Core.Message.{Message, user_message}
use perry_hermes.Core.Usage.{saturating_add}
use perry_hermes.Agent.Files.{Files}

pub data SessionRole : Type 0 where
  root sub_agent : SessionRole

pub record Snapshot (V : Type 0) : Type 0 where
  pub session_id : Text
  pub working_dir : Text
  pub system_message : Option (Message V)
  pub messages : List (Message V)
  pub context_usage_baseline_tokens : Option ℕ
  pub parent_session_id : Option Text
  pub role : SessionRole

-- The store is the path of the snapshot.
pub record Session (V : Type 0) : Type 0 where
  pub session_id : Text
  pub working_dir : Text
  pub system_message : Option (Message V)
  pub parent_session_id : Option Text
  pub role : SessionRole
  pub messages : List (Message V)
  pub pending_messages : List Text
  pub context_usage_baseline_tokens : Option ℕ
  pub store : Option Text

-- `serde_json` on snapshots: encoding may fail, and what it yields decodes to the snapshot.
pub record Codec (V : Type 0) (Bytes : Type 0) : Type 0 where
  pub encode : Snapshot V → Option Bytes
  pub decode : Bytes → Option (Snapshot V)
  pub decode-encode : (s : Snapshot V) (b : Bytes) → encode s ≡ some b → decode b ≡ some s

-- `Option::or`.
abbrev pub or_else {ℓ} : {A : Type ℓ} → Option A → Option A → Option A
or_else none o = o
or_else (some a) o = some a

abbrev set_baseline : ℕ → Option ℕ → Option ℕ
set_baseline tokens none = some tokens
set_baseline tokens (some old) = some old

module _ {V : Type 0} where
  -- `AgentSession::new`
  abbrev pub new : Text → Text → Option (Message V) → Session V
  new session_id working_dir system_message = record {
    session_id = session_id;
    working_dir = working_dir;
    system_message = system_message;
    parent_session_id = none;
    role = root;
    messages = [];
    pending_messages = [];
    context_usage_baseline_tokens = none;
    store = none;
  }

  abbrev pub with_json_file_store : Text → Session V → Session V
  with_json_file_store path s = record s { store = some path }

  abbrev pub with_subagent_identity : Text → Session V → Session V
  with_subagent_identity parent s = record s { parent_session_id = some parent; role = sub_agent }

  unfoldable pub outbound_messages : Session V → List (Message V)
  outbound_messages s = elim s.system_message [ none ↦ s.messages | some sys ↦ sys ∷ s.messages ]

  unfoldable pub enqueue_message : Text → Session V → Session V
  enqueue_message text s = record s { pending_messages = s.pending_messages ++ text ∷ [] }

  -- the combined message of a queue, if it is not empty
  abbrev pub combined : List Text → Option (Message V)
  combined [] = none
  combined (t ∷ ts) = some (user_message (join (codes "\n\n") (t ∷ ts)))

  unfoldable pub drain_pending_messages : Session V → Option (Message V) × Session V
  drain_pending_messages s = (combined s.pending_messages, record s { pending_messages = [] })

  unfoldable pub has_pending_messages : Session V → Bool
  has_pending_messages s = not (is_empty s.pending_messages)

  unfoldable pub peek_pending_messages : Session V → List Text
  peek_pending_messages s = s.pending_messages

  unfoldable pub snapshot : Session V → Snapshot V
  snapshot s = record {
    session_id = s.session_id;
    working_dir = s.working_dir;
    system_message = s.system_message;
    messages = s.messages;
    context_usage_baseline_tokens = s.context_usage_baseline_tokens;
    parent_session_id = s.parent_session_id;
    role = s.role;
  }

  unfoldable pub clear_in_memory_only : Session V → Session V
  clear_in_memory_only s = record s {
    messages = [];
    pending_messages = [];
    context_usage_baseline_tokens = none;
  }

  -- the file name that `archive_to` formats
  abbrev pub archive_name : Text → Session V → Text
  archive_name ts s = s.session_id ++ (codes "_" ++ (ts ++ codes ".json"))

  unfoldable pub compacted_context_tokens : ℕ → Session V → Option ℕ
  compacted_context_tokens summary_output_tokens s = elim s.context_usage_baseline_tokens [
    | none ↦ none
    | some baseline ↦ some (saturating_add baseline summary_output_tokens)
  ]

module _ {V : Type 0} (F : Files) (C : Codec V F.Bytes) where
  open F use {Fs, Bytes, read, exists, write, rename, create_dir_all, parent, join_path}

  write_snapshot : Text → Snapshot V → Fs → Bool × Fs
  write_snapshot path snap fs = elim (C.encode snap) [
    | none ↦ (false, fs)
    | some b ↦ write path b fs
  ]

  -- `JsonFileSessionStore::save`
  unfoldable pub save : Text → Snapshot V → Fs → Bool × Fs
  unfolding write_snapshot
  save path snap fs = elim (parent path) [
    | none ↦ write_snapshot path snap fs
    | some dir ↦
        let (made, fs') = create_dir_all dir fs in
        if made then write_snapshot path snap fs' else (false, fs')
  ]

  -- `persist`: a failure is only logged.
  unfoldable pub persist : Session V → Fs → Fs
  unfolding save snapshot
  persist s fs = elim s.store [ none ↦ fs | some path ↦ (save path (snapshot s) fs).1 ]

  unfoldable pub append_message : Message V → Session V → Fs → Session V × Fs
  unfolding persist
  append_message m s fs =
      let s' : Session V = record s { messages = s.messages ++ m ∷ [] } in (s', persist s' fs)

  unfoldable pub replace_messages : List (Message V) → Session V → Fs → Session V × Fs
  unfolding persist
  replace_messages ms s fs = let s' : Session V = record s { messages = ms } in (s', persist s' fs)

  unfoldable pub reset : Session V → Fs → Session V × Fs
  unfolding persist clear_in_memory_only
  reset s fs = let s' = clear_in_memory_only s in (s', persist s' fs)

  unfoldable pub remember_context_usage_baseline : ℕ → Session V → Fs → Session V × Fs
  unfolding persist
  remember_context_usage_baseline tokens s fs =
      let s' : Session V = record s {
        context_usage_baseline_tokens = set_baseline tokens s.context_usage_baseline_tokens;
      } in
      if tokens == 0 then (s, fs) else (s', persist s' fs)

  -- `load_json_file_with_system_message`; `none` is an error of reading or of parsing.
  unfoldable pub load_json_file : Text → Option Text → Option (Message V) → Fs → Option (Session V)
  load_json_file path working_dir system_message fs = elim (read path fs) [
    | none ↦ none
    | some raw ↦ elim (C.decode raw) [
      | none ↦ none
      | some snap ↦ some (record {
        session_id = snap.session_id;
        working_dir = elim working_dir [ none ↦ snap.working_dir | some d ↦ d ];
        system_message = or_else system_message snap.system_message;
        parent_session_id = snap.parent_session_id;
        role = snap.role;
        messages = snap.messages;
        pending_messages = [];
        context_usage_baseline_tokens = snap.context_usage_baseline_tokens;
        store = some path;
      })
    ]
  ]

  -- what `archive_to` does to the files: rename the snapshot, or write one if there is none
  unfoldable pub archive_file : Text → Text → Session V → Fs → Bool × Fs
  unfolding write_snapshot snapshot
  archive_file path target s fs =
      if exists path fs then rename path target fs else write_snapshot target (snapshot s) fs

  -- `archive_to` of a session with a store
  unfoldable pub archive_stored :
      Text → Text → Text → Session V → Fs → Option Text × (Session V × Fs)
  unfolding archive_file clear_in_memory_only
  archive_stored path dir ts s fs =
      let target = join_path dir (archive_name ts s) in
      let (made, fs') = create_dir_all dir fs in
      let (moved, fs'') = archive_file path target s fs' in
      if made
      then (if moved then (some target, (clear_in_memory_only s, fs'')) else (none, (s, fs'')))
      else (none, (s, fs'))

  -- `archive_to`, with the time stamp as an argument; `none` is an error.
  unfoldable pub archive_to : Text → Text → Session V → Fs → Option Text × (Session V × Fs)
  unfolding archive_stored
  archive_to dir ts s fs = elim s.store [
    | none ↦ (some (join_path dir (s.session_id ++ codes "_no-store.json")), (s, fs))
    | some path ↦ archive_stored path dir ts s fs
  ]
