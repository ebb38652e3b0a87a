-- ===== src/Processes/Registry.antt =====
-- The state of the process registry of process_registry.rs and its operations, each under the lock
-- it takes. `none` is a panic. The maps are in the order of insertion, an order that `HashMap` does
-- not promise. What comes from outside is an argument: whether the shell could be started and with
-- which process id, the chunks that it prints, its exit code, and the clock, in nanoseconds.
use perry_hermes.Prelude.{
  ℕ, ◌+◌, ◌-◌, ◌/◌, ◌%◌, ◌^◌, Bool, true, false, Option, none, some, List, [], ◌∷◌, ◌++◌, Text,
  codes, decimal, ltb, if◌then◌else◌, Result, ok, err,
}
use perry_hermes.Maps.{get, put, remove}
use perry_hermes.Utf8.{len}
use perry_hermes.Processes.Buffer.{
  max_output_chars, notify_output_tail_chars, slice_from, truncate_buffer, tail_chars,
}

-- an `i32`
pub data ℤ : Type 0 where
  pos negsuc : ℕ → ℤ

pub record ProcessSession : Type 0 where
  pub id : Text
  pub command : Text
  pub cwd : Text
  pub pid : Option ℕ
  pub started_at : ℕ
  pub exited : Bool
  pub exit_code : Option ℤ
  pub output_buffer : Text
  pub output_returned_offset : ℕ
  pub notify_on_complete : Bool
  pub consumed : Bool

pub record PollResult : Type 0 where
  pub session_id : Text
  pub status : Text
  pub exit_code : Option ℤ
  pub output : Text
  pub uptime_secs : ℕ

pub record WaitResult : Type 0 where
  pub session_id : Text
  pub exit_code : Option ℤ
  pub output : Text
  pub timed_out : Bool

pub record KillResult : Type 0 where
  pub session_id : Text
  pub killed : Bool
  pub exit_code : Option ℤ

pub record LogResult : Type 0 where
  pub session_id : Text
  pub total_lines : ℕ
  pub lines : List Text

pub record ProcessInfo : Type 0 where
  pub id : Text
  pub command : Text
  pub status : Text
  pub exit_code : Option ℤ
  pub uptime_secs : ℕ
  pub output_chars : ℕ

pub record ProcessNotification : Type 0 where
  pub session_id : Text
  pub exit_code : ℤ
  pub command : Text
  pub output_tail : Text

-- The registry, with the counter of ids, the channel of notifications and, in `signalled`, the
-- process groups that a SIGTERM was sent to.
pub record ProcessRegistry : Type 0 where
  pub next_id : ℕ
  pub running : List (Text × ProcessSession)
  pub finished : List (Text × ProcessSession)
  pub notify : List ProcessNotification
  pub signalled : List ℕ

abbrev pub new : ProcessRegistry
new = record { next_id = 1; running = []; finished = []; notify = []; signalled = [] }

abbrev pub session_new : Text → Text → Text → Option ℕ → ℕ → Bool → ProcessSession
session_new id command cwd pid now notify = record {
  id = id;
  command = command;
  cwd = cwd;
  pid = pid;
  started_at = now;
  exited = false;
  exit_code = none;
  output_buffer = [];
  output_returned_offset = 0;
  notify_on_complete = notify;
  consumed = false;
}

-- `spawn`, as far as the start of the reader task; `started` is what starting the shell gives
abbrev pub id_of : ℕ → Text
id_of n = codes "proc_" ++ decimal n

unfoldable pub spawn :
    Text
    → Text
    → Text
    → Bool
    → ℕ
    → Result (Option ℕ) Text
    → ProcessRegistry
    → ProcessRegistry × Result Text Text
spawn shell_program command cwd notify now started r =
    let id = id_of r.next_id in
    let r' : ProcessRegistry = record r { next_id = (r.next_id + 1) % 2 ^ 64 } in
    elim started [
      | err e ↦ (r', err (codes "failed to spawn shell '" ++ (shell_program ++ (codes "': " ++ e))))
      | ok pid ↦ (
        record r' { running = put id (session_new id command cwd pid now notify) r.running },
        ok id,
      )
    ]

-- `append_output`: a chunk that a reader task has read
abbrev pub truncated : ProcessSession → Option Text → Option ProcessSession
truncated s none = none
truncated s (some b) = some (record s { output_buffer = b; output_returned_offset = len b })

unfoldable pub append_chunk : Text → ProcessSession → Option ProcessSession
unfolding truncate_buffer
append_chunk chunk s =
    let buffer = s.output_buffer ++ chunk in
    if ltb max_output_chars (len buffer)
    then truncated s (truncate_buffer buffer)
    else some (record s { output_buffer = buffer })

abbrev pub with_running : Text → ProcessRegistry → Option ProcessSession → Option ProcessRegistry
with_running id r none = none
with_running id r (some s) = some (record r { running = put id s r.running })

unfoldable pub append_output : Text → Text → ProcessRegistry → Option ProcessRegistry
unfolding append_chunk get
append_output id chunk r = elim (get id r.running) [
  | none ↦ some r
  | some s ↦ with_running id r (append_chunk chunk s)
]

-- the end of the reader task: first the session leaves `running`
abbrev pub ended : ℤ → ProcessSession → Option Text → Option ProcessSession
ended code s none = none
ended code s (some b) = some (record s { exited = true; exit_code = some code; output_buffer = b })

abbrev pub taken :
    Text
    → ProcessRegistry
    → Option ProcessSession
    → Option (ProcessRegistry × Option ProcessSession)
taken id r none = none
taken id r (some s) = some (record r { running = remove id r.running }, some s)

unfoldable pub take_exited :
    Text → ℤ → ProcessRegistry → Option (ProcessRegistry × Option ProcessSession)
unfolding truncate_buffer get
take_exited id code r = elim (get id r.running) [
  | none ↦ some (r, none)
  | some s ↦ taken id r (ended code s (truncate_buffer s.output_buffer))
]

-- then it enters `finished`, and the notification is sent
abbrev pub stored :
    Text → ℤ → ProcessSession → ProcessRegistry → Option Text → Option ProcessRegistry
stored id code s r none = none
stored id code s r (some tail) =
    let r' : ProcessRegistry = record r { finished = put id s r.finished } in
    let note : ProcessNotification = record {
      session_id = id;
      exit_code = code;
      command = s.command;
      output_tail = tail;
    } in
    some (if s.notify_on_complete then record r' { notify = r.notify ++ note ∷ [] } else r')

unfoldable pub store_finished : Text → ℤ → ProcessSession → ProcessRegistry → Option ProcessRegistry
unfolding tail_chars
store_finished id code s r =
    stored id code s r (tail_chars s.output_buffer notify_output_tail_chars)

-- `find_session` and `find_session_mut`: the session with the map that holds it
pub data Found : Type 0 where
  in_running in_finished : ProcessSession → Found
  nowhere : Found

unfoldable pub find : Text → ProcessRegistry → Found
unfolding get
find id r = elim (get id r.running) [
  | some s ↦ in_running s
  | none ↦ elim (get id r.finished) [ some s ↦ in_finished s | none ↦ nowhere ]
]

abbrev pub not_found : Text → Text
not_found id = codes "process " ++ (id ++ codes " not found")

-- an operation on the session that `find_session_mut` gives
module _ {A : Type 0} where
  abbrev pub changed_running :
      Text
      → ProcessRegistry
      → Option (ProcessSession × A)
      → Option (ProcessRegistry × Result A Text)
  changed_running id r none = none
  changed_running id r (some (s, a)) = some (record r { running = put id s r.running }, ok a)

  abbrev pub changed_finished :
      Text
      → ProcessRegistry
      → Option (ProcessSession × A)
      → Option (ProcessRegistry × Result A Text)
  changed_finished id r none = none
  changed_finished id r (some (s, a)) = some (record r { finished = put id s r.finished }, ok a)

  unfoldable pub on_session :
      Text
      → (ProcessSession → Option (ProcessSession × A))
      → ProcessRegistry
      → Option (ProcessRegistry × Result A Text)
  unfolding find
  on_session id f r = elim (find id r) [
    | in_running s ↦ changed_running id r (f s)
    | in_finished s ↦ changed_finished id r (f s)
    | nowhere ↦ some (r, err (not_found id))
  ]

abbrev pub elapsed_secs : ℕ → ℕ → ℕ
elapsed_secs now start = (now - start) / 1000000000

abbrev pub status_of : Bool → Text
status_of exited = if exited then codes "finished" else codes "running"

-- `poll`
abbrev pub polled : Text → ℕ → ProcessSession → Option Text → Option (ProcessSession × PollResult)
polled id now s none = none
polled id now s (some new_output) = some (
  record s { output_returned_offset = len s.output_buffer; consumed = true },
  record {
    session_id = id;
    status = status_of s.exited;
    exit_code = s.exit_code;
    output = new_output;
    uptime_secs = elapsed_secs now s.started_at;
  },
)

unfoldable pub poll_session : Text → ℕ → ProcessSession → Option (ProcessSession × PollResult)
unfolding slice_from
poll_session id now s = polled id now s (slice_from s.output_buffer s.output_returned_offset)

unfoldable pub poll : Text → ℕ → ProcessRegistry → Option (ProcessRegistry × Result PollResult Text)
unfolding on_session poll_session
poll id now r = on_session id (poll_session id now) r
