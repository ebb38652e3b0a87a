-- ===== src/Processes/Operations.antt =====
-- The rest of process_registry.rs's operations: waiting, killing, listing, the log, the notifications
-- and the cleanup.
use perry_hermes.Prelude.{
  unwrap_or, ℕ, ◌+◌, ◌-◌, ◌*◌, ◌%◌, ◌^◌, min, Bool, true, false, Option, none, some, List, [], ◌∷◌,
  ◌++◌, Text, codes, lines, length, take, drop, map, ltb, if◌then◌else◌, Result, ok, err,
}
use perry_hermes.Maps.{retain}
use perry_hermes.Utf8.{len}
use perry_hermes.Processes.Registry.{
  ProcessSession, WaitResult, KillResult, LogResult, ProcessInfo, ProcessNotification,
  ProcessRegistry, in_running, in_finished, nowhere, find, not_found, on_session, elapsed_secs,
}

-- A round of the loop of `wait`: the session as the first lock shows it, and, past the deadline, as
-- the second lock shows it.
abbrev pub exited_result : Text → ProcessSession → WaitResult
exited_result id s = record {
  session_id = id;
  exit_code = s.exit_code;
  output = s.output_buffer;
  timed_out = false;
}

abbrev pub timeout_result : Text → ProcessSession → WaitResult
timeout_result id s = record {
  session_id = id;
  exit_code = none;
  output = s.output_buffer;
  timed_out = true;
}

-- a session that has exited is taken as consumed; one that runs stays as it is
unfoldable pub wait_session : Text → ProcessSession → Option (ProcessSession × Option WaitResult)
wait_session id s =
    if s.exited
    then some (
      record s { consumed = true; output_returned_offset = len s.output_buffer },
      some (exited_result id s),
    )
    else some (s, none)

unfoldable pub wait_check :
    Text → ProcessRegistry → Option (ProcessRegistry × Result (Option WaitResult) Text)
unfolding on_session wait_session
wait_check id r = on_session id (wait_session id) r

unfoldable pub wait_timeout : Text → ProcessRegistry → Result WaitResult Text
unfolding find
wait_timeout id r = elim (find id r) [
  | in_running s ↦ ok (timeout_result id s)
  | in_finished s ↦ ok (timeout_result id s)
  | nowhere ↦ err (not_found id)
]

-- `wait`: in each round, what the other tasks do before the first lock and between the locks, and
-- whether the deadline has passed. With no round left the task still waits.
pub record Round : Type 0 where
  pub before : ProcessRegistry → ProcessRegistry
  pub between : ProcessRegistry → ProcessRegistry
  pub expired : Bool

pub data Waiting : Type 0 where
  panic : Waiting
  still_waiting : ProcessRegistry → Waiting
  returned : ProcessRegistry → Result WaitResult Text → Waiting

abbrev pub after_check :
    Option (ProcessRegistry × Result (Option WaitResult) Text)
    → (ProcessRegistry → Waiting)
    → Waiting
after_check none more = panic
after_check (some (r, err e)) more = returned r (err e)
after_check (some (r, ok none)) more = more r
after_check (some (r, ok (some w))) more = returned r (ok w)

unfoldable pub wait : Text → List Round → ProcessRegistry → Waiting
unfolding wait_check wait_timeout
wait id [] r = still_waiting r
wait id (c ∷ cs) r = after_check (wait_check id (c.before r)) (λ r'.
    let rest = wait id cs r' in
    if c.expired then returned (c.between r') (wait_timeout id (c.between r')) else rest)

-- `kill`: the signal, and what the session becomes
unfoldable pub kill_session : Text → ProcessSession → Option (ProcessSession × KillResult)
kill_session id s =
    if s.exited
    then some (s, record { session_id = id; killed = false; exit_code = s.exit_code })
    else some
        (record s { consumed = true }, record { session_id = id; killed = true; exit_code = none })

abbrev pub signal : ProcessSession → List ℕ → List ℕ
signal s groups =
    if s.exited then groups else elim s.pid [ none ↦ groups | some pid ↦ groups ++ pid ∷ [] ]

unfoldable pub signalled_by : Text → ProcessRegistry → ProcessRegistry
unfolding find
signalled_by id r = elim (find id r) [
  | in_running s ↦ record r { signalled = signal s r.signalled }
  | in_finished s ↦ record r { signalled = signal s r.signalled }
  | nowhere ↦ r
]

unfoldable pub kill : Text → ProcessRegistry → Option (ProcessRegistry × Result KillResult Text)
unfolding on_session kill_session signalled_by
kill id r = on_session id (kill_session id) (signalled_by id r)

-- `list`
abbrev pub info : Text → ℕ → ProcessSession → ProcessInfo
info status now s = record {
  id = s.id;
  command = s.command;
  status = status;
  exit_code = s.exit_code;
  uptime_secs = elapsed_secs now s.started_at;
  output_chars = len s.output_buffer;
}

abbrev pub running_info : ℕ → ProcessSession → ProcessInfo
running_info now s = let shown = info (codes "running") now s in record shown { exit_code = none }

unfoldable pub list : ℕ → ProcessRegistry → List ProcessInfo
list now r =
    map (λ e. running_info now e.1) r.running
    ++ map (λ e. info (codes "finished") now e.1) r.finished

-- `read_log`: `none` is the panic of a slice that ends before it starts, as `offset + limit` wraps
-- around
unfoldable pub log_slice : ℕ → ℕ → List Text → Option (List Text)
log_slice offset limit ls =
    let end = min ((offset + limit) % 2 ^ 64) (length ls) in
    if ltb offset (length ls)
    then (if ltb end offset then none else some (take (end - offset) (drop offset ls)))
    else some []

abbrev pub logged :
    Text → ℕ → ProcessSession → Option (List Text) → Option (ProcessSession × LogResult)
logged id total s none = none
logged id total s (some slice) =
    some
      (record s { consumed = true }, record { session_id = id; total_lines = total; lines = slice })

unfoldable pub log_session :
    Text → Option ℕ → Option ℕ → ProcessSession → Option (ProcessSession × LogResult)
unfolding log_slice
log_session id offset limit s =
    let ls = lines s.output_buffer in
    let limit' = unwrap_or limit 200 in
    logged id (length ls) s (log_slice (unwrap_or offset (length ls - limit')) limit' ls)

unfoldable pub read_log :
    Text → Option ℕ → Option ℕ → ProcessRegistry → Option (ProcessRegistry × Result LogResult Text)
unfolding on_session log_session
read_log id offset limit r = on_session id (log_session id offset limit) r

-- `drain_notifications`
abbrev pub drain_notifications : ProcessRegistry → ProcessRegistry × List ProcessNotification
drain_notifications r = (record r { notify = [] }, r.notify)

-- a round of the cleanup task
abbrev pub finished_ttl : ℕ
finished_ttl = 1800 * 1000000000

unfoldable pub cleanup : ℕ → ProcessRegistry → ProcessRegistry
unfolding retain
cleanup now r = record r {
  finished = retain (λ s. ltb now (s.started_at + finished_ttl)) r.finished;
}
