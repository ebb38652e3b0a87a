-- ===== src/Processes/Sessions.antt =====
-- The operations on one session of the process registry: none panics on a sound session, and each
-- keeps it sound.
use perry_hermes.Prelude.{
  ℕ, sym, ◌∙◌, inl, inr, Bool, true, false, Option, none, some, List, Text, Bool-cases,
  Option-cases,
}
use perry_hermes.Maps.{get, get-AllValues, put-AllValues}
use perry_hermes.Processes.Registry.{
  ProcessSession, ProcessRegistry, Found, in_running, in_finished, nowhere, find, on_session,
  changed_running, changed_finished, poll_session, poll,
}
use perry_hermes.Processes.Operations.{
  wait_session, wait_check, kill_session, signal, signalled_by, kill, log_session, logged, read_log,
}
use perry_hermes.Processes.Invariant.{
  IsSound, IsWellFormed, Ends, Returns, whole, poll_session-IsSound,
}

-- An operation on one session that keeps every sound session sound, and does not panic on one, keeps
-- the registry well-formed and does not panic.
module _ {A : Type 0} (Panic : Type 0) where
  on_running :
      (id : Text) (r : ProcessRegistry) (o : Option (ProcessSession × A))
      → IsWellFormed r
      → Ends Panic (λ x. IsSound false x.0) o
      → Ends Panic (λ x. IsWellFormed x.0) (changed_running id r o)
  on_running id r none h p = p
  on_running id r (some (s, a)) h p = record {
    running = put-AllValues (IsSound false) id s r.running p h.running;
    finished = h.finished;
  }

  on_finished :
      (id : Text) (r : ProcessRegistry) (o : Option (ProcessSession × A))
      → IsWellFormed r
      → Ends Panic (λ x. IsSound true x.0) o
      → Ends Panic (λ x. IsWellFormed x.0) (changed_finished id r o)
  on_finished id r none h p = p
  on_finished id r (some (s, a)) h p = record {
    running = h.running;
    finished = put-AllValues (IsSound true) id s r.finished p h.finished;
  }

  on_session-IsWellFormed :
      (id : Text) (f : ProcessSession → Option (ProcessSession × A)) (r : ProcessRegistry)
      → ((done : Bool) (s : ProcessSession)
          → IsSound done s
          → Ends Panic (λ x. IsSound done x.0) (f s))
      → IsWellFormed r
      → Ends Panic (λ x. IsWellFormed x.0) (on_session id f r)
  unfolding on_session find
  on_session-IsWellFormed id f r p h = elim (Option-cases (get id r.running)) [
    | inr (s, k) ↦
        rw (k, on_session, find)
          (on_running id r (f s) h
            (p false s (get-AllValues (IsSound false) id s r.running h.running k)))
    | inl n ↦ elim (Option-cases (get id r.finished)) [
      | inr (s, k) ↦
          rw (n, on_session, find)
            (rw (k, on_session, find)
              (on_finished id r (f s) h
                (p true s (get-AllValues (IsSound true) id s r.finished h.finished k))))
      | inl k ↦ rw (n, on_session, find) (rw (k, on_session, find) h)
    ]
  ]

-- A poll of a well-formed registry never panics.
pub poll-IsWellFormed :
    (id : Text) (now : ℕ) (r : ProcessRegistry)
    → IsWellFormed r
    → Returns (λ x. IsWellFormed x.0) (poll id now r)
unfolding poll
poll-IsWellFormed id now r h =
    on_session-IsWellFormed ⊥ id (poll_session id now) r
      (λ done s k. poll_session-IsSound id now done s k) h

wait_session-IsSound :
    (id : Text) (done : Bool) (s : ProcessSession)
    → IsSound done s
    → Returns (λ x. IsSound done x.0) (wait_session id s)
unfolding wait_session
wait_session-IsSound id done s h = elim (Bool-cases s.exited) [
  | inl k ↦
      rw (k, wait_session)
        (record {
          exited = sym k ∙ h.exited;
          code = h.code;
          offset = whole s.output_buffer;
          bounded = h.bounded;
        })
  | inr k ↦
      rw (k, wait_session)
        (record {
          exited = sym k ∙ h.exited;
          code = h.code;
          offset = h.offset;
          bounded = h.bounded;
        })
]

pub wait_check-IsWellFormed :
    (id : Text) (r : ProcessRegistry)
    → IsWellFormed r
    → Returns (λ x. IsWellFormed x.0) (wait_check id r)
unfolding wait_check
wait_check-IsWellFormed id r h =
    on_session-IsWellFormed ⊥ id (wait_session id) r (λ done s k. wait_session-IsSound id done s k)
      h

kill_session-IsSound :
    (id : Text) (done : Bool) (s : ProcessSession)
    → IsSound done s
    → Returns (λ x. IsSound done x.0) (kill_session id s)
unfolding kill_session
kill_session-IsSound id done s h = elim (Bool-cases s.exited) [
  | inl k ↦
      rw (k, kill_session)
        (record {
          exited = sym k ∙ h.exited;
          code = h.code;
          offset = h.offset;
          bounded = h.bounded;
        })
  | inr k ↦
      rw (k, kill_session)
        (record {
          exited = sym k ∙ h.exited;
          code = h.code;
          offset = h.offset;
          bounded = h.bounded;
        })
]

signalled_by-IsWellFormed :
    (id : Text) (r : ProcessRegistry) → IsWellFormed r → IsWellFormed (signalled_by id r)
unfolding signalled_by
signalled_by-IsWellFormed id r h = go (find id r)
  where
    go :
        (f : Found)
        → IsWellFormed (elim f [
          | in_running s ↦ record r { signalled = signal s r.signalled }
          | in_finished s ↦ record r { signalled = signal s r.signalled }
          | nowhere ↦ r
        ])
    go (in_running s) = record { running = h.running; finished = h.finished }
    go (in_finished s) = record { running = h.running; finished = h.finished }
    go nowhere = h

pub kill-IsWellFormed :
    (id : Text) (r : ProcessRegistry) → IsWellFormed r → Returns (λ x. IsWellFormed x.0) (kill id r)
unfolding kill
kill-IsWellFormed id r h =
    on_session-IsWellFormed ⊥ id (kill_session id) (signalled_by id r)
      (λ done s k. kill_session-IsSound id done s k) (signalled_by-IsWellFormed id r h)

logged-IsSound :
    (id : Text) (total : ℕ) (done : Bool) (s : ProcessSession) (o : Option (List Text))
    → IsSound done s
    → Ends Unit (λ x. IsSound done x.0) (logged id total s o)
logged-IsSound id total done s none h = tt
logged-IsSound id total done s (some slice) h = record {
  exited = h.exited;
  code = h.code;
  offset = h.offset;
  bounded = h.bounded;
}

-- The log keeps the registry well-formed where it does not panic.
pub read_log-IsWellFormed :
    (id : Text) (offset limit : Option ℕ) (r : ProcessRegistry)
    → IsWellFormed r
    → Ends Unit (λ x. IsWellFormed x.0) (read_log id offset limit r)
unfolding read_log log_session
read_log-IsWellFormed id offset limit r h =
    on_session-IsWellFormed Unit id (log_session id offset limit) r
      (λ done s k. logged-IsSound id _ done s _ k) h
