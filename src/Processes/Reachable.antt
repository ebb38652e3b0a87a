-- ===== src/Processes/Reachable.antt =====
-- What holds in all states that the process registry can reach.
use perry_hermes.Prelude.{
  ℕ, ◌≤◌, ◌≡◌, refl, inl, inr, Bool, true, false, Option, none, some, [], Text, arith, leb,
  Bool-cases, Option-cases, Result, ok, err,
}
use perry_hermes.Maps.{get, get-AllValues, put-AllValues, remove-AllValues, retain-AllValues}
use perry_hermes.Utf8.{len}
use perry_hermes.Processes.Buffer.{
  max_output_chars, truncate_buffer, tail_chars, notify_output_tail_chars,
}
use perry_hermes.Processes.Registry.{
  ℤ, ProcessSession, ProcessRegistry, id_of, session_new, spawn, append_chunk, append_output,
  with_running, stored, take_exited, store_finished, poll,
}
use perry_hermes.Processes.Operations.{wait_check, kill, read_log, cleanup}
use perry_hermes.Processes.Invariant.{
  IsSound, IsWellFormed, Ends, Returns, subst_some, whole, append_chunk-IsSound,
}
use perry_hermes.Processes.Steps.{
  World, Step, spawns, appends, takes, stores, polls, waits, kills, logs, cleans, drains, Reachable,
  start, then_step, IsGood,
}
use perry_hermes.Processes.Sessions.{
  poll-IsWellFormed, wait_check-IsWellFormed, kill-IsWellFormed, read_log-IsWellFormed,
}

from_some :
    {A : Type 0} (Panic : Type 0) (P : A → Type 0) (o : Option A) (x : A)
    → Ends Panic P o
    → o ≡ some x
    → P x
from_some Panic P none x p e = absurd (cc)
from_some Panic P (some y) x p e = subst_some P e p

spawn-IsWellFormed :
    (shell command cwd : Text) (notify : Bool) (now : ℕ) (started : Result (Option ℕ) Text)
    (r : ProcessRegistry)
    → IsWellFormed r
    → IsWellFormed (spawn shell command cwd notify now started r).0
unfolding spawn
spawn-IsWellFormed shell command cwd notify now (err e) r h = record {
  running = h.running;
  finished = h.finished;
}
spawn-IsWellFormed shell command cwd notify now (ok pid) r h = record {
  running =
      put-AllValues (IsSound false) (id_of r.next_id)
        (session_new (id_of r.next_id) command cwd pid now notify) r.running
        (record { exited = refl; code = tt; offset = whole []; bounded = omega arith }) h.running;
  finished = h.finished;
}

with_running-IsWellFormed :
    (id : Text) (r : ProcessRegistry) (o : Option ProcessSession)
    → IsWellFormed r
    → Ends Unit (IsSound false) o
    → Ends Unit IsWellFormed (with_running id r o)
with_running-IsWellFormed id r none h p = tt
with_running-IsWellFormed id r (some s) h p = record {
  running = put-AllValues (IsSound false) id s r.running p h.running;
  finished = h.finished;
}

append_chunk-Ends :
    (chunk : Text) (s : ProcessSession)
    → IsSound false s
    → Ends Unit (IsSound false) (append_chunk chunk s)
append_chunk-Ends chunk s h = elim (Option-cases (append_chunk chunk s)) [
  | inl n ↦ rw n tt
  | inr (t, n) ↦ rw n (append_chunk-IsSound chunk false s t h n)
]

append_output-IsWellFormed :
    (id chunk : Text) (r : ProcessRegistry)
    → IsWellFormed r
    → Ends Unit IsWellFormed (append_output id chunk r)
unfolding append_output
append_output-IsWellFormed id chunk r h = elim (Option-cases (get id r.running)) [
  | inl n ↦ rw (n, append_output) h
  | inr (s, n) ↦
      rw (n, append_output)
        (with_running-IsWellFormed id r (append_chunk chunk s) h
          (append_chunk-Ends chunk s (get-AllValues (IsSound false) id s r.running h.running n)))
]

-- The final truncation of a running session's buffer changes nothing.
truncate_buffer-fits : (b : Text) → len b ≤ max_output_chars → truncate_buffer b ≡ some b
unfolding truncate_buffer
truncate_buffer-fits b h = elim (Bool-cases (leb (len b) max_output_chars)) [
  | inl k ↦ rw (k, truncate_buffer) refl
  | inr k ↦ absurd (ground (arith, k))
]

-- What leaves `running` is sound, as a session that has exited.
abbrev Left : ProcessRegistry × Option ProcessSession → Type 0
Left (r, none) = IsWellFormed r
Left (r, some s) = IsWellFormed r × IsSound true s

take_exited-Left :
    (id : Text) (code : ℤ) (r : ProcessRegistry)
    → IsWellFormed r
    → Returns Left (take_exited id code r)
unfolding take_exited
take_exited-Left id code r h = elim (Option-cases (get id r.running)) [
  | inl n ↦ rw (n, take_exited) h
  | inr (s, n) ↦
      let p = get-AllValues (IsSound false) id s r.running h.running n in
      rw (n, take_exited)
        (rw (truncate_buffer-fits s.output_buffer p.bounded) (
          record {
            running = remove-AllValues (IsSound false) id r.running h.running;
            finished = h.finished;
          },
          record { exited = refl; code = tt; offset = p.offset; bounded = p.bounded },
        ))
]

store_finished-IsWellFormed :
    (id : Text) (code : ℤ) (s : ProcessSession) (r : ProcessRegistry)
    → IsWellFormed r
    → IsSound true s
    → Ends Unit IsWellFormed (store_finished id code s r)
unfolding store_finished
store_finished-IsWellFormed id code s r h p =
    go (tail_chars s.output_buffer notify_output_tail_chars)
  where
    go : (o : Option Text) → Ends Unit IsWellFormed (stored id code s r o)
    go none = tt
    go (some tail) = elim (Bool-cases s.notify_on_complete) [
      | inl k ↦ rw k (record {
        running = h.running;
        finished =
            put-AllValues (IsSound true) id _ r.finished
              (record { exited = p.exited; code = p.code; offset = p.offset; bounded = p.bounded })
              h.finished;
      })
      | inr k ↦ rw k (record {
        running = h.running;
        finished =
            put-AllValues (IsSound true) id _ r.finished
              (record { exited = p.exited; code = p.code; offset = p.offset; bounded = p.bounded })
              h.finished;
      })
    ]

cleanup-IsWellFormed :
    (now : ℕ) (r : ProcessRegistry) → IsWellFormed r → IsWellFormed (cleanup now r)
unfolding cleanup
cleanup-IsWellFormed now r h = record {
  running = h.running;
  finished = retain-AllValues (IsSound true) _ r.finished h.finished;
}

step-IsGood : {v w : World} → Step v w → IsGood v → IsGood w
step-IsGood (spawns v shell command cwd notify now started) h = record {
  registry = spawn-IsWellFormed shell command cwd notify now started v.registry h.registry;
  leaving = h.leaving;
}
step-IsGood (appends v id chunk r e) h = record {
  registry =
      from_some Unit IsWellFormed (append_output id chunk v.registry) r
        (append_output-IsWellFormed id chunk v.registry h.registry) e;
  leaving = h.leaving;
}
step-IsGood (takes v id code r s e) h =
    let p =
      from_some ⊥ Left (take_exited id code v.registry) (r, some s)
        (take_exited-Left id code v.registry h.registry) e in
    record {
      registry = p.0;
      leaving = put-AllValues (λ x. IsSound true x.1) id (code, s) v.leaving p.1 h.leaving;
    }
step-IsGood (stores v id code s r e f) h =
    let p = get-AllValues (λ x. IsSound true x.1) id (code, s) v.leaving h.leaving e in
    record {
      registry =
          from_some Unit IsWellFormed (store_finished id code s v.registry) r
            (store_finished-IsWellFormed id code s v.registry h.registry p) f;
      leaving = remove-AllValues (λ x. IsSound true x.1) id v.leaving h.leaving;
    }
step-IsGood (polls v id now r a e) h = record {
  registry =
      from_some ⊥ (λ x. IsWellFormed x.0) (poll id now v.registry) (r, a)
        (poll-IsWellFormed id now v.registry h.registry) e;
  leaving = h.leaving;
}
step-IsGood (waits v id r a e) h = record {
  registry =
      from_some ⊥ (λ x. IsWellFormed x.0) (wait_check id v.registry) (r, a)
        (wait_check-IsWellFormed id v.registry h.registry) e;
  leaving = h.leaving;
}
step-IsGood (kills v id r a e) h = record {
  registry =
      from_some ⊥ (λ x. IsWellFormed x.0) (kill id v.registry) (r, a)
        (kill-IsWellFormed id v.registry h.registry) e;
  leaving = h.leaving;
}
step-IsGood (logs v id offset limit r a e) h = record {
  registry =
      from_some Unit (λ x. IsWellFormed x.0) (read_log id offset limit v.registry) (r, a)
        (read_log-IsWellFormed id offset limit v.registry h.registry) e;
  leaving = h.leaving;
}
step-IsGood (cleans v now) h = record {
  registry = cleanup-IsWellFormed now v.registry h.registry;
  leaving = h.leaving;
}
step-IsGood (drains v) h = record {
  registry = record { running = h.registry.running; finished = h.registry.finished };
  leaving = h.leaving;
}

-- In every state that the tasks can reach by steps that do not panic, in whatever order they take the
-- lock, and whatever the processes print, the sessions of `running` have no exit code and those of `finished` have one,
-- every buffer is within its limit, and every offset stands between two characters.
pub Reachable-IsGood : (w : World) → Reachable w → IsGood w
Reachable-IsGood w h = go h
  where
    go : {u : World} → Reachable u → IsGood u
    go start = record { registry = record { running = tt; finished = tt }; leaving = tt }
    go (then_step v u r s) = step-IsGood s (go r)

-- In every state that is reached by steps that do not panic, a poll, a round of a wait and a kill return without a panic, whatever the
-- id; the slice of a poll never starts inside a character.
pub Reachable-poll :
    (w : World) (id : Text) (now : ℕ)
    → Reachable w
    → Returns (λ x. IsWellFormed x.0) (poll id now w.registry)
      × Returns (λ x. IsWellFormed x.0) (wait_check id w.registry)
      × Returns (λ x. IsWellFormed x.0) (kill id w.registry)
Reachable-poll w id now h =
    let good = Reachable-IsGood w h in
    (
      poll-IsWellFormed id now w.registry good.registry,
      wait_check-IsWellFormed id w.registry good.registry,
      kill-IsWellFormed id w.registry good.registry,
    )
