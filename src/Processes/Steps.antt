-- ===== src/Processes/Steps.antt =====
-- The states that the process registry can reach, whatever the tasks do and in whatever order they
-- take the lock, and what holds in all of them.
use perry_hermes.Prelude.{ℕ, ◌≡◌, Bool, true, Option, some, List, [], Text, Result}
use perry_hermes.Maps.{get, put, remove, AllValues}
use perry_hermes.Processes.Registry.{
  ℤ, ProcessSession, ProcessRegistry, PollResult, WaitResult, KillResult, LogResult, new, spawn,
  append_output, take_exited, store_finished, poll,
}
use perry_hermes.Processes.Operations.{wait_check, kill, read_log, drain_notifications, cleanup}
use perry_hermes.Processes.Invariant.{IsSound, IsWellFormed}

-- The registry, and the sessions that have left `running` and not yet entered `finished`, each with
-- its exit code.
pub record World : Type 0 where
  pub registry : ProcessRegistry
  pub leaving : List (Text × (ℤ × ProcessSession))

-- One task takes the lock once.
pub data Step : World → World → Type 0 where
  spawns :
      (w : World) (shell command cwd : Text) (notify : Bool) (now : ℕ)
      (started : Result (Option ℕ) Text)
      → Step w (record w { registry = (spawn shell command cwd notify now started w.registry).0 })
  appends :
      (w : World) (id chunk : Text) (r : ProcessRegistry)
      → append_output id chunk w.registry ≡ some r
      → Step w (record w { registry = r })
  takes :
      (w : World) (id : Text) (code : ℤ) (r : ProcessRegistry) (s : ProcessSession)
      → take_exited id code w.registry ≡ some (r, some s)
      → Step w (record { registry = r; leaving = put id (code, s) w.leaving })
  stores :
      (w : World) (id : Text) (code : ℤ) (s : ProcessSession) (r : ProcessRegistry)
      → get id w.leaving ≡ some (code, s)
      → store_finished id code s w.registry ≡ some r
      → Step w (record { registry = r; leaving = remove id w.leaving })
  polls :
      (w : World) (id : Text) (now : ℕ) (r : ProcessRegistry) (a : Result PollResult Text)
      → poll id now w.registry ≡ some (r, a)
      → Step w (record w { registry = r })
  waits :
      (w : World) (id : Text) (r : ProcessRegistry) (a : Result (Option WaitResult) Text)
      → wait_check id w.registry ≡ some (r, a)
      → Step w (record w { registry = r })
  kills :
      (w : World) (id : Text) (r : ProcessRegistry) (a : Result KillResult Text)
      → kill id w.registry ≡ some (r, a)
      → Step w (record w { registry = r })
  logs :
      (w : World) (id : Text) (offset limit : Option ℕ) (r : ProcessRegistry)
      (a : Result LogResult Text)
      → read_log id offset limit w.registry ≡ some (r, a)
      → Step w (record w { registry = r })
  cleans : (w : World) (now : ℕ) → Step w (record w { registry = cleanup now w.registry })
  drains : (w : World) → Step w (record w { registry = (drain_notifications w.registry).0 })

pub data Reachable : World → Type 0 where
  start : Reachable (record { registry = new; leaving = [] })
  then_step : (v w : World) → Reachable v → Step v w → Reachable w

-- Each session is sound where it stands.
pub record IsGood (w : World) : Type 0 where
  pub registry : IsWellFormed w.registry
  pub leaving : AllValues (λ x. IsSound true x.1) w.leaving
