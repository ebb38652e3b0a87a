-- ===== src/Tests/ProcessTests.antt =====
-- The registry of background processes at concrete inputs.
use perry_hermes.Prelude.{
  inl, inr, false, ℕ, ◌-◌, ◌^◌, ◌≤◌, ◌≡◌, refl, true, Option, none, some, List, [], ◌∷◌, ◌++◌, Text,
  codes, arith, Result, ok, err,
}
use perry_hermes.Processes.Buffer.{slice_from}
use perry_hermes.Processes.Registry.{
  ProcessRegistry, PollResult, pos, new, spawn, poll, take_exited, store_finished, ProcessSession,
  not_found, id_of,
}
use perry_hermes.Processes.Operations.{log_slice, Round, wait}
use perry_hermes.Processes.Steps.{World, Reachable, start, then_step, spawns, IsGood}
use perry_hermes.Processes.Reachable.{Reachable-IsGood}
use perry_hermes.Processes.Waiting.{Returned, wait-Returned}
use perry_hermes.Processes.Delivery.{Event, prints, polls, printed, run, run-spawn}

abbrev started : ProcessRegistry
started = (spawn (codes "sh") (codes "make") (codes "/") true 0 (ok (some 7)) new).0

abbrev output : List Event
output = prints (codes "one\n") ∷ polls 5 ∷ prints (codes "two") ∷ prints (0xE9 ∷ []) ∷ []

run-spawn_example :
    (mid : ProcessRegistry) × (last : ProcessRegistry) × (out : Text) × (a : PollResult)
    × (gone : ProcessRegistry) × (s : ProcessSession) × (run (id_of 1) output started
        ≡ some (mid, out))
    × (poll (id_of 1) 9 mid ≡ some (last, ok a))
    × (out ++ a.output ≡ printed output)
    × (take_exited (id_of 1) (pos 0) mid ≡ some (gone, some s))
    × ((ended : ProcessRegistry)
        → store_finished (id_of 1) (pos 0) s gone ≡ some ended
        → (final : ProcessRegistry) × (b : PollResult) × (poll (id_of 1) 9 ended
            ≡ some (final, ok b))
          × (out ++ b.output ≡ printed output)
          × (b.exit_code ≡ some (pos 0)))
unfolding perry_hermes.Utf8.len_utf8 perry_hermes.Maps.get
run-spawn_example =
    run-spawn (codes "sh") (codes "make") (codes "/") true 0 9 (some 7) (pos 0) new output refl
      (omega arith)

abbrev one_process : World
one_process = record { registry = started; leaving = [] }

one_process-Reachable : Reachable one_process
one_process-Reachable =
    then_step (record { registry = new; leaving = [] }) one_process start
      (spawns (record { registry = new; leaving = [] }) (codes "sh") (codes "make") (codes "/") true
        0 (ok (some 7)))

Reachable-IsGood_example : IsGood one_process
Reachable-IsGood_example = Reachable-IsGood one_process one_process-Reachable

-- A slice that starts inside a character panics.
inside_character : slice_from (0xE9 ∷ []) 1 ≡ none
unfolding slice_from perry_hermes.Utf8.split_at perry_hermes.Utf8.len_utf8
inside_character = refl

-- The end of a page wraps around to before its start, which panics.
wrapped_page : log_slice 1 (2 ^ 64 - 1) (codes "a" ∷ codes "b" ∷ []) ≡ none
unfolding log_slice
wrapped_page = refl

-- Between the two locks at the end of a process, it is in neither map.
abbrev seen_leaving : Option (Option (Result PollResult Text))
seen_leaving =
    elim (take_exited (id_of 1) (pos 0) started)
      as (λ x. Option (Option (Result PollResult Text))) [
        | none ↦ none
        | some (r, s) ↦
            elim (poll (id_of 1) 3 r) as (λ x. Option (Option (Result PollResult Text))) [
              | none ↦ some none
              | some (r', a) ↦ some (some a)
            ]
      ]

lost_between_locks : seen_leaving ≡ some (some (err (not_found (id_of 1))))
unfolding take_exited spawn perry_hermes.Maps.put perry_hermes.Prelude.decimal poll
    perry_hermes.Maps.remove
lost_between_locks = refl

-- The process ends before the second round, and the deadline passes in it.
abbrev rounds : List Round
rounds =
    record { before = λ r. r; between = λ r. r; expired = false }
    ∷ record { before = λ r. r; between = λ r. r; expired = true }
    ∷ []

wait-Returned_example : Returned (wait (id_of 1) rounds started)
wait-Returned_example = wait-Returned (id_of 1) rounds started (inr (inl refl))
