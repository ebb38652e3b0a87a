-- ===== src/Agent/Loop/Termination.antt =====
-- The count of iterations through a round of `run`, and the end of its loop.
use perry_hermes.Prelude.{
  ℕ, zero, suc, ◌+◌, ◌^◌, ◌<◌, ◌≤◌, ◌≡◌, refl, ap, ◌∙◌, Bool, true, false, Option, none, some, List,
  arith, Result, ok, err, Bool-cases, inl, inr, ◌⊎◌,
}
use perry_hermes.Core.Message.{Message}
use perry_hermes.Core.Errors.{LoopError}
use perry_hermes.Core.Usage.{prompt_context_tokens}
use perry_hermes.Core.Provider.{Completion}
use perry_hermes.Agent.Session.{Session, has_pending_messages}
use perry_hermes.Agent.Events
use perry_hermes.Agent.Events.{RunResult, AgentRunError}
use perry_hermes.Agent.Host.{Env}
use perry_hermes.Agent.Failure.{LoopConfig, DriveError, add_u32, may_compress}
use perry_hermes.Agent.Turn.{
  Turn, emit, push, receive_arrivals, inject_pending, check_limits, drive_turn, record_usage,
}
use perry_hermes.Agent.Reaction.{handle_finish_reason}
use perry_hermes.Agent.Loop.{
  Round, done, again, after_reaction, after_response, after_drive, after_limits, round, run_rounds,
  run,
}
use perry_hermes.Agent.Loop.Progress.{
  auto_compress-Rewrites, handle_finish_reason-Advances, inject_process_notifications-Advances,
}
use perry_hermes.Agent.Loop.Phases.{
  emit-Advances, push-Advances, receive_arrivals-Advances, inject_pending-Advances,
  check_limits-Advances, check_limits-none, drive_turn-Advances, record_usage-iterations,
}

module _ (E : Env) where
  open E use {J, F, H}
  open J use {Value}
  open F use {Fs}
  open H use {W}

  -- The state in which a round leaves the loop's variables.
  abbrev pub state : Round E → Turn E
  state (done r t) = t
  state (again t) = t

  abbrev pub goes_on : Round E → Bool
  goes_on (done r t) = false
  goes_on (again t) = true

  pub after_reaction-iterations :
      (r : Result (Option (RunResult Value)) (AgentRunError Value) × Turn E)
      → (state (after_reaction E r)).metrics.iterations ≡ r.1.metrics.iterations
  unfolding after_reaction
  after_reaction-iterations (err e, t) = refl
  after_reaction-iterations (ok none, t) = (inject_process_notifications-Advances E t).iterations
  after_reaction-iterations (ok (some r), t) =
      elim (Bool-cases (has_pending_messages (receive_arrivals E t).session)) [
        | inl h ↦ rw h (
            (inject_process_notifications-Advances E (receive_arrivals E t)).iterations
            ∙ (receive_arrivals-Advances E t).iterations)
        | inr h ↦ rw h (receive_arrivals-Advances E t).iterations
      ]

  after_response-iterations :
      (config : LoopConfig Value W) (c : Completion Value) (t : Turn E)
      → (after_response E config c t).metrics.iterations ≡ add_u32 t.metrics.iterations 1
  unfolding after_response
  after_response-iterations config c t =
      let t1 = push E c.message (record_usage E c.usage t) in
      let t2 = emit E (Events.Event.assistant_message c.message) t1 in
      let counted : t2.metrics.iterations ≡ add_u32 t.metrics.iterations 1 =
        (emit-Advances E (Events.Event.assistant_message c.message) t1).iterations
        ∙ (push-Advances E c.message (record_usage E c.usage t)).iterations
        ∙ record_usage-iterations E c.usage t in
      elim (Bool-cases (may_compress c.finish_reason)) [
        | inl h ↦ rw h (
            (auto_compress-Rewrites E config (prompt_context_tokens c.usage) t2).iterations
            ∙ counted)
        | inr h ↦ rw h counted
      ]

  -- What a round does to the count of iterations.
  abbrev CountsFrom : ℕ → Round E → Type 0
  CountsFrom n r =
      ((goes_on r ≡ false) × ((state r).metrics.iterations ≡ n))
      ⊎ ((state r).metrics.iterations ≡ add_u32 n 1)

  after_drive-iterations :
      (config : LoopConfig Value W) (n : ℕ)
      (d : Result (Completion Value) (DriveError Value) × Turn E)
      → CountsFrom d.1.metrics.iterations (after_drive E config n d)
  unfolding after_drive
  after_drive-iterations config n (err e, t) = inl (refl, refl)
  after_drive-iterations config n (ok c, t) =
      let u = after_response E config c t in
      inr (
        after_reaction-iterations (handle_finish_reason E c u)
        ∙ (handle_finish_reason-Advances E c u).iterations
        ∙ after_response-iterations config c t)

  after_limits-iterations :
      (config : LoopConfig Value W) (n : ℕ) (l : Option LoopError × Turn E)
      → ((goes_on (after_limits E config n l) ≡ false)
          × ((state (after_limits E config n l)).metrics.iterations ≡ l.1.metrics.iterations))
        ⊎ ((l.0 ≡ none)
            × ((state (after_limits E config n l)).metrics.iterations
                ≡ add_u32 l.1.metrics.iterations 1))
  unfolding after_limits
  after_limits-iterations config n (some e, t) = inl (refl, refl)
  after_limits-iterations config n (none, t) = ground (
    arith,
    after_drive-iterations config n (drive_turn E t),
    (drive_turn-Advances E t).iterations,
  )

  -- A round that goes on was below the limit and has counted one iteration; a round that ends
  -- the loop has counted at most one, and none at the limit.
  pub round-iterations :
      (config : LoopConfig Value W) (n : ℕ) (t : Turn E)
      → ((goes_on (round E config n t) ≡ false)
          × ((state (round E config n t)).metrics.iterations ≡ t.metrics.iterations))
        ⊎ ((t.metrics.iterations < config.max_iterations)
            × ((state (round E config n t)).metrics.iterations ≡ add_u32 t.metrics.iterations 1))
  unfolding round
  round-iterations config n t =
      let t1 = inject_pending E t in
      ground (
        arith,
        after_limits-iterations config n (check_limits E config t1),
        (check_limits-Advances E config t1).iterations,
        check_limits-none E config t1,
        (inject_pending-Advances E t).iterations,
      )

  pub Round-cases :
      (q : Round E)
      → ((r : Result (RunResult Value) (AgentRunError Value)) × (t : Turn E) × (q ≡ done r t))
        ⊎ ((t : Turn E) × (q ≡ again t))
  Round-cases (done r t) = inl (r, t, refl)
  Round-cases (again t) = inr (t, refl)

  -- The loop has ended, within the limit of iterations.
  abbrev pub Ends : ℕ → Option (Result (RunResult Value) (AgentRunError Value) × Turn E) → Type 0
  Ends limit o =
      (r : Result (RunResult Value) (AgentRunError Value)) × (t : Turn E) × (o ≡ some (r, t))
      × (t.metrics.iterations ≤ limit)

  round-done :
      (config : LoopConfig Value W) (n : ℕ) (t t' : Turn E)
      (r : Result (RunResult Value) (AgentRunError Value))
      → config.max_iterations < 2 ^ 32
      → t.metrics.iterations ≤ config.max_iterations
      → round E config n t ≡ done r t'
      → t'.metrics.iterations ≤ config.max_iterations
  round-done config n t t' r small below e =
      ground (arith, round-iterations config n t, ap (λ q. (state q).metrics.iterations) e)

  round-again :
      (config : LoopConfig Value W) (n : ℕ) (t t' : Turn E)
      → config.max_iterations < 2 ^ 32
      → round E config n t ≡ again t'
      → (t'.metrics.iterations ≡ t.metrics.iterations + 1)
        × (t'.metrics.iterations ≤ config.max_iterations)
  round-again config n t t' small e =
      ground
        (arith, round-iterations config n t, ap (λ q. (state q).metrics.iterations) e, ap goes_on e)

  run_rounds-Ends :
      (fuel : ℕ) (config : LoopConfig Value W) (n : ℕ) (t : Turn E)
      → config.max_iterations < 2 ^ 32
      → t.metrics.iterations ≤ config.max_iterations
      → config.max_iterations < t.metrics.iterations + fuel
      → Ends config.max_iterations (run_rounds E fuel config n t)
  unfolding run_rounds
  run_rounds-Ends zero config n t small below enough = absurd (omega arith)
  run_rounds-Ends (suc fuel) config n t small below enough =
      elim (Round-cases (round E config n t)) [
        | inl (r, t', e) ↦
            rw (e, run_rounds) (r, t', refl, round-done config n t t' r small below e)
        | inr (t', e) ↦
            let (counted, limited) = round-again config n t t' small e in
            rw (e, run_rounds) (run_rounds-Ends fuel config n t' small limited (omega arith))
      ]

  -- The loop always ends with a result or an error, whatever the provider, the tools, the clock
  -- and the other tasks do, and it never counts more iterations than the limit, a `u32`.
  pub run-Ends :
      (config : LoopConfig Value W) (ms : List (Message Value)) (s : Session Value) (fs : Fs)
      (w : W)
      → config.max_iterations < 2 ^ 32
      → Ends config.max_iterations (run E config ms s fs w)
  unfolding run
  run-Ends config ms s fs w small =
      run_rounds-Ends (suc config.max_iterations) config _ _ small (omega arith) (omega arith)
