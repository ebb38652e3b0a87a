-- ===== src/Agent/Loop/Outcome.antt =====
-- What a session's turn leaves in the session.
use perry_hermes.Prelude.{
  ◌^◌, ◌<◌, ◌≡◌, refl, sym, ap, ◌∙◌, true, not, Option, none, some, List, [], ◌∷◌, ◌++◌, any,
  append_assoc, append-nil, filter-append, Result, ok, err, Text, Bool-cases, inl, inr,
}
use perry_hermes.Core.Message.{Message, system, assistant_message}
use perry_hermes.Agent.Session.{Session, outbound_messages, replace_messages}
use perry_hermes.Agent.Compaction.{has_role}
use perry_hermes.Agent.Events.{RunResult, AgentRunError, loop_error, failed_turn}
use perry_hermes.Agent.Host.{Env}
use perry_hermes.Agent.Failure.{LoopConfig}
use perry_hermes.Agent.Turn.{Turn}
use perry_hermes.Agent.Loop.{
  run_current_session, store_outcome, strip_system_message, with_system_prompt,
}
use perry_hermes.Agent.Loop.Termination.{run-Ends}
use perry_hermes.Agent.Loop.History.{Ended, run-history, run-log}
use perry_hermes.Agent.Loop.Follows.{Extends, Reports}

module _ {V : Type 0} where
  -- The system prompt and the session's own system message do not reach the log.
  strip-system_first :
      (m : Message V) (ms : List (Message V))
      → has_role system m ≡ true
      → strip_system_message (m ∷ ms) ≡ strip_system_message ms
  strip-system_first m ms h = rw h refl

  strip-with_system_prompt :
      (prompt : Option Text) (ms : List (Message V))
      → strip_system_message (with_system_prompt prompt ms) ≡ strip_system_message ms
  unfolding with_system_prompt
  strip-with_system_prompt none ms = refl
  strip-with_system_prompt (some sys) ms = elim (Bool-cases (any (has_role system) ms)) [
    | inl h ↦ rw h refl
    | inr h ↦ rw h refl
  ]

  abbrev pub SystemOrNone : Option (Message V) → Type 0
  SystemOrNone none = Unit
  SystemOrNone (some m) = has_role system m ≡ true

  -- Stripping undoes what `outbound_messages` adds.
  pub strip-outbound_messages :
      (s : Session V)
      → SystemOrNone s.system_message
      → strip_system_message (outbound_messages s) ≡ strip_system_message s.messages
  unfolding outbound_messages
  strip-outbound_messages s h = go s.system_message h
    where
      go :
          (o : Option (Message V))
          → SystemOrNone o
          → strip_system_message (outbound_messages (record s { system_message = o }))
            ≡ strip_system_message s.messages
      go none k = refl
      go (some m) k = strip-system_first m s.messages k

module _ (E : Env) where
  open E use {J, F, C, H}
  open J use {Value}
  open F use {Fs}
  open H use {W}

  -- the session's log after an outcome, if it was `log` before
  abbrev pub log_after :
      List (Message Value) → Result (RunResult Value) (AgentRunError Value) → List (Message Value)
  log_after log (ok r) = strip_system_message r.messages
  log_after log (err (failed_turn ft e)) = strip_system_message ft.messages
  log_after log (err (loop_error e)) = log

  store_outcome-log :
      (x : Ended E)
      → ((store_outcome E x).1.session.messages ≡ log_after x.1.session.messages x.0)
        × ((store_outcome E x).1.session.system_message ≡ x.1.session.system_message)
        × ((store_outcome E x).0 ≡ x.0)
  unfolding store_outcome replace_messages
  store_outcome-log (ok r, t) = (refl, refl, refl)
  store_outcome-log (err (failed_turn ft e), t) = (refl, refl, refl)
  store_outcome-log (err (loop_error e), t) = (refl, refl, refl)

  -- A session's turn, with a limit of iterations that is a `u32`, always ends. Its log is then the messages that the result or the failed turn
  -- reports, less the system messages; after a plain error it is what it was. The session's own
  -- system message is never replaced.
  pub run_current_session-log :
      (config : LoopConfig Value W) (s : Session Value) (fs : Fs) (w : W)
      → config.max_iterations < 2 ^ 32
      → (r : Result (RunResult Value) (AgentRunError Value)) × (t : Turn E) × (run_current_session E
            config s fs w
          ≡ some (r, t))
        × (t.session.messages ≡ log_after s.messages r)
        × (t.session.system_message ≡ s.system_message)
  unfolding run_current_session
  run_current_session-log config s fs w small =
      let (r, t, e, bound) = run-Ends E config (outbound_messages s) s fs w small in
      let (log, prompt, reported) = run-log E config (outbound_messages s) s fs w r t e in
      let (la, lp, lr) = store_outcome-log (r, t) in
      (
        r,
        (store_outcome E (r, t)).1,
        rw (e, run_current_session) (ap (λ q. some (q, (store_outcome E (r, t)).1)) lr),
        la ∙ ap (λ l. log_after l r) log,
        lp ∙ prompt,
      )

  -- the log that results from a history that extends what the session sent out
  stripped-extends :
      (config : LoopConfig Value W) (s : Session Value) (ms added : List (Message Value))
      → SystemOrNone s.system_message
      → strip_system_message s.messages ≡ s.messages
      → ms ≡ with_system_prompt config.system_prompt (outbound_messages s) ++ added
      → strip_system_message ms ≡ s.messages ++ strip_system_message added
  stripped-extends config s ms added sys clean e =
      ap strip_system_message e
      ∙ filter-append (λ m. not (has_role system m))
          (with_system_prompt config.system_prompt (outbound_messages s)) added
      ∙ ap (λ l. l ++ strip_system_message added)
          (strip-with_system_prompt config.system_prompt (outbound_messages s)
            ∙ strip-outbound_messages s sys
            ∙ clean)

  log_after-Extends :
      (config : LoopConfig Value W) (s : Session Value)
      (r : Result (RunResult Value) (AgentRunError Value)) (t : Turn E)
      → SystemOrNone s.system_message
      → strip_system_message s.messages ≡ s.messages
      → Extends E (with_system_prompt config.system_prompt (outbound_messages s)) t.messages
      → Reports E r t
      → Extends E s.messages (log_after s.messages r)
  log_after-Extends config s (ok r) t sys clean (added, e) (same, quiet) =
      (strip_system_message added, stripped-extends config s r.messages added sys clean (same ∙ e))
  log_after-Extends config s (err (loop_error x)) t sys clean x' h =
      ([], sym (append-nil s.messages))
  log_after-Extends config s (err (failed_turn ft x)) t sys clean (added, e) (kept, k, _, _) =
      let rest = added ++ (kept ++ assistant_message ft.error ∷ []) in
      (
        strip_system_message rest,
        stripped-extends config s ft.messages rest sys clean (
            k
            ∙ ap (λ l. l ++ (kept ++ assistant_message ft.error ∷ [])) e
            ∙ append_assoc (with_system_prompt config.system_prompt (outbound_messages s)) added _),
      )

  -- Without a compaction strategy, with a limit of iterations that is a `u32` and with a system
  -- message, if there is one, of the role system: a session's turn ends, and however it ends it
  -- loses nothing of a log that has no system messages, and only adds messages at its end.
  pub run_current_session-Extends :
      (config : LoopConfig Value W) (s : Session Value) (fs : Fs) (w : W)
      → config.max_iterations < 2 ^ 32
      → config.compaction_strategy ≡ none
      → SystemOrNone s.system_message
      → strip_system_message s.messages ≡ s.messages
      → (r : Result (RunResult Value) (AgentRunError Value)) × (t : Turn E) × (run_current_session E
            config s fs w
          ≡ some (r, t))
        × Extends E s.messages t.session.messages
  unfolding run_current_session
  run_current_session-Extends config s fs w small off sys clean =
      let (r, t, e, bound) = run-Ends E config (outbound_messages s) s fs w small in
      let (extends, reported) = run-history E config (outbound_messages s) s fs w r t off e in
      let (log, prompt, reported') = run-log E config (outbound_messages s) s fs w r t e in
      let (la, lp, lr) = store_outcome-log (r, t) in
      let (added, h) = log_after-Extends config s r t sys clean extends reported in
      (
        r,
        (store_outcome E (r, t)).1,
        rw (e, run_current_session) (ap (λ q. some (q, (store_outcome E (r, t)).1)) lr),
        (added, la ∙ ap (λ l. log_after l r) log ∙ h),
      )
