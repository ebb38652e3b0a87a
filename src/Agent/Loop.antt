-- ===== src/Agent/Loop.antt =====
-- crates/hermes-agent/src/loop_engine/run.rs (`run`) and the callers of it in
-- crates/hermes-agent/src/loop_engine/agent_loop.rs: the loop, and a session's turn and manual
-- compaction.
pub mod Phases
pub mod Progress
pub mod Tools
pub mod Follows
pub mod History
pub mod Orphans
pub mod Outcome
pub mod Termination
use perry_hermes.Prelude.{
  ℕ, zero, suc, ◌+◌, ◌-◌, Bool, true, false, not, Option, none, some, List, [], ◌∷◌, ◌++◌, map, any,
  filter, length, is_empty, if◌then◌else◌, Result, ok, err, Text,
}
use perry_hermes.Core.Message.{Message, Role, system, role_eq, user_message, system_message}
use perry_hermes.Core.Usage.{prompt_context_tokens}
use perry_hermes.Core.Errors.{LoopError}
use perry_hermes.Core.Provider.{Completion}
use perry_hermes.Agent.Session.{
  Session, has_pending_messages, outbound_messages, append_message, replace_messages,
  compacted_context_tokens,
}
use perry_hermes.Agent.Compaction.{
  has_role, CompactOutcome, skipped, compressed, failed, try_compact, disabled,
}
use perry_hermes.Agent.Events
use perry_hermes.Agent.Events.{Event, RunResult, AgentRunError, loop_error, failed_turn, no_metrics}
use perry_hermes.Agent.Host.{Env}
use perry_hermes.Agent.Failure.{
  LoopConfig, DriveError, build_failed_turn_or_plain, build_failed_turn, may_compress,
  notification_message,
}
use perry_hermes.Agent.Turn.{
  Turn, emit, push, receive_arrivals, inject_pending, check_limits, drive_turn, record_usage,
}
use perry_hermes.Agent.Reaction.{auto_compress_after_response, handle_finish_reason}

-- `strip_system_message`
abbrev pub strip_system_message : {V : Type 0} → List (Message V) → List (Message V)
strip_system_message = filter (λ m. not (has_role system m))

-- the system prompt of the configuration, put first unless there is a system message
unfoldable pub with_system_prompt : {V : Type 0} → Option Text → List (Message V) → List (Message V)
with_system_prompt none ms = ms
with_system_prompt (some sys) ms = if any (has_role system) ms then ms else system_message sys ∷ ms

module _ (E : Env) where
  open E use {J, F, C, H}
  open J use {Value}
  open F use {Fs}
  open H use {W}

  -- A round of the loop ends it or goes on.
  pub data Round : Type 0 where
    done : Result (RunResult Value) (AgentRunError Value) → Turn E → Round
    again : Turn E → Round

  -- `inject_process_notifications`
  unfoldable pub inject_process_notifications : Turn E → Turn E
  inject_process_notifications t =
      let (notifications, w) = H.drain_notifications t.world in
      record t { messages = t.messages ++ map notification_message notifications; world = w }

  -- the end of a round, after the reaction to the finish reason
  unfoldable pub after_reaction :
      Result (Option (RunResult Value)) (AgentRunError Value) × Turn E → Round
  unfolding inject_process_notifications
  after_reaction (err e, t) = done (err e) t
  after_reaction (ok none, t) = again (inject_process_notifications t)
  after_reaction (ok (some r), t) =
      let t1 = receive_arrivals E t in
      if has_pending_messages t1.session
      then again (inject_process_notifications t1)
      else done (ok r) t1

  -- the state after a response: counted, pushed, and perhaps compacted
  unfoldable pub after_response : LoopConfig Value W → Completion Value → Turn E → Turn E
  after_response config c t =
      let t1 = push E c.message (record_usage E c.usage t) in
      let t2 = emit E (Events.Event.assistant_message c.message) t1 in
      if may_compress c.finish_reason
      then auto_compress_after_response E config (prompt_context_tokens c.usage) t2
      else t2

  unfoldable pub after_drive :
      LoopConfig Value W → ℕ → Result (Completion Value) (DriveError Value) × Turn E → Round
  unfolding after_response after_reaction
  after_drive config initial_len (err e, t) =
      done (err (build_failed_turn t.messages e.partial initial_len e.error)) t
  after_drive config initial_len (ok c, t) =
      after_reaction (handle_finish_reason E c (after_response config c t))

  unfoldable pub after_limits : LoopConfig Value W → ℕ → Option LoopError × Turn E → Round
  unfolding after_drive
  after_limits config initial_len (some e, t) =
      done (err (build_failed_turn_or_plain H.fmt_duration t.messages initial_len e)) t
  after_limits config initial_len (none, t) = after_drive config initial_len (drive_turn E t)

  -- One round of the loop of `run`.
  unfoldable pub round : LoopConfig Value W → ℕ → Turn E → Round
  unfolding after_limits
  round config initial_len t =
      after_limits config initial_len (check_limits E config (inject_pending E t))

  -- The loop; `none` means that the fuel has run out.
  unfoldable pub run_rounds :
      ℕ
      → LoopConfig Value W
      → ℕ
      → Turn E
      → Option (Result (RunResult Value) (AgentRunError Value) × Turn E)
  run_rounds zero config initial_len t = none
  run_rounds (suc fuel) config initial_len t = elim (round config initial_len t) [
    | done r t' ↦ some (r, t')
    | again t' ↦ run_rounds fuel config initial_len t'
  ]

  -- The state in which `run` enters its loop.
  abbrev pub start : LoopConfig Value W → List (Message Value) → Session Value → Fs → W → Turn E
  start config messages s fs w = record {
    messages = with_system_prompt config.system_prompt messages;
    metrics = no_metrics;
    session = s;
    fs = fs;
    world = w;
    events = [];
  }

  -- `run`: every round but the last counts an iteration, so one more round than the limit is fuel
  -- enough.
  unfoldable pub run :
      LoopConfig Value W
      → List (Message Value)
      → Session Value
      → Fs
      → W
      → Option (Result (RunResult Value) (AgentRunError Value) × Turn E)
  unfolding run_rounds
  run config messages s fs w =
      run_rounds (suc config.max_iterations) config (length messages) (start config messages s fs w)

  -- what `run_current_session` writes back to the session
  unfoldable pub store_outcome :
      Result (RunResult Value) (AgentRunError Value) × Turn E
      → Result (RunResult Value) (AgentRunError Value) × Turn E
  store_outcome (ok r, t) =
      let (s, fs) = replace_messages F C (strip_system_message r.messages) t.session t.fs in
      (ok r, record t { session = s; fs = fs })
  store_outcome (err (failed_turn ft e), t) =
      let (s, fs) = replace_messages F C (strip_system_message ft.messages) t.session t.fs in
      (err (failed_turn ft e), record t { session = s; fs = fs })
  store_outcome (err (loop_error e), t) = (err (loop_error e), t)

  unfoldable pub run_current_session :
      LoopConfig Value W
      → Session Value
      → Fs
      → W
      → Option (Result (RunResult Value) (AgentRunError Value) × Turn E)
  unfolding run store_outcome
  run_current_session config s fs w = elim (run config (outbound_messages s) s fs w) [
    | none ↦ none
    | some r ↦ some (store_outcome r)
  ]

  -- `run_session_turn`; its own event precedes those of the loop.
  unfoldable pub run_session_turn :
      LoopConfig Value W
      → Text
      → Session Value
      → Fs
      → W
      → List (Event Value) × Option (Result (RunResult Value) (AgentRunError Value) × Turn E)
  unfolding run_current_session
  run_session_turn config user_text s fs w =
      let (s1, fs1) = append_message F C (user_message user_text) s fs in
      (
        (if is_empty user_text then [] else Events.Event.user_message_injected user_text ∷ []),
        run_current_session config s1 fs1 w,
      )

  -- the event of a manual compaction
  manual_event : Session Value → CompactOutcome → Event Value
  manual_event s (compressed duration out) =
      Events.Event.compression_completed Events.CompressionTrigger.manual none
        (compacted_context_tokens out s) duration
  manual_event s (skipped reason) = Events.Event.compression_skipped reason
  manual_event s (failed text) =
      Events.Event.compression_failed Events.CompressionTrigger.manual text

  -- `compact_messages`, with the focus topic of the configuration as an argument
  unfoldable pub compact_messages :
      LoopConfig Value W
      → Option Text
      → List (Message Value)
      → Option Text
      → Session Value
      → W
      → Event Value × (List (Message Value) × W)
  unfolding manual_event
  compact_messages config config_focus messages focus_topic s w = elim config.compaction_strategy [
    | none ↦ (Events.Event.compression_skipped disabled, (messages, w))
    | some strategy ↦
        let (locked, w1) = H.strategy_locked w in
        let (duration, w2) = H.compaction_duration w1 in
        let (outcome, (ms, w3)) =
          try_compact strategy locked duration messages focus_topic config_focus w2 in
        (manual_event s outcome, (ms, w3))
  ]

  -- the log is replaced after a completed compaction only
  store_compacted :
      Event Value × (List (Message Value) × W)
      → Session Value
      → Fs
      → Event Value × (Session Value × Fs)
  store_compacted (Events.Event.compression_completed trigger before after duration, (ms, w)) s fs =
      (
        Events.Event.compression_completed trigger before after duration,
        replace_messages F C (strip_system_message ms) s fs,
      )
  store_compacted (event, (ms, w)) s fs = (event, (s, fs))

  unfoldable pub compact_session :
      LoopConfig Value W
      → Option Text
      → Option Text
      → Session Value
      → Fs
      → W
      → Event Value × (Session Value × Fs)
  unfolding compact_messages store_compacted
  compact_session config config_focus focus_topic s fs w =
      store_compacted (compact_messages config config_focus (outbound_messages s) focus_topic s w) s
        fs
