-- ===== src/Agent/Loop/History.antt =====
-- What a run leaves: the session's log, the history of messages, and the result or the error.
use perry_hermes.Prelude.{
  ℕ, zero, suc, ◌≡◌, refl, sym, ap, ◌∙◌, inl, inr, Option, none, some, List, [], ◌++◌, append_assoc,
  append-nil, length, ltb, Result, ok, err, Bool-cases,
}
use perry_hermes.Core.Message.{Message}
use perry_hermes.Core.Errors.{LoopError, ProviderError}
use perry_hermes.Core.Usage.{Usage, prompt_context_tokens}
use perry_hermes.Core.Provider.{Completion}
use perry_hermes.Agent.Session.{Session, has_pending_messages}
use perry_hermes.Agent.Events
use perry_hermes.Agent.Events.{RunResult, AgentRunError, loop_error, failed_turn}
use perry_hermes.Agent.Host.{Env}
use perry_hermes.Agent.Failure.{
  LoopConfig, DriveError, build_failed_turn, build_failed_turn_or_plain, may_compress,
  preserved_partial,
}
use perry_hermes.Agent.Turn.{
  Turn, emit, push, receive_arrivals, inject_pending, check_limits, drive_turn, record_usage,
}
use perry_hermes.Agent.Reaction.{auto_compress_after_response, handle_finish_reason}
use perry_hermes.Agent.Loop.{
  Round, done, again, after_reaction, after_response, after_drive, after_limits, round, run_rounds,
  run, start, with_system_prompt,
}
use perry_hermes.Agent.Loop.Progress.{
  auto_compress-Rewrites, handle_finish_reason-Advances, inject_process_notifications-Advances,
}
use perry_hermes.Agent.Loop.Phases.{
  Advances-refl, Advances-trans, emit-Advances, push-Advances, receive_arrivals-Advances,
  receive_arrivals-messages, inject_pending-Advances, check_limits-Advances, drive_turn-Advances,
  record_usage-messages, record_usage-log,
}
use perry_hermes.Agent.Loop.Termination.{Round-cases}
use perry_hermes.Agent.Loop.Follows.{
  preserved_partial-Kept, Extends, Follows, Follows-trans, of_Advances, Reports, Answered,
  handle_finish_reason-Answered, RoundFollows,
}

module _ (E : Env) where
  open E use {J, F, H}
  open J use {Value}
  open F use {Fs}
  open H use {W}

  Follows-RoundFollows :
      (config : LoopConfig Value W) (t u : Turn E) (q : Round E)
      → Follows E config t u
      → RoundFollows E config u q
      → RoundFollows E config t q
  Follows-RoundFollows config t u (again v) a b = Follows-trans E a b
  Follows-RoundFollows config t u (done r v) a (b, reported) = (Follows-trans E a b, reported)

  after_reaction-Follows :
      (config : LoopConfig Value W)
      (d : Result (Option (RunResult Value)) (AgentRunError Value) × Turn E)
      → Answered E d
      → RoundFollows E config d.1 (after_reaction E d)
  unfolding after_reaction
  after_reaction-Follows config (err e, t) (x, h) =
      (of_Advances E config (Advances-refl E t), rw h tt)
  after_reaction-Follows config (ok none, t) h =
      of_Advances E config (inject_process_notifications-Advances E t)
  after_reaction-Follows config (ok (some r), t) h =
      let t1 = receive_arrivals E t in
      let a = receive_arrivals-Advances E t in
      elim (Bool-cases (has_pending_messages t1.session)) [
        | inl k ↦
            rw k (
              of_Advances E config
                (Advances-trans E a (inject_process_notifications-Advances E t1)))
        | inr k ↦ rw k (of_Advances E config a, (h ∙ receive_arrivals-messages E t, k))
      ]

  auto_compress-none :
      (config : LoopConfig Value W) (n : ℕ) (t : Turn E)
      → config.compaction_strategy ≡ none
      → auto_compress_after_response E config n t ≡ t
  unfolding auto_compress_after_response
  auto_compress-none config n t h = rw (h, auto_compress_after_response) refl

  auto_compress-Follows :
      (config : LoopConfig Value W) (n : ℕ) (t : Turn E)
      → Follows E config t (auto_compress_after_response E config n t)
  auto_compress-Follows config n t =
      let a = auto_compress-Rewrites E config n t in
      record {
        log = a.log;
        prompt = a.prompt;
        extends = λ h. (
          [],
          ap (λ u. u.messages) (auto_compress-none config n t h) ∙ sym (append-nil t.messages),
        );
      }

  record_usage-Follows :
      (config : LoopConfig Value W) (u : Usage) (t : Turn E)
      → Follows E config t (record_usage E u t)
  record_usage-Follows config u t = record {
    log = (record_usage-log E u t).0;
    prompt = (record_usage-log E u t).1;
    extends = λ h. ([], record_usage-messages E u t ∙ sym (append-nil t.messages));
  }

  after_response-Follows :
      (config : LoopConfig Value W) (c : Completion Value) (t : Turn E)
      → Follows E config t (after_response E config c t)
  unfolding after_response
  after_response-Follows config c t =
      let t1 = push E c.message (record_usage E c.usage t) in
      let t2 = emit E (Events.Event.assistant_message c.message) t1 in
      let pushed : Follows E config t t2 = Follows-trans E (record_usage-Follows config c.usage t) (
        of_Advances E config (
          Advances-trans E (push-Advances E c.message (record_usage E c.usage t))
            (emit-Advances E (Events.Event.assistant_message c.message) t1))) in
      elim (Bool-cases (may_compress c.finish_reason)) [
        | inl h ↦ rw h (
            Follows-trans E pushed
              (auto_compress-Follows config (prompt_context_tokens c.usage) t2))
        | inr h ↦ rw h pushed
      ]

  build_failed_turn-Reports :
      (t : Turn E) (partial : Option (Message Value)) (n : ℕ) (e : ProviderError)
      → Reports E (err (build_failed_turn t.messages partial n e)) t
  unfolding build_failed_turn
  build_failed_turn-Reports t partial n e =
      elim (Bool-cases (ltb n (length (t.messages ++ preserved_partial partial)))) [
        | inl h ↦
            rw (h, build_failed_turn)
              (
                preserved_partial partial,
                append_assoc t.messages _ _,
                preserved_partial-Kept E partial,
                inl refl,
              )
        | inr h ↦ rw (h, build_failed_turn) tt
      ]

  build_failed_turn_or_plain-Reports :
      (t : Turn E) (n : ℕ) (e : LoopError)
      → Reports E (err (build_failed_turn_or_plain H.fmt_duration t.messages n e)) t
  unfolding build_failed_turn_or_plain
  build_failed_turn_or_plain-Reports t n e = elim (Bool-cases (ltb n (length t.messages))) [
    | inl h ↦ rw (h, build_failed_turn_or_plain) ([], refl, inl refl, inr (e, refl, refl))
    | inr h ↦ rw (h, build_failed_turn_or_plain) tt
  ]

  after_drive-Follows :
      (config : LoopConfig Value W) (n : ℕ)
      (d : Result (Completion Value) (DriveError Value) × Turn E)
      → RoundFollows E config d.1 (after_drive E config n d)
  unfolding after_drive
  after_drive-Follows config n (err e, t) =
      (of_Advances E config (Advances-refl E t), build_failed_turn-Reports t e.partial n e.error)
  after_drive-Follows config n (ok c, t) =
      let u = after_response E config c t in
      Follows-RoundFollows config t (handle_finish_reason E c u).1 _
        (Follows-trans E (after_response-Follows config c t)
          (of_Advances E config (handle_finish_reason-Advances E c u)))
        (after_reaction-Follows config (handle_finish_reason E c u)
          (handle_finish_reason-Answered E c u))

  after_limits-Follows :
      (config : LoopConfig Value W) (n : ℕ) (l : Option LoopError × Turn E)
      → RoundFollows E config l.1 (after_limits E config n l)
  unfolding after_limits
  after_limits-Follows config n (some e, t) =
      (of_Advances E config (Advances-refl E t), build_failed_turn_or_plain-Reports t n e)
  after_limits-Follows config n (none, t) =
      Follows-RoundFollows config t (drive_turn E t).1 _
        (of_Advances E config (drive_turn-Advances E t))
        (after_drive-Follows config n (drive_turn E t))

  round-Follows :
      (config : LoopConfig Value W) (n : ℕ) (t : Turn E)
      → RoundFollows E config t (round E config n t)
  unfolding round
  round-Follows config n t =
      let t1 = inject_pending E t in
      Follows-RoundFollows config t (check_limits E config t1).1 _
        (of_Advances E config
          (Advances-trans E (inject_pending-Advances E t) (check_limits-Advances E config t1)))
        (after_limits-Follows config n (check_limits E config t1))

  abbrev pub Ended : Type 0
  Ended = Result (RunResult Value) (AgentRunError Value) × Turn E

  same_end :
      (config : LoopConfig Value W) (t : Turn E) (x y : Ended)
      → some x ≡ some y
      → Follows E config t x.1 × Reports E x.0 x.1
      → Follows E config t y.1 × Reports E y.0 y.1
  same_end config t x y e f = let a : y ≡ x = cc in rw a f

  run_rounds-Follows :
      (fuel : ℕ) (config : LoopConfig Value W) (n : ℕ) (t t' : Turn E)
      (r : Result (RunResult Value) (AgentRunError Value))
      → run_rounds E fuel config n t ≡ some (r, t')
      → Follows E config t t' × Reports E r t'
  unfolding run_rounds
  run_rounds-Follows zero config n t t' r e = absurd (cc)
  run_rounds-Follows (suc fuel) config n t t' r e =
      let f0 = round-Follows config n t in
      elim (Round-cases E (round E config n t)) [
        | inl (r1, t1, q) ↦
            same_end config t (r1, t1) (r, t') (rw (q, run_rounds) at e) (rw q at f0)
        | inr (t1, q) ↦
            let f : Follows E config t t1 = rw q at f0 in
            let (g, reported) =
              run_rounds-Follows fuel config n t1 t' r (rw (q, run_rounds) at e) in
            (Follows-trans E f g, reported)
      ]

  -- A run without a compaction strategy only adds to the history that it was given (with the
  -- system prompt put first where it is missing). A result has exactly that history, and no
  -- message waits in the session's queue then; the messages of a failed turn are that history,
  -- then perhaps a part of a response that has content, reasoning or no tool calls, and a last
  -- message with the turn's error text, which is the text of the error that comes with it.
  pub run-history :
      (config : LoopConfig Value W) (ms : List (Message Value)) (s : Session Value) (fs : Fs)
      (w : W) (r : Result (RunResult Value) (AgentRunError Value)) (t : Turn E)
      → config.compaction_strategy ≡ none
      → run E config ms s fs w ≡ some (r, t)
      → Extends E (with_system_prompt config.system_prompt ms) t.messages × Reports E r t
  unfolding run
  run-history config ms s fs w r t h e =
      let (f, reported) =
        run_rounds-Follows (suc config.max_iterations) config (length ms) (start E config ms s fs w)
          t r e in
      (f.extends h, reported)

  -- The run itself leaves the session's log and system message alone, compaction or not, and
  -- reports its messages as they are at the end.
  pub run-log :
      (config : LoopConfig Value W) (ms : List (Message Value)) (s : Session Value) (fs : Fs)
      (w : W) (r : Result (RunResult Value) (AgentRunError Value)) (t : Turn E)
      → run E config ms s fs w ≡ some (r, t)
      → (t.session.messages ≡ s.messages)
        × (t.session.system_message ≡ s.system_message)
        × Reports E r t
  unfolding run
  run-log config ms s fs w r t e =
      let (f, reported) =
        run_rounds-Follows (suc config.max_iterations) config (length ms) (start E config ms s fs w)
          t r e in
      (f.log, f.prompt, reported)
