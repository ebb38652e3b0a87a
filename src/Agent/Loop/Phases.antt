-- ===== src/Agent/Loop/Phases.antt =====
-- The phases of a round of `run` up to the end of its stream: what each does to the count of iterations,
-- to the messages and to the log of the session.
use perry_hermes.Prelude.{
  ◌<◌, ◌≡◌, refl, sym, ap, ◌∙◌, Option, none, some, List, [], ◌∷◌, ◌++◌, append_assoc, append-nil,
  arith, Result, ok, err, Text,
}
use perry_hermes.Core.Message.{Message}
use perry_hermes.Core.Errors.{ProviderError}
use perry_hermes.Core.Usage.{Usage}
use perry_hermes.Core.Provider.{CompletionDelta, ToolCallDelta}
use perry_hermes.Core.Accumulator.{StreamAccumulator, new, add}
use perry_hermes.Agent.Session.{drain_pending_messages, remember_context_usage_baseline}
use perry_hermes.Agent.Session.Queue.{enqueue_all-append}
use perry_hermes.Agent.Events
use perry_hermes.Agent.Events.{Event, RunResult, AgentRunError, loop_error}
use perry_hermes.Agent.Host.{Env, Poll, token_cancelled, chunk}
use perry_hermes.Agent.Failure.{LoopConfig, add_u32}
use perry_hermes.Agent.Turn.{
  Turn, emit, push, receive_arrivals, inject_pending, check_limits, emit_text, inject, emit_partial,
  emit_delta, drive, drive_opened, drive_turn, record_usage,
}

module _ (E : Env) where
  open E use {J, F, C, H}
  open J use {Value}
  open H use {W}

  -- The same count of iterations, and the same messages with perhaps some more at the end.
  pub record Advances (t t' : Turn E) : Type 0 where
    pub iterations : t'.metrics.iterations ≡ t.metrics.iterations
    pub added : List (Message Value)
    pub messages : t'.messages ≡ t.messages ++ added
    pub log : t'.session.messages ≡ t.session.messages
    pub prompt : t'.session.system_message ≡ t.session.system_message

  pub Advances-trans : {t u v : Turn E} → Advances t u → Advances u v → Advances t v
  Advances-trans {t} {u} {v} a b = record {
    iterations = b.iterations ∙ a.iterations;
    added = a.added ++ b.added;
    messages =
        b.messages ∙ ap (λ ms. ms ++ b.added) a.messages ∙ append_assoc t.messages a.added b.added;
    log = b.log ∙ a.log;
    prompt = b.prompt ∙ a.prompt;
  }

  pub Advances-refl : (t : Turn E) → Advances t t
  Advances-refl t = record {
    iterations = refl;
    added = [];
    messages = sym (append-nil t.messages);
    log = refl;
    prompt = refl;
  }

  -- Nothing changed but the world, the session, the files, the events and other counters.
  pub Advances-same :
      {t t' : Turn E}
      → t'.metrics.iterations ≡ t.metrics.iterations
      → t'.messages ≡ t.messages
      → t'.session.messages ≡ t.session.messages
      → t'.session.system_message ≡ t.session.system_message
      → Advances t t'
  Advances-same {t} {t'} i m l p = record {
    iterations = i;
    added = [];
    messages = m ∙ sym (append-nil t.messages);
    log = l;
    prompt = p;
  }

  pub emit-Advances : (e : Event Value) (t : Turn E) → Advances t (emit E e t)
  unfolding emit
  emit-Advances e t = Advances-same refl refl refl refl

  pub push-Advances : (m : Message Value) (t : Turn E) → Advances t (push E m t)
  unfolding push
  push-Advances m t = record {
    iterations = refl;
    added = m ∷ [];
    messages = refl;
    log = refl;
    prompt = refl;
  }

  pub receive_arrivals-Advances : (t : Turn E) → Advances t (receive_arrivals E t)
  unfolding receive_arrivals
  receive_arrivals-Advances t =
      let e = enqueue_all-append (H.arrivals t.world).0 t.session in
      Advances-same refl refl (ap (λ s. s.messages) e) (ap (λ s. s.system_message) e)

  pub receive_arrivals-messages : (t : Turn E) → t.messages ≡ (receive_arrivals E t).messages
  unfolding receive_arrivals
  receive_arrivals-messages t = refl

  inject-Advances : (o : Option (Message Value)) (t : Turn E) → Advances t (inject E o t)
  unfolding inject
  inject-Advances none t = Advances-refl t
  inject-Advances (some m) t = Advances-trans (push-Advances m t) (emit-Advances _ (push E m t))

  drained-Advances :
      (t : Turn E) → Advances t (record t { session = (drain_pending_messages t.session).1 })
  unfolding drain_pending_messages
  drained-Advances t = Advances-same refl refl refl refl

  pub inject_pending-Advances : (t : Turn E) → Advances t (inject_pending E t)
  unfolding inject_pending
  inject_pending-Advances t =
      let t1 = receive_arrivals E t in
      let t2 : Turn E = record t1 { session = (drain_pending_messages t1.session).1 } in
      Advances-trans (receive_arrivals-Advances t) (
        Advances-trans {u = t2} (drained-Advances t1)
          (inject-Advances (drain_pending_messages t1.session).0 t2))

  pub check_limits-Advances :
      (config : LoopConfig Value W) (t : Turn E) → Advances t (check_limits E config t).1
  unfolding check_limits emit
  check_limits-Advances config t =
      Advances-same (ground arith) (ground arith) (ground arith) (ground arith)

  -- A round gets past the checks only below the limit of iterations.
  pub check_limits-none :
      (config : LoopConfig Value W) (t : Turn E)
      → (check_limits E config t).0 ≡ none
      → t.metrics.iterations < config.max_iterations
  unfolding check_limits
  check_limits-none config t h = ground arith

  emit_text-Advances :
      (event : Text → Event Value) (o : Option Text) (t : Turn E)
      → Advances t (emit_text E event o t)
  unfolding emit_text
  emit_text-Advances event none t = Advances-refl t
  emit_text-Advances event (some s) t = emit-Advances (event s) t

  emit_partial-Advances : (o : Option ToolCallDelta) (t : Turn E) → Advances t (emit_partial E o t)
  unfolding emit_partial
  emit_partial-Advances none t = Advances-refl t
  emit_partial-Advances (some td) t = emit-Advances _ t

  emit_delta-Advances : (d : CompletionDelta) (t : Turn E) → Advances t (emit_delta E d t)
  unfolding emit_delta
  emit_delta-Advances d t = Advances-trans (emit_text-Advances _ d.content_delta t) (
      Advances-trans (emit_text-Advances _ d.reasoning_delta _)
        (emit_partial-Advances d.tool_call_delta _))

  drive-Advances :
      (polls : List Poll) (acc : StreamAccumulator Value) (t : Turn E)
      → Advances t (drive E polls acc t).1
  unfolding drive
  drive-Advances [] acc t = Advances-refl t
  drive-Advances (token_cancelled ∷ polls) acc t = emit-Advances _ t
  drive-Advances (chunk (err e) ∷ polls) acc t = Advances-refl t
  drive-Advances (chunk (ok d) ∷ polls) acc t =
      Advances-trans (emit_delta-Advances d t)
        (drive-Advances polls (add J acc d) (emit_delta E d t))

  drive_opened-Advances :
      (t : Turn E) (r : Result (List Poll) ProviderError × W) → Advances t (drive_opened E t r).1
  unfolding drive_opened
  drive_opened-Advances t (err e, w) = Advances-same refl refl refl refl
  drive_opened-Advances t (ok polls, w) =
      Advances-trans (Advances-same refl refl refl refl)
        (drive-Advances polls (new J) (record t { world = w }))

  pub drive_turn-Advances : (t : Turn E) → Advances t (drive_turn E t).1
  unfolding drive_turn
  drive_turn-Advances t =
      let t1 = emit E Events.Event.thinking t in
      Advances-trans (emit-Advances Events.Event.thinking t)
        (drive_opened-Advances t1 (H.stream t1.messages t1.world))

  pub record_usage-iterations :
      (u : Usage) (t : Turn E)
      → (record_usage E u t).metrics.iterations ≡ add_u32 t.metrics.iterations 1
  unfolding record_usage emit
  record_usage-iterations u t = ground arith

  pub record_usage-messages : (u : Usage) (t : Turn E) → (record_usage E u t).messages ≡ t.messages
  unfolding record_usage emit
  record_usage-messages u t = ground arith

  pub record_usage-log :
      (u : Usage) (t : Turn E)
      → ((record_usage E u t).session.messages ≡ t.session.messages)
        × ((record_usage E u t).session.system_message ≡ t.session.system_message)
  unfolding record_usage emit remember_context_usage_baseline
  record_usage-log u t = ground arith
