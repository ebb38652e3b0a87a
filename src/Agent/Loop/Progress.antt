-- ===== src/Agent/Loop/Progress.antt =====
-- The phases of a round of `run`: what each does to the count of iterations, to the messages and to
-- the session's log.
use perry_hermes.Prelude.{
  unwrap_or, ℕ, ◌≡◌, refl, Bool, true, false, Option, none, some, List, [], ◌∷◌, arith, map, Result,
  ok, err, Bool-cases, inl, inr, leb,
}
use perry_hermes.Core.Message.{ToolCall}
use perry_hermes.Core.Provider.{
  Completion, FinishReason, stop, tool_use, length, content_filter, error,
}
use perry_hermes.Agent.Compaction.{Strategy, CompactOutcome, skipped, compressed, failed}
use perry_hermes.Agent.Events.{AgentRunError}
use perry_hermes.Agent.Host.{Env}
use perry_hermes.Agent.Failure.{LoopConfig, notification_message}
use perry_hermes.Agent.Turn.{Turn, emit, push}
use perry_hermes.Agent.Reaction.{
  emit_usage, report_outcome, compress_above, auto_compress_after_response, run_call,
  unless_cancelled, dispatch_calls, dispatch_or_refuse, dispatch_tool_calls, no_result,
  handle_finish_reason,
}
use perry_hermes.Agent.Loop.{inject_process_notifications}
use perry_hermes.Agent.Loop.Phases.{
  Advances, Advances-trans, Advances-refl, Advances-same, emit-Advances,
}

module _ (E : Env) where
  open E use {J, F, C, H}
  open J use {Value}
  open H use {W}

  emit_usage-Advances : (o : Option ℕ) (t : Turn E) → Advances E t (emit_usage E o t)
  unfolding emit_usage
  emit_usage-Advances none t = Advances-refl E t
  emit_usage-Advances (some n) t = emit-Advances E _ t

  report_outcome-Advances :
      (n : ℕ) (o : CompactOutcome) (t : Turn E) → Advances E t (report_outcome E n o t)
  unfolding report_outcome
  report_outcome-Advances n (compressed duration out) t =
      Advances-trans E (Advances-same E refl refl refl refl)
        (Advances-trans E (emit_usage-Advances _ _) (emit-Advances E _ _))
  report_outcome-Advances n (skipped reason) t = emit-Advances E _ t
  report_outcome-Advances n (failed text) t = emit-Advances E _ t

  pub report_outcome-messages :
      (n : ℕ) (o : CompactOutcome) (t : Turn E) → (report_outcome E n o t).messages ≡ t.messages
  unfolding report_outcome emit_usage emit
  report_outcome-messages n (compressed duration out) t = ground arith
  report_outcome-messages n (skipped reason) t = refl
  report_outcome-messages n (failed text) t = refl

  -- The same count of iterations and the same session log; the messages may differ.
  pub record Rewrites (t t' : Turn E) : Type 0 where
    pub iterations : t'.metrics.iterations ≡ t.metrics.iterations
    pub log : t'.session.messages ≡ t.session.messages
    pub prompt : t'.session.system_message ≡ t.session.system_message

  compress_above-Rewrites :
      (strategy : Strategy Value W) (threshold n : ℕ) (t : Turn E)
      → Rewrites t (compress_above E strategy threshold n t)
  unfolding compress_above
  compress_above-Rewrites strategy threshold n t = elim (Bool-cases (leb threshold n)) [
    | inl h ↦
        let a = report_outcome-Advances n in
        rw (h, compress_above)
          (record { iterations = (a _ _).iterations; log = (a _ _).log; prompt = (a _ _).prompt })
    | inr h ↦ rw (h, compress_above) (record { iterations = refl; log = refl; prompt = refl })
  ]

  -- An automatic compaction may change the messages, and neither the count of iterations nor the
  -- session's log.
  pub auto_compress-Rewrites :
      (config : LoopConfig Value W) (n : ℕ) (t : Turn E)
      → Rewrites t (auto_compress_after_response E config n t)
  unfolding auto_compress_after_response
  auto_compress-Rewrites config n t = go config.compaction_strategy config.threshold_tokens
    where
      go :
          (s : Option (Strategy Value W)) (k : Option ℕ)
          → Rewrites t (
              auto_compress_after_response E
                (record config { compaction_strategy = s; threshold_tokens = k })
                n
                t)
      go none k = record { iterations = refl; log = refl; prompt = refl }
      go (some s) none = record { iterations = refl; log = refl; prompt = refl }
      go (some s) (some k) = compress_above-Rewrites s k n t

  run_call-Advances : (call : ToolCall Value) (t : Turn E) → Advances E t (run_call E call t)
  unfolding run_call emit push
  run_call-Advances call t = record {
    iterations = refl;
    added = _;
    messages = refl;
    log = refl;
    prompt = refl;
  }

  unless_cancelled-Advances :
      (b : Bool) (t : Turn E) (rest : Result (Unit {0}) (AgentRunError Value) × Turn E)
      → Advances E t rest.1
      → Advances E t (unless_cancelled E b t rest).1
  unfolding unless_cancelled
  unless_cancelled-Advances true t rest a = emit-Advances E _ t
  unless_cancelled-Advances false t rest a = a

  pub dispatch_calls-Advances :
      (calls : List (ToolCall Value)) (t : Turn E) → Advances E t (dispatch_calls E calls t).1
  unfolding dispatch_calls
  dispatch_calls-Advances [] t = Advances-refl E t
  dispatch_calls-Advances (call ∷ calls) t =
      let t1 : Turn E = record t { world = (H.is_cancelled t.world).1 } in
      Advances-trans E {u = t1} (Advances-same E refl refl refl refl) (
        unless_cancelled-Advances (H.is_cancelled t.world).0 t1
          (dispatch_calls E calls (run_call E call t1))
          (Advances-trans E (run_call-Advances call t1)
            (dispatch_calls-Advances calls (run_call E call t1))))

  dispatch_tool_calls-Advances :
      (c : Completion Value) (t : Turn E) → Advances E t (dispatch_tool_calls E c t).1
  unfolding dispatch_tool_calls dispatch_or_refuse
  dispatch_tool_calls-Advances c t = go (unwrap_or c.message.tool_calls [])
    where
      go : (calls : List (ToolCall Value)) → Advances E t (dispatch_or_refuse E calls t).1
      go [] = Advances-refl E t
      go (call ∷ calls) = dispatch_calls-Advances (call ∷ calls) t

  no_result-Advances :
      (t : Turn E) (r : Result (Unit {0}) (AgentRunError Value) × Turn E)
      → Advances E t r.1
      → Advances E t (no_result E r).1
  unfolding no_result
  no_result-Advances t (ok _, u) a = a
  no_result-Advances t (err e, u) a = a

  pub handle_finish_reason-Advances :
      (c : Completion Value) (t : Turn E) → Advances E t (handle_finish_reason E c t).1
  unfolding handle_finish_reason
  handle_finish_reason-Advances c t = go c.finish_reason
    where
      go :
          (r : FinishReason)
          → Advances E t (handle_finish_reason E (record c { finish_reason = r }) t).1
      go stop = Advances-refl E t
      go length = emit-Advances E _ t
      go content_filter = Advances-refl E t
      go error = Advances-refl E t
      go tool_use =
          no_result-Advances t (dispatch_tool_calls E c t) (dispatch_tool_calls-Advances c t)

  pub inject_process_notifications-Advances :
      (t : Turn E) → Advances E t (inject_process_notifications E t)
  unfolding inject_process_notifications
  inject_process_notifications-Advances t = record {
    iterations = refl;
    added = map notification_message (H.drain_notifications t.world).0;
    messages = refl;
    log = refl;
    prompt = refl;
  }
