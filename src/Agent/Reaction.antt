-- ===== src/Agent/Reaction.antt =====
-- crates/hermes-agent/src/loop_engine/run.rs: how a turn reacts to the response: compaction, the
-- finish reason and the tool calls.
use perry_hermes.Prelude.{
  unwrap_or, ℕ, Bool, true, false, Option, none, some, List, [], ◌∷◌, Text, codes, leb,
  if◌then◌else◌, Result, ok, err,
}
use perry_hermes.Core.Message.{Message, ToolCall}
use perry_hermes.Core.Errors.{
  ToolError, cancelled, other, invalid_response, content_filter, provider, not_found, invalid_args,
}
use perry_hermes.Core.Provider.{
  Completion, stop, tool_use, length as length_reason, content_filter as content_filter_reason,
  error,
}
use perry_hermes.Agent.Session.{compacted_context_tokens}
use perry_hermes.Agent.Compaction.{
  Strategy, CompactOutcome, skipped, compressed, failed, try_compact,
}
use perry_hermes.Agent.Events.{
  Event, LoopMetrics, RunResult, FailedTurn, AgentRunError, loop_error, failed_turn, ToolOutput,
  no_metrics,
}
use perry_hermes.Agent.Events
use perry_hermes.Agent.Host.{Env, Tool}
use perry_hermes.Agent.Failure.{add_u32, LoopConfig, tool_message}
use perry_hermes.Agent.Turn.{Turn, emit, push}

module _ (E : Env) where
  open E use {J, F, C, H}
  open J use {Value}
  open F use {Fs}
  open H use {W}

  unfoldable pub emit_usage : Option ℕ → Turn E → Turn E
  unfolding emit
  emit_usage none t = t
  emit_usage (some n) t = emit E (Events.Event.context_usage_updated n) t

  -- the events of an automatic compaction
  unfoldable pub report_outcome : ℕ → CompactOutcome → Turn E → Turn E
  unfolding emit emit_usage
  report_outcome tokens (compressed duration out) t =
      let after = compacted_context_tokens out t.session in
      let t1 : Turn E = record t {
        metrics = record t.metrics { compressions = add_u32 t.metrics.compressions 1 };
      } in
      emit E
        (Events.Event.compression_completed Events.CompressionTrigger.post_turn (some tokens) after
          duration)
        (emit_usage after t1)
  report_outcome tokens (skipped reason) t = emit E (Events.Event.compression_skipped reason) t
  report_outcome tokens (failed text) t =
      emit E (Events.Event.compression_failed Events.CompressionTrigger.post_turn text) t

  -- `auto_compress_after_response`, once a strategy and a window are configured
  unfoldable pub compress_above : Strategy Value W → ℕ → ℕ → Turn E → Turn E
  unfolding report_outcome
  compress_above strategy threshold tokens t =
      let (locked, w1) = H.strategy_locked t.world in
      let (duration, w2) = H.compaction_duration w1 in
      let (outcome, (ms, w3)) = try_compact strategy locked duration t.messages none none w2 in
      if leb threshold tokens
      then report_outcome tokens outcome (record t { messages = ms; world = w3 })
      else t

  unfoldable pub auto_compress_after_response : LoopConfig Value W → ℕ → Turn E → Turn E
  unfolding compress_above
  auto_compress_after_response config tokens t = elim config.compaction_strategy [
    | none ↦ t
    | some strategy ↦ elim config.threshold_tokens [
      | none ↦ t
      | some threshold ↦ compress_above strategy threshold tokens t
    ]
  ]

  unfoldable pub validated : Tool Value W → Result Value Text → W → Result ToolOutput ToolError × W
  validated tool (err e) w = (err (invalid_args e), w)
  validated tool (ok args) w = tool.execute args w

  unfoldable pub dispatch_tool : ToolCall Value → W → Result ToolOutput ToolError × W
  unfolding validated
  dispatch_tool call w = elim (H.tool call.name) [
    | none ↦ (err (not_found call.name), w)
    | some tool ↦ validated tool (H.validate_args call.arguments tool.parameters_schema) w
  ]

  -- one round of the loop over the calls, once it is not cancelled
  unfoldable pub run_call : ToolCall Value → Turn E → Turn E
  unfolding emit push dispatch_tool tool_message
  run_call call t =
      let t1 = emit E (Events.Event.tool_call_started call t.metrics.iterations) t in
      let (result, w) = dispatch_tool call t1.world in
      let t2 = push E (tool_message call result) (record t1 { world = w }) in
      let t3 = emit E (Events.Event.tool_call_finished call result) t2 in
      record t3 { metrics = record t3.metrics { tool_calls = add_u32 t3.metrics.tool_calls 1 } }

  -- the test before each call
  unfoldable pub unless_cancelled :
      Bool
      → Turn E
      → Result (Unit {0}) (AgentRunError Value) × Turn E
      → Result (Unit {0}) (AgentRunError Value) × Turn E
  unfolding emit
  unless_cancelled true t rest = (err (loop_error cancelled), emit E Events.Event.cancelled t)
  unless_cancelled false t rest = rest

  unfoldable pub dispatch_calls :
      List (ToolCall Value) → Turn E → Result (Unit {0}) (AgentRunError Value) × Turn E
  unfolding run_call unless_cancelled
  dispatch_calls [] t = (ok tt, t)
  dispatch_calls (call ∷ calls) t =
      let (is_cancelled, w) = H.is_cancelled t.world in
      let t1 : Turn E = record t { world = w } in
      unless_cancelled is_cancelled t1 (dispatch_calls calls (run_call call t1))

  -- the test for an empty list of calls
  unfoldable pub dispatch_or_refuse :
      List (ToolCall Value) → Turn E → Result (Unit {0}) (AgentRunError Value) × Turn E
  unfolding dispatch_calls
  dispatch_or_refuse [] t = (
    err (
        loop_error
          (provider (invalid_response (codes "finish_reason=tool_use but no tool_calls")))),
    t,
  )
  dispatch_or_refuse (call ∷ calls) t = dispatch_calls (call ∷ calls) t

  unfoldable pub dispatch_tool_calls :
      Completion Value → Turn E → Result (Unit {0}) (AgentRunError Value) × Turn E
  unfolding dispatch_or_refuse
  dispatch_tool_calls c t = dispatch_or_refuse (unwrap_or c.message.tool_calls []) t

  -- `finalize`
  unfoldable pub run_result : Message Value → Turn E → RunResult Value
  run_result final t = record { final_message = final; messages = t.messages; metrics = t.metrics }

  unfoldable pub no_result :
      Result (Unit {0}) (AgentRunError Value) × Turn E
      → Result (Option (RunResult Value)) (AgentRunError Value) × Turn E
  no_result (err e, t) = (err e, t)
  no_result (ok _, t) = (ok none, t)

  unfoldable pub handle_finish_reason :
      Completion Value → Turn E → Result (Option (RunResult Value)) (AgentRunError Value) × Turn E
  unfolding run_result no_result dispatch_tool_calls emit
  handle_finish_reason c t = elim c.finish_reason [
    | stop ↦ (ok (some (run_result c.message t)), t)
    | tool_use ↦ no_result (dispatch_tool_calls c t)
    | length_reason ↦
        let t1 = emit E Events.Event.length_limit t in (ok (some (run_result c.message t1)), t1)
    | content_filter_reason ↦ (err (loop_error content_filter), t)
    | error ↦
        (err (loop_error (provider (other (codes "provider returned finish_reason=error")))), t)
  ]
