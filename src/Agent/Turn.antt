-- ===== src/Agent/Turn.antt =====
-- crates/hermes-agent/src/loop_engine/run.rs: one turn of the loop up to the response. A turn is a
-- record of everything that the loop reads and writes; its events stand in the order of `on_event`.
use perry_hermes.Prelude.{
  Option, none, some, List, [], ◌∷◌, ◌++◌, Text, ltb, leb, if◌then◌else◌, Result, ok, err,
}
use perry_hermes.Core.Message.{Message, assistant, as_text}
use perry_hermes.Core.Errors.{ProviderError, LoopError, cancelled, max_iterations, timeout}
use perry_hermes.Core.Usage.{Usage, prompt_context_tokens}
use perry_hermes.Core.Provider.{Completion, CompletionDelta, ToolCallDelta}
use perry_hermes.Core.Accumulator.{
  StreamAccumulator, new, add, finalize, acc_is_empty, into_partial_message,
}
use perry_hermes.Agent.Session.{Session, drain_pending_messages, remember_context_usage_baseline}
use perry_hermes.Agent.Session.Queue.{enqueue_all}
use perry_hermes.Agent.Events.{
  Event, LoopMetrics, RunResult, FailedTurn, AgentRunError, loop_error, failed_turn, ToolOutput,
  no_metrics,
}
use perry_hermes.Agent.Events
use perry_hermes.Agent.Host.{Env, Poll, token_cancelled, chunk}
use perry_hermes.Agent.Failure.{add_u32, add_u64, LoopConfig, DriveError}

module _ (E : Env) where
  open E use {J, F, C, H}
  open J use {Value}
  open F use {Fs}
  open H use {W}

  pub record Turn : Type 0 where
    pub messages : List (Message Value)
    pub metrics : LoopMetrics
    pub session : Session Value
    pub fs : Fs
    pub world : W
    pub events : List (Event Value)

  unfoldable pub emit : Event Value → Turn → Turn
  emit e t = record t { events = t.events ++ e ∷ [] }

  unfoldable pub push : Message Value → Turn → Turn
  push m t = record t { messages = t.messages ++ m ∷ [] }

  -- what other tasks have queued meanwhile reaches the session
  unfoldable pub receive_arrivals : Turn → Turn
  receive_arrivals t =
      let (texts, w) = H.arrivals t.world in
      record t { session = enqueue_all texts t.session; world = w }

  -- a drained message joins the conversation
  unfoldable pub inject : Option (Message Value) → Turn → Turn
  unfolding emit push
  inject none t = t
  inject (some m) t = emit (Events.Event.user_message_injected (as_text m.content)) (push m t)

  -- the head of the loop: the pending user messages join the conversation
  unfoldable pub inject_pending : Turn → Turn
  unfolding receive_arrivals inject
  inject_pending t =
      let t1 = receive_arrivals t in
      let (injected, s) = drain_pending_messages t1.session in
      inject injected (record t1 { session = s })

  -- the three checks before a turn: cancellation, iterations, time
  unfoldable pub check_limits : LoopConfig Value W → Turn → Option LoopError × Turn
  unfolding emit
  check_limits config t =
      let (is_cancelled, w1) = H.is_cancelled t.world in
      let (spent, w2) = H.elapsed w1 in
      let (reported, w3) = H.elapsed w2 in
      if is_cancelled
      then (some cancelled, emit Events.Event.cancelled (record t { world = w1 }))
      else if leb config.max_iterations t.metrics.iterations
      then (
        some (max_iterations t.metrics.iterations),
        emit Events.Event.iterations_exhausted (record t { world = w1 }),
      )
      else if ltb config.max_duration spent
      then (some (timeout reported), record t { world = w3 })
      else (none, record t { world = w2 })

  unfoldable pub emit_text : (Text → Event Value) → Option Text → Turn → Turn
  unfolding emit
  emit_text event none t = t
  emit_text event (some s) t = emit (event s) t

  unfoldable pub emit_partial : Option ToolCallDelta → Turn → Turn
  unfolding emit
  emit_partial none t = t
  emit_partial (some td) t = emit (Events.Event.tool_call_partial td) t

  unfoldable pub emit_delta : CompletionDelta → Turn → Turn
  unfolding emit_text emit_partial
  emit_delta d t =
      let t1 = emit_text Events.Event.content_delta d.content_delta t in
      let t2 = emit_text Events.Event.reasoning_delta d.reasoning_delta t1 in
      emit_partial d.tool_call_delta t2

  unfoldable pub partial_message : StreamAccumulator Value → Option (Message Value)
  partial_message acc =
      if acc_is_empty J acc then none else some (into_partial_message J acc assistant)

  -- the loop over the stream
  unfoldable pub drive :
      List Poll
      → StreamAccumulator Value
      → Turn
      → Result (Completion Value) (DriveError Value) × Turn
  unfolding emit emit_delta partial_message
  drive [] acc t = (ok (finalize J acc), t)
  drive (token_cancelled ∷ polls) acc t = (
    err (record { error = cancelled; partial = partial_message acc }),
    emit Events.Event.cancelled t,
  )
  drive (chunk (err e) ∷ polls) acc t =
      (err (record { error = e; partial = partial_message acc }), t)
  drive (chunk (ok d) ∷ polls) acc t = drive polls (add J acc d) (emit_delta d t)

  -- `drive_turn`, after the stream is opened
  unfoldable pub drive_opened :
      Turn
      → Result (List Poll) ProviderError × W
      → Result (Completion Value) (DriveError Value) × Turn
  unfolding drive
  drive_opened t (err e, w) = (err (record { error = e; partial = none }), record t { world = w })
  drive_opened t (ok polls, w) = drive polls (new J) (record t { world = w })

  unfoldable pub drive_turn : Turn → Result (Completion Value) (DriveError Value) × Turn
  unfolding drive_opened emit
  drive_turn t =
      let t1 = emit Events.Event.thinking t in drive_opened t1 (H.stream t1.messages t1.world)

  -- the counters, the baseline and the event after a response
  unfoldable pub record_usage : Usage → Turn → Turn
  unfolding emit
  record_usage u t =
      let tokens = prompt_context_tokens u in
      let (s, fs) = remember_context_usage_baseline F C tokens t.session t.fs in
      let counted : LoopMetrics = record t.metrics {
        iterations = add_u32 t.metrics.iterations 1;
        input_tokens = add_u64 t.metrics.input_tokens u.input_tokens;
        cached_input_tokens = add_u64 t.metrics.cached_input_tokens u.cached_input_tokens;
        output_tokens = add_u64 t.metrics.output_tokens u.output_tokens;
      } in
      let t1 : Turn = record t { metrics = counted } in
      if ltb 0 tokens
      then emit (Events.Event.context_usage_updated tokens) (record t1 { session = s; fs = fs })
      else t1
