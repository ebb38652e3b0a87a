-- ===== src/Tests/LoopTests.antt =====
-- The loop on a small script: the theorems at concrete inputs, and the outcome of a whole turn.
use perry_hermes.Prelude.{
  length, ◌≡◌, refl, none, some, List, [], ◌∷◌, codes, arith, Result, ok, err,
}
use perry_hermes.Core.Message.{Message, user_message, assistant_message}
use perry_hermes.Core.Usage.{no_usage}
use perry_hermes.Core.Errors.{ProviderError}
use perry_hermes.Core.Provider.{Completion, stop, tool_use}
use perry_hermes.Agent.Host.{Poll}
use perry_hermes.Agent.Failure.{LoopConfig}
use perry_hermes.Agent.Compaction.{
  Complete, CompactionResult, CompactError, compact_inner, default_config,
}
use perry_hermes.Agent.Loop.Orphans.{compaction_of, responded}
use perry_hermes.Agent.Session.{Session}
use perry_hermes.Agent.Events.{AgentRunError, RunResult, no_metrics}
use perry_hermes.Agent.Turn.{Turn}
use perry_hermes.Agent.Reaction.{auto_compress_after_response, handle_finish_reason, dispatch_calls}
use perry_hermes.Agent.Loop.{run, run_current_session, start, with_system_prompt}
use perry_hermes.Agent.Loop.Termination.{Ends, run-Ends}
use perry_hermes.Agent.Loop.History.{Ended, run-history}
use perry_hermes.Agent.Loop.Follows.{Extends, Reports}
use perry_hermes.Agent.Loop.Outcome.{
  log_after, run_current_session-log, run_current_session-Extends,
}
use perry_hermes.Agent.Loop.Tools.{Dispatched, dispatch_calls-Dispatched}
use perry_hermes.Tests.World.{Value, world, session, script, config, call, no_files}

abbrev question : Turn world
question = start world config (user_message (codes "hi") ∷ []) session no_files script

-- the end of the run: a result, as evaluation shows
abbrev turn : Ended world
unfolding run
turn = elim (run world config question.messages session no_files script) [
  | none ↦ (
    ok (record { final_message = user_message []; messages = []; metrics = no_metrics }),
    question,
  )
  | some x ↦ x
]

run-Ends_example :
    Ends world 3 (run world config (user_message (codes "hi") ∷ []) session no_files script)
run-Ends_example =
    run-Ends world config (user_message (codes "hi") ∷ []) session no_files script (omega arith)

run-history_example :
    Extends world
      (with_system_prompt (some (codes "prompt")) (user_message (codes "hi") ∷ []))
      turn.1.messages
    × Reports world turn.0 turn.1
unfolding run perry_hermes.Agent.Loop.round perry_hermes.Agent.Turn.check_limits
    perry_hermes.Agent.Turn.inject_pending perry_hermes.Agent.Session.drain_pending_messages
    perry_hermes.Agent.Session.Queue.enqueue_all perry_hermes.Agent.Turn.drive_turn
    handle_finish_reason perry_hermes.Core.Accumulator.finalize perry_hermes.Core.Accumulator.add
    perry_hermes.Agent.Failure.may_compress auto_compress_after_response
    perry_hermes.Agent.Turn.record_usage perry_hermes.Core.Usage.prompt_context_tokens
    perry_hermes.Agent.Session.remember_context_usage_baseline
    perry_hermes.Agent.Session.has_pending_messages with_system_prompt
run-history_example =
    run-history world config (user_message (codes "hi") ∷ []) session no_files script turn.0 turn.1
      refl refl

-- The tool call is answered, the second response ends the run, and both are counted.
two_rounds :
    (turn.1.metrics.iterations ≡ 2) × (turn.1.metrics.tool_calls ≡ 1) × (length turn.1.messages ≡ 5)
unfolding turn perry_hermes.Agent.Loop.round perry_hermes.Agent.Turn.check_limits
    perry_hermes.Agent.Turn.inject_pending perry_hermes.Agent.Session.drain_pending_messages
    perry_hermes.Agent.Session.Queue.enqueue_all perry_hermes.Agent.Turn.drive_turn
    handle_finish_reason perry_hermes.Core.Accumulator.finalize perry_hermes.Core.Accumulator.add
    perry_hermes.Agent.Failure.may_compress auto_compress_after_response
    perry_hermes.Agent.Turn.record_usage perry_hermes.Core.Usage.prompt_context_tokens
    perry_hermes.Agent.Session.remember_context_usage_baseline
    perry_hermes.Agent.Session.has_pending_messages with_system_prompt
two_rounds = (refl, refl, refl)

run_current_session-log_example :
    (r : Result (RunResult Value) (AgentRunError Value)) × (t : Turn world) × (run_current_session
        world config session no_files script
      ≡ some (r, t))
    × (t.session.messages ≡ log_after world session.messages r)
    × (t.session.system_message ≡ session.system_message)
run_current_session-log_example =
    run_current_session-log world config session no_files script (omega arith)

run_current_session-Extends_example :
    (r : Result (RunResult Value) (AgentRunError Value)) × (t : Turn world) × (run_current_session
        world config session no_files script
      ≡ some (r, t))
    × Extends world session.messages t.session.messages
run_current_session-Extends_example =
    run_current_session-Extends world config session no_files script (omega arith) refl refl refl

dispatch_calls-Dispatched_example :
    Dispatched world (call ∷ call ∷ []) question (dispatch_calls world (call ∷ call ∷ []) question)
dispatch_calls-Dispatched_example = dispatch_calls-Dispatched world (call ∷ call ∷ []) question

-- a response with a tool call, in a turn whose messages can be compacted
abbrev asked : Completion Value
asked = record {
  message = record (assistant_message (codes "")) { tool_calls = some (call ∷ []) };
  usage = record { input_tokens = 100; output_tokens = 1; cached_input_tokens = 0 };
  finish_reason = tool_use;
}

abbrev summarized : Completion Value
summarized = record {
  message = assistant_message (codes "summary");
  usage = record { input_tokens = 50; output_tokens = 9; cached_input_tokens = 0 };
  finish_reason = stop;
}

abbrev Script : Type 0
Script = List (Result (List Poll) ProviderError)

abbrev summarizer : Complete Value Script
summarizer ms w = (ok summarized, w)

abbrev compacting : LoopConfig Value Script
compacting = record config {
  compaction_strategy = some (compact_inner default_config (some summarizer));
  threshold_tokens = some 80;
}

abbrev full : Turn world
full = record question { messages = user_message (codes "hi") ∷ [] }

abbrev compacted_full : Result (CompactionResult Value) CompactError × Script
compacted_full =
    compaction_of world (compact_inner default_config (some summarizer))
      (responded world asked full)

abbrev compaction : CompactionResult Value
unfolding compact_inner
compaction = elim compacted_full.0 [
  | err e ↦ record { messages = []; summary_usage = no_usage }
  | ok r ↦ r
]
