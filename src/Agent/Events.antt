-- ===== src/Agent/Events.antt =====
-- The types of crates/hermes-agent/src/loop_engine/agent_loop.rs that the loop reports with, and
-- what a tool returns (crates/hermes-core/src/tool.rs).
use perry_hermes.Prelude.{ℕ, Option, List, Text, Result}
use perry_hermes.Core.Message.{Message, ToolCall}
use perry_hermes.Core.Errors.{ProviderError, ToolError, LoopError}
use perry_hermes.Core.Provider.{ToolCallDelta}
use perry_hermes.Agent.Compaction.{CompressionSkipReason}

pub record ToolOutput : Type 0 where
  pub content : Text

pub data CompressionTrigger : Type 0 where
  post_turn manual : CompressionTrigger

-- `LoopMetrics`; the loop never writes its `duration`.
pub record LoopMetrics : Type 0 where
  pub iterations : ℕ
  pub tool_calls : ℕ
  pub input_tokens : ℕ
  pub cached_input_tokens : ℕ
  pub output_tokens : ℕ
  pub duration : ℕ
  pub compressions : ℕ

-- `LoopMetrics::default()`
abbrev pub no_metrics : LoopMetrics
no_metrics = record {
  iterations = 0;
  tool_calls = 0;
  input_tokens = 0;
  cached_input_tokens = 0;
  output_tokens = 0;
  duration = 0;
  compressions = 0;
}

pub record RunResult (V : Type 0) : Type 0 where
  pub final_message : Message V
  pub messages : List (Message V)
  pub metrics : LoopMetrics

pub record FailedTurn (V : Type 0) : Type 0 where
  pub messages : List (Message V)
  pub error : Text

pub data AgentRunError (V : Type 0) : Type 0 where
  loop_error : LoopError → AgentRunError V
  failed_turn : FailedTurn V → ProviderError → AgentRunError V

-- `LoopEvent`
pub data Event (V : Type 0) : Type 0 where
  thinking : Event V
  content_delta reasoning_delta : Text → Event V
  tool_call_partial : ToolCallDelta → Event V
  assistant_message : Message V → Event V
  user_message_injected : Text → Event V
  tool_call_started : ToolCall V → ℕ → Event V
  tool_call_finished : ToolCall V → Result ToolOutput ToolError → Event V
  length_limit iterations_exhausted cancelled : Event V
  context_usage_updated : ℕ → Event V
  compression_completed : CompressionTrigger → Option ℕ → Option ℕ → ℕ → Event V
  compression_skipped : CompressionSkipReason → Event V
  compression_failed : CompressionTrigger → Text → Event V
