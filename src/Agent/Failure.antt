-- ===== src/Agent/Failure.antt =====
-- crates/hermes-agent/src/loop_engine/run.rs: the configuration of the loop, the errors that it
-- builds from a broken turn, and the messages that it writes.
use perry_hermes.Prelude.{
  ℕ, ◌+◌, ◌%◌, ◌^◌, Bool, true, false, not, ◌||◌, Option, none, some, List, [], ◌∷◌, ◌++◌, Text,
  codes, length, is_empty, ltb, if◌then◌else◌, Result, ok, err,
}
use perry_hermes.Core.Message.{
  Message, Content, plain, parts, ToolCall, user_message, assistant_message, tool_result,
}
use perry_hermes.Core.Errors.{
  ProviderError, ToolError, LoopError, other, provider, provider_error_text, tool_error_text,
  loop_error_text,
}
use perry_hermes.Core.Provider.{
  FinishReason, stop, tool_use, length as length_reason, content_filter as content_filter_reason,
  error,
}
use perry_hermes.Agent.Compaction.{Strategy}
use perry_hermes.Agent.Events.{AgentRunError, loop_error, failed_turn, ToolOutput}
use perry_hermes.Agent.Host.{ProcessNotification}

-- `u32` and `u64` additions, as a release build computes them.
abbrev pub add_u32 : ℕ → ℕ → ℕ
add_u32 a b = (a + b) % 2 ^ 32

abbrev pub add_u64 : ℕ → ℕ → ℕ
add_u64 a b = (a + b) % 2 ^ 64

-- The fields of `LoopConfig` that the loop reads. Of the context window the loop uses only
-- `threshold_tokens()`, a product of a `u64` and an `f64`, which is given here as a number.
pub record LoopConfig (V W : Type 0) : Type 0 where
  pub max_iterations : ℕ
  pub max_duration : ℕ
  pub system_prompt : Option Text
  pub compaction_strategy : Option (Strategy V W)
  pub threshold_tokens : Option ℕ

unfoldable pub content_not_empty : Content → Bool
content_not_empty (plain text) = not (is_empty text)
content_not_empty (parts ps) = not (is_empty ps)

-- `partial_assistant_is_safe_to_preserve`
unfoldable pub is_safe_to_preserve : {V : Type 0} → Message V → Bool
unfolding content_not_empty
is_safe_to_preserve m =
    content_not_empty m.content
    || elim m.reasoning [ none ↦ false | some text ↦ not (is_empty text) ]
    || elim m.tool_calls [ none ↦ true | some calls ↦ false ]

-- `build_failed_turn_or_plain`
unfoldable pub build_failed_turn_or_plain :
    {V : Type 0} → (ℕ → Text) → List (Message V) → ℕ → LoopError → AgentRunError V
build_failed_turn_or_plain fmt messages initial_len e =
    let error_text = codes "Turn interrupted by error: " ++ loop_error_text fmt e in
    if ltb initial_len (length messages)
    then failed_turn
        (record { messages = messages ++ assistant_message error_text ∷ []; error = error_text })
        (other (loop_error_text fmt e))
    else loop_error e

-- the partial message, if it is there and safe to preserve
unfoldable pub preserved_partial : {V : Type 0} → Option (Message V) → List (Message V)
unfolding is_safe_to_preserve
preserved_partial none = []
preserved_partial (some m) = if is_safe_to_preserve m then m ∷ [] else []

abbrev pub provider_failure_text : ProviderError → Text
provider_failure_text e =
    codes "Turn interrupted by error: provider error: " ++ provider_error_text e

-- `build_failed_turn`
unfoldable pub build_failed_turn :
    {V : Type 0} → List (Message V) → Option (Message V) → ℕ → ProviderError → AgentRunError V
unfolding preserved_partial
build_failed_turn {V} messages partial initial_len e =
    let preserved : List (Message V) = messages ++ preserved_partial partial in
    if ltb initial_len (length preserved)
    then failed_turn
        (record {
          messages = preserved ++ assistant_message (provider_failure_text e) ∷ [];
          error = provider_failure_text e;
        })
        e
    else loop_error (provider e)

-- the finish reasons after which the loop looks at the context usage
unfoldable pub may_compress : FinishReason → Bool
may_compress stop = true
may_compress length_reason = true
may_compress tool_use = true
may_compress content_filter_reason = false
may_compress error = false

-- A `DriveError`.
pub record DriveError (V : Type 0) : Type 0 where
  pub error : ProviderError
  pub partial : Option (Message V)

-- the message of a finished background process
unfoldable pub notification_message : {V : Type 0} → ProcessNotification → Message V
notification_message n = user_message (
    codes "[IMPORTANT: Background process "
    ++ (n.session_id
        ++ (codes " completed (exit code "
            ++ (n.exit_code
                ++ (codes ").\nCommand: "
                    ++ (n.command ++ (codes "\nOutput:\n" ++ (n.output_tail ++ codes "]"))))))))

-- the message that answers a tool call
unfoldable pub tool_message : {V : Type 0} → ToolCall V → Result ToolOutput ToolError → Message V
tool_message call (ok out) = tool_result call.id out.content
tool_message call (err e) = tool_result call.id (codes "Error: " ++ tool_error_text e)
