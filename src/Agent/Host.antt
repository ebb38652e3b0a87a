-- ===== src/Agent/Host.antt =====
-- What the loop meets outside itself, as operations on the state `W` of the outside world: the
-- provider, the tools, the clock, the cancellation token, other tasks that queue messages, and
-- finished background processes.
use perry_hermes.Prelude.{ℕ, Bool, Option, List, Text, Result}
use perry_hermes.Core.Json.{Json}
use perry_hermes.Core.Message.{Message}
use perry_hermes.Core.Errors.{ProviderError, ToolError}
use perry_hermes.Core.Provider.{CompletionDelta}
use perry_hermes.Agent.Files.{Files}
use perry_hermes.Agent.Session.{Codec}
use perry_hermes.Agent.Events.{ToolOutput}

-- What `select!` sees next while a stream is read: the cancellation, or a chunk. The end of a list
-- of these is the end of the stream.
pub data Poll : Type 0 where
  token_cancelled : Poll
  chunk : Result CompletionDelta ProviderError → Poll

-- `ProcessNotification::Completed`; the exit code is given as its printed text.
pub record ProcessNotification : Type 0 where
  pub session_id : Text
  pub exit_code : Text
  pub command : Text
  pub output_tail : Text

-- A registered tool: its schema and its `execute`.
pub record Tool (V W : Type 0) : Type 0 where
  pub parameters_schema : V
  pub execute : V → W → Result ToolOutput ToolError × W

pub record Host (J : Json) : Type 1 where
  pub W : Type 0
  -- `CancellationToken::is_cancelled`
  pub is_cancelled : W → Bool × W
  -- nanoseconds since the turn started
  pub elapsed : W → ℕ × W
  -- the messages that other tasks have queued since the last time the loop looked
  pub arrivals : W → List Text × W
  -- `Provider::stream`
  pub stream : List (Message J.Value) → W → Result (List Poll) ProviderError × W
  -- `InMemoryRegistry::get`
  pub tool : Text → Option (Tool J.Value W)
  -- `jsonschema`: the arguments against the schema, with the text of the failure
  pub validate_args : J.Value → J.Value → Result J.Value Text
  -- `PROCESS_REGISTRY.drain_notifications()`
  pub drain_notifications : W → List ProcessNotification × W
  -- whether `try_lock` finds the compaction strategy taken
  pub strategy_locked : W → Bool × W
  -- how long a compaction takes
  pub compaction_duration : W → ℕ × W
  -- the debug format of a duration
  pub fmt_duration : ℕ → Text

-- All that the loop takes from outside the repository.
pub record Env : Type 1 where
  pub J : Json
  pub F : Files
  pub C : Codec J.Value F.Bytes
  pub H : Host J
