-- ===== src/Core/Provider.antt =====
-- crates/hermes-core/src/provider.rs: what a provider streams and returns.
use perry_hermes.Prelude.{ℕ, Option, Text, codes, text_eq, if◌then◌else◌}
use perry_hermes.Core.Message.{Message}
use perry_hermes.Core.Usage.{Usage}

pub data FinishReason : Type 0 where
  stop tool_use length content_filter error : FinishReason

unfoldable pub from_provider_str : Text → FinishReason
from_provider_str s =
    if text_eq s (codes "stop")
    then stop
    else if text_eq s (codes "tool_calls")
    then tool_use
    else if text_eq s (codes "tool_use")
    then tool_use
    else if text_eq s (codes "length")
    then length
    else if text_eq s (codes "content_filter")
    then content_filter
    else error

pub record Completion (V : Type 0) : Type 0 where
  pub message : Message V
  pub usage : Usage
  pub finish_reason : FinishReason

pub record ToolCallDelta : Type 0 where
  pub index : ℕ
  pub id : Option Text
  pub name : Option Text
  pub arguments_fragment : Option Text

pub record CompletionDelta : Type 0 where
  pub content_delta : Option Text
  pub reasoning_delta : Option Text
  pub tool_call_delta : Option ToolCallDelta
  pub usage : Option Usage
  pub finish_reason : Option FinishReason
