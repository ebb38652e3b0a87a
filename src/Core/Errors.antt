-- ===== src/Core/Errors.antt =====
-- crates/hermes-core/src/error.rs: the errors of providers, tools and the loop, with the texts
-- that `thiserror` derives. A duration is a number of nanoseconds; its debug format is an argument.
use perry_hermes.Prelude.{ℕ, ◌++◌, Text, codes, decimal}

pub data ProviderError : Type 0 where
  rate_limited : ℕ → ProviderError
  auth transport invalid_response : Text → ProviderError
  cancelled : ProviderError
  other : Text → ProviderError

unfoldable pub provider_error_text : ProviderError → Text
unfolding decimal
provider_error_text (rate_limited secs) =
    codes "rate limited (retry after " ++ (decimal secs ++ codes "s)")
provider_error_text (auth s) = codes "authentication failed: " ++ s
provider_error_text (transport s) = codes "transport error: " ++ s
provider_error_text (invalid_response s) = codes "invalid response: " ++ s
provider_error_text cancelled = codes "cancelled"
provider_error_text (other s) = s

pub data ToolError : Type 0 where
  not_found invalid_args execution permission : Text → ToolError
  cancelled : ToolError
  timeout : ℕ → ToolError

unfoldable pub tool_error_text : ToolError → Text
unfolding decimal
tool_error_text (not_found s) = codes "tool not found: " ++ s
tool_error_text (invalid_args s) = codes "invalid arguments: " ++ s
tool_error_text (execution s) = codes "execution failed: " ++ s
tool_error_text (permission s) = codes "permission denied: " ++ s
tool_error_text cancelled = codes "cancelled"
tool_error_text (timeout secs) = codes "timeout after " ++ (decimal secs ++ codes "s")

pub data LoopError : Type 0 where
  max_iterations : ℕ → LoopError
  timeout : ℕ → LoopError
  cancelled content_filter : LoopError
  provider : ProviderError → LoopError

unfoldable pub loop_error_text : (ℕ → Text) → LoopError → Text
unfolding decimal provider_error_text
loop_error_text fmt_duration (max_iterations n) =
    codes "max iterations (" ++ (decimal n ++ codes ") reached")
loop_error_text fmt_duration (timeout d) = codes "timeout after " ++ fmt_duration d
loop_error_text fmt_duration cancelled = codes "cancelled"
loop_error_text fmt_duration content_filter = codes "content filter triggered"
loop_error_text fmt_duration (provider e) = codes "provider error: " ++ provider_error_text e
