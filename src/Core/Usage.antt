-- ===== src/Core/Usage.antt =====
-- crates/hermes-core/src/usage.rs: token counts of type `u64`.
use perry_hermes.Prelude.{ℕ, ◌+◌, ◌-◌, ◌^◌, ◌≤◌, ◌≡◌, arith, ltb, if◌then◌else◌, min}

abbrev pub u64_max : ℕ
u64_max = 2 ^ 64 - 1

-- `u64::saturating_add`.
unfoldable pub saturating_add : ℕ → ℕ → ℕ
saturating_add a b = if ltb u64_max (a + b) then u64_max else a + b

pub record Usage : Type 0 where
  pub input_tokens : ℕ
  pub output_tokens : ℕ
  pub cached_input_tokens : ℕ

-- `Usage::default()`
abbrev pub no_usage : Usage
no_usage = record { input_tokens = 0; output_tokens = 0; cached_input_tokens = 0 }

unfoldable pub prompt_context_tokens : Usage → ℕ
unfolding saturating_add
prompt_context_tokens u = saturating_add u.input_tokens u.cached_input_tokens

unfoldable pub total : Usage → ℕ
unfolding saturating_add
total u = saturating_add (saturating_add u.input_tokens u.cached_input_tokens) u.output_tokens

-- The two sums never leave `u64`, the context count never exceeds the total, and the total is the
-- exact sum of the three counts whenever that sum fits in a `u64`.
pub total_bounds :
    (u : Usage)
    → (total u ≤ u64_max)
      × (prompt_context_tokens u ≤ u64_max)
      × (prompt_context_tokens u ≤ total u)
      × (total u ≡ min u64_max (u.input_tokens + u.cached_input_tokens + u.output_tokens))
unfolding total prompt_context_tokens
total_bounds u = ground arith
