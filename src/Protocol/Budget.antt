-- ===== src/Protocol/Budget.antt =====
-- The budgets of a session, what it has used of them, and `budget_exhaustion_reason`, of
-- src/cuda_fractal_state_tool/automated_protocol.py. Dollar amounts are counted in one fixed
-- quantum; counts that the source refuses when they are negative are natural numbers.
use cuda_fractal_engine_stat.Prelude.{
  ℕ, ◌+◌, ◌-◌, ◌≤◌, ◌<◌, ◌||◌, Option, none, some, ◌≡◌, ◌↔◌, arith, leb, ltb, ◌==◌, if◌then◌else◌,
}

pub record SessionBudgets : Type 0 where
  pub maximum_proven_rounds : ℕ
  pub maximum_model_responses : ℕ
  pub maximum_cumulative_input_tokens : ℕ
  pub maximum_cumulative_output_tokens : ℕ
  pub maximum_input_tokens_per_response : ℕ
  pub maximum_output_tokens_per_response : ℕ
  pub maximum_review_output_tokens_per_response : ℕ
  pub maximum_correction_output_tokens_per_response : ℕ
  pub maximum_calculated_cost_usd : ℕ

pub data BudgetError : Type 0 where
  budgets_not_positive stage_caps_exceed_response : BudgetError
  cached_exceeds_input cache_use_exceeds_input : BudgetError

-- `SessionBudgets.__post_init__`: the first check that fails.
unfoldable pub check_budgets : SessionBudgets → Option BudgetError
check_budgets b =
    if b.maximum_proven_rounds == 0
      || b.maximum_model_responses == 0
      || b.maximum_cumulative_input_tokens == 0
      || b.maximum_cumulative_output_tokens == 0
      || b.maximum_input_tokens_per_response == 0
      || b.maximum_output_tokens_per_response == 0
      || b.maximum_review_output_tokens_per_response == 0
      || b.maximum_correction_output_tokens_per_response == 0
    then some budgets_not_positive
    else if ltb b.maximum_output_tokens_per_response b.maximum_review_output_tokens_per_response
        || ltb b.maximum_output_tokens_per_response b.maximum_correction_output_tokens_per_response
    then some stage_caps_exceed_response
    else none

pub record BudgetUsage : Type 0 where
  pub proven_rounds : ℕ
  pub model_responses : ℕ
  pub cumulative_input_tokens : ℕ
  pub cumulative_cached_input_tokens : ℕ
  pub cumulative_output_tokens : ℕ
  pub cumulative_cache_write_tokens : ℕ
  pub cumulative_calculated_cost_usd : ℕ

-- `BudgetUsage.__post_init__`.
unfoldable pub check_usage : BudgetUsage → Option BudgetError
check_usage u =
    if ltb u.cumulative_input_tokens u.cumulative_cached_input_tokens
    then some cached_exceeds_input
    else if ltb u.cumulative_input_tokens
        (u.cumulative_cached_input_tokens + u.cumulative_cache_write_tokens)
    then some cache_use_exceeds_input
    else none

unfoldable pub cumulative_uncached_input_tokens : BudgetUsage → ℕ
cumulative_uncached_input_tokens u = u.cumulative_input_tokens - u.cumulative_cached_input_tokens

pub data Reason : Type 0 where
  proven_rounds model_responses cumulative_input_tokens cumulative_output_tokens : Reason
  input_tokens_per_response output_tokens_per_response calculated_cost_usd : Reason

unfoldable pub budget_exhaustion_reason : SessionBudgets → BudgetUsage → ℕ → ℕ → ℕ → Option Reason
budget_exhaustion_reason b u next_input next_output next_cost =
    if leb b.maximum_proven_rounds u.proven_rounds
    then some proven_rounds
    else if leb b.maximum_model_responses u.model_responses
    then some model_responses
    else if ltb b.maximum_cumulative_input_tokens (u.cumulative_input_tokens + next_input)
    then some cumulative_input_tokens
    else if ltb b.maximum_cumulative_output_tokens (u.cumulative_output_tokens + next_output)
    then some cumulative_output_tokens
    else if ltb b.maximum_input_tokens_per_response next_input
    then some input_tokens_per_response
    else if ltb b.maximum_output_tokens_per_response next_output
    then some output_tokens_per_response
    else if ltb b.maximum_calculated_cost_usd (u.cumulative_calculated_cost_usd + next_cost)
    then some calculated_cost_usd
    else none

-- Every limit of the session holds after one more response of this size.
pub record Fits (b : SessionBudgets) (u : BudgetUsage) (i o c : ℕ) : Type 0 where
  pub rounds : u.proven_rounds < b.maximum_proven_rounds
  pub responses : u.model_responses < b.maximum_model_responses
  pub total_input : u.cumulative_input_tokens + i ≤ b.maximum_cumulative_input_tokens
  pub total_output : u.cumulative_output_tokens + o ≤ b.maximum_cumulative_output_tokens
  pub input : i ≤ b.maximum_input_tokens_per_response
  pub output : o ≤ b.maximum_output_tokens_per_response
  pub cost : u.cumulative_calculated_cost_usd + c ≤ b.maximum_calculated_cost_usd

-- `budget_exhaustion_reason` gives no reason exactly when every limit of the session still holds after
-- one more response of the projected size.
pub budget_exhaustion_reason-eq-none :
    (b : SessionBudgets) (u : BudgetUsage) (i o c : ℕ)
    → (budget_exhaustion_reason b u i o c ≡ none) ↔ Fits b u i o c
unfolding budget_exhaustion_reason
budget_exhaustion_reason-eq-none b u i o c = ground arith
