-- ===== src/Pricing/Cost.antt =====
-- `estimate_maximum_call_cost` and `calculate_usage_cost` of
-- src/cuda_fractal_state_tool/pricing_policy.py. Token counts that the source refuses when they are
-- negative are natural numbers; the division by the rate unit rounds down to the quantum.
pub mod Bound
use cuda_fractal_engine_stat.Prelude.{
  ℕ, ◌+◌, ◌-◌, ◌*◌, ◌/◌, max, Bool, true, false, String, ltb, leb, if◌then◌else◌,
}
use cuda_fractal_engine_stat.Pricing.Policy.{
  TokenRates, ModelPricing, PricingPolicy, Result, ok, err, ◌>>=◌, cache_use_exceeds_input, model,
}

pub data CachePolicy : Type 0 where
  explicit_no_cache implicit : CachePolicy

pub data ContextTier : Type 0 where
  short long : ContextTier

pub record CallCost : Type 0 where
  pub pricing_model : String
  pub context_tier : ContextTier
  pub input_tokens : ℕ
  pub cached_input_tokens : ℕ
  pub cache_write_tokens : ℕ
  pub ordinary_input_tokens : ℕ
  pub output_tokens : ℕ
  pub cost_usd : ℕ
  pub conservative : Bool

unfoldable pub tier_of : PricingPolicy → ℕ → ContextTier
tier_of policy input_tokens =
    if leb policy.long_context_threshold_tokens input_tokens then long else short

unfoldable pub rates_of : ModelPricing → ContextTier → TokenRates
rates_of m short = m.short_context
rates_of m long = m.long_context

unfoldable pub input_rate : CachePolicy → TokenRates → ℕ
input_rate explicit_no_cache rates = rates.input
input_rate implicit rates = max rates.input (max rates.cached_input rates.cache_write)

-- How a bounded input is booked under each policy: cache writes, and ordinary input.
unfoldable pub booked_writes : CachePolicy → ℕ → ℕ
booked_writes explicit_no_cache n = 0
booked_writes implicit n = n

unfoldable pub booked_ordinary : CachePolicy → ℕ → ℕ
booked_ordinary explicit_no_cache n = n
booked_ordinary implicit n = 0

unfoldable pub maximum_cost : PricingPolicy → TokenRates → CachePolicy → ℕ → ℕ → ℕ
unfolding input_rate
maximum_cost policy rates cache n o =
    (n * input_rate cache rates + o * rates.output) / policy.tokens_per_rate_unit

-- The estimate for a model that has been found.
unfoldable pub maximum_call : PricingPolicy → ModelPricing → ℕ → ℕ → CachePolicy → CallCost
unfolding booked_writes booked_ordinary maximum_cost tier_of rates_of
maximum_call policy m n o cache = record {
  pricing_model = m.pricing_model;
  context_tier = tier_of policy n;
  input_tokens = n;
  cached_input_tokens = 0;
  cache_write_tokens = booked_writes cache n;
  ordinary_input_tokens = booked_ordinary cache n;
  output_tokens = o;
  cost_usd = maximum_cost policy (rates_of m (tier_of policy n)) cache n o;
  conservative = true;
}

unfoldable pub estimate_maximum_call_cost :
    PricingPolicy → String → ℕ → ℕ → CachePolicy → Result CallCost
estimate_maximum_call_cost policy model_name n o cache = do
  m ← model policy model_name
  ok (maximum_call policy m n o cache)

unfoldable pub used_cost : PricingPolicy → TokenRates → ℕ → ℕ → ℕ → ℕ → ℕ
used_cost policy rates ordinary cached writes o =
    (ordinary * rates.input
      + cached * rates.cached_input
      + writes * rates.cache_write
      + o * rates.output)
    / policy.tokens_per_rate_unit

unfoldable pub calculate_usage_cost : PricingPolicy → String → ℕ → ℕ → ℕ → ℕ → Result CallCost
unfolding used_cost tier_of rates_of
calculate_usage_cost policy model_name n cached writes o =
    if ltb n (cached + writes) then err cache_use_exceeds_input else do
      m ← model policy model_name
      let tier = tier_of policy n
      let ordinary = n - cached - writes
      ok (record {
        pricing_model = m.pricing_model;
        context_tier = tier;
        input_tokens = n;
        cached_input_tokens = cached;
        cache_write_tokens = writes;
        ordinary_input_tokens = ordinary;
        output_tokens = o;
        cost_usd = used_cost policy (rates_of m tier) ordinary cached writes o;
        conservative = false;
      })
