-- ===== src/Pricing/Tests.antt =====
-- The pricing theorems at a policy of two models.
use cuda_fractal_engine_stat.Prelude.{◌≡◌, ◌≤◌, ℕ, refl, true, false, [], ◌∷◌, arith}
use cuda_fractal_engine_stat.Pricing.Policy.{
  TokenRates, ModelPricing, PricingPolicy, ok, alias_matches, matches, longest, owners,
  single_owner, model,
}
use cuda_fractal_engine_stat.Pricing.Policy.Selection.{MatchedBy, model-longest}
use cuda_fractal_engine_stat.Pricing.Cost.{
  explicit_no_cache, CallCost, tier_of, rates_of, estimate_maximum_call_cost, calculate_usage_cost,
  maximum_call, maximum_cost, used_cost, short, input_rate, booked_writes, booked_ordinary,
}
use cuda_fractal_engine_stat.Pricing.Cost.Bound.{RatesRise, usage-le-estimate}

abbrev small_rates : TokenRates
small_rates = record { input = 2; cached_input = 1; cache_write = 3; output = 8 }

abbrev large_rates : TokenRates
large_rates = record { input = 4; cached_input = 2; cache_write = 5; output = 12 }

abbrev luna : ModelPricing
luna = record {
  pricing_model = "luna";
  aliases = "luna" ∷ [];
  short_context = small_rates;
  long_context = large_rates;
}

abbrev luna_pro : ModelPricing
luna_pro = record {
  pricing_model = "luna-pro";
  aliases = "luna-pro" ∷ [];
  short_context = small_rates;
  long_context = large_rates;
}

abbrev policy : PricingPolicy
policy = record {
  tokens_per_rate_unit = 10;
  long_context_threshold_tokens = 1000;
  service_tier = "standard";
  models = luna ∷ luna_pro ∷ [];
}

-- Both aliases match the name; the longer one decides.
dated_name : model policy "luna-pro-2026" ≡ ok luna_pro
unfolding model matches longest owners single_owner alias_matches
dated_name = refl

model-longest_example :
    (n : ℕ) × MatchedBy "luna-pro-2026" policy.models n luna_pro
    × ((k : ℕ) (m' : ModelPricing)
        → MatchedBy "luna-pro-2026" policy.models k m'
        → (k ≤ n) × (k ≡ n → m'.pricing_model ≡ "luna-pro"))
model-longest_example = model-longest policy "luna-pro-2026" luna_pro dated_name

-- Prices in micro-dollars for a million tokens.
abbrev sol : ModelPricing
sol = record {
  pricing_model = "gpt-5.6-sol";
  aliases = "gpt-5.6-sol" ∷ "gpt-5.6" ∷ [];
  short_context = record {
    input = 5000000;
    cached_input = 500000;
    cache_write = 6250000;
    output = 30000000;
  };
  long_context = record {
    input = 10000000;
    cached_input = 1000000;
    cache_write = 12500000;
    output = 45000000;
  };
}

abbrev tracked : PricingPolicy
tracked = record {
  tokens_per_rate_unit = 1000000;
  long_context_threshold_tokens = 272000;
  service_tier = "standard";
  models = sol ∷ [];
}

sol_named : model tracked "gpt-5.6-sol" ≡ ok sol
unfolding model matches longest owners single_owner alias_matches
sol_named = refl

abbrev charged : CallCost
charged = record {
  pricing_model = "gpt-5.6-sol";
  context_tier = short;
  input_tokens = 90000;
  cached_input_tokens = 0;
  cache_write_tokens = 0;
  ordinary_input_tokens = 90000;
  output_tokens = 4000;
  cost_usd = 570000;
  conservative = false;
}

usage_charged : calculate_usage_cost tracked "gpt-5.6-sol" 90000 0 0 4000 ≡ ok charged
unfolding calculate_usage_cost used_cost model matches longest owners single_owner alias_matches
    tier_of rates_of
usage_charged = refl

abbrev estimated : CallCost
estimated = record {
  pricing_model = "gpt-5.6-sol";
  context_tier = short;
  input_tokens = 200000;
  cached_input_tokens = 0;
  cache_write_tokens = 0;
  ordinary_input_tokens = 200000;
  output_tokens = 8000;
  cost_usd = 1240000;
  conservative = true;
}

call_estimated :
    estimate_maximum_call_cost tracked "gpt-5.6-sol" 200000 8000 explicit_no_cache ≡ ok estimated
unfolding estimate_maximum_call_cost maximum_call maximum_cost input_rate booked_writes
    booked_ordinary model matches longest owners single_owner alias_matches tier_of rates_of
call_estimated = refl

sol-RatesRise : RatesRise sol
sol-RatesRise = record {
  input = omega arith;
  cached = omega arith;
  written = omega arith;
  output = omega arith;
}

usage-le-estimate_example : 570000 ≤ 1240000
usage-le-estimate_example =
    usage-le-estimate tracked "gpt-5.6-sol" sol explicit_no_cache 90000 0 0 4000 200000 8000 charged
      estimated (omega arith) sol-RatesRise (refl, refl) sol_named (omega arith) (omega arith)
      usage_charged call_estimated
