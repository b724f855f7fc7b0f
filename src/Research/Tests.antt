-- ===== src/Research/Tests.antt =====
-- The dollar gate's theorems at a run with one model.
use cuda_fractal_engine_stat.Prelude.{◌≡◌, ◌≤◌, true, false, [], ◌∷◌, arith}
use cuda_fractal_engine_stat.Pricing.Policy.{TokenRates, ModelPricing}
use cuda_fractal_engine_stat.Pricing.Cost.{explicit_no_cache, maximum_call}
use cuda_fractal_engine_stat.Research.Gate.{
  planner, Controller, default_limits, Flags, Decision, reserves,
}
use cuda_fractal_engine_stat.Research.Gate.Spent.{record_all, record_all-within}

abbrev rates : TokenRates
rates = record { input = 2; cached_input = 1; cache_write = 3; output = 8 }

abbrev luna : ModelPricing
luna = record {
  pricing_model = "luna";
  aliases = "luna" ∷ [];
  short_context = rates;
  long_context = rates;
}

abbrev controller : Controller
controller = record {
  pricing_policy = record {
    tokens_per_rate_unit = 1000;
    long_context_threshold_tokens = 1000;
    service_tier = "standard";
    models = luna ∷ [];
  };
  model_profile = record {
    model_name = "luna";
    reasoning_effort = "medium";
    pricing_tier = "standard";
    prompt_cache_policy = explicit_no_cache;
  };
  hard_budget_usd = 2000;
  stage_limits = default_limits;
  spent_cost_usd = 40;
}

abbrev flags : Flags
flags = record {
  planner_may_execute = true;
  correction_available = false;
  alternate_communication_required = false;
}

abbrev planner_decision : Decision
planner_decision = record {
  stage = planner;
  exact_input_tokens = 500;
  current_call = maximum_call controller.pricing_policy luna 500 8000 explicit_no_cache;
  reserved_stages = reserves planner flags;
  reserved_cost_usd = 760;
  spent_cost_usd = 40;
  hard_budget_usd = 2000;
  authorized = true;
}

record_all-within_example :
    ((record_all controller (100 ∷ 1900 ∷ 200 ∷ [])).spent_cost_usd ≤ 2000)
    × (40 ≤ (record_all controller (100 ∷ 1900 ∷ 200 ∷ [])).spent_cost_usd)
    × ((record_all controller (100 ∷ 1900 ∷ 200 ∷ [])).hard_budget_usd ≡ 2000)
record_all-within_example = record_all-within controller (100 ∷ 1900 ∷ 200 ∷ []) (omega arith)
