-- ===== src/Protocol/Tests.antt =====
-- The protocol's theorems at concrete sessions.
use cuda_fractal_engine_stat.Prelude.{◌≡◌, ◌↔◌, refl, true, none, some, List, [], ◌∷◌, arith}
use cuda_fractal_engine_stat.Protocol.Budget.{
  SessionBudgets, BudgetUsage, budget_exhaustion_reason, Fits, budget_exhaustion_reason-eq-none,
}
use cuda_fractal_engine_stat.Protocol.Transition.{
  ProtocolState, observe, explore, select_experiment, lock_prediction, request_override,
  validate_override, prove_candidate, allowed_transition, validate_protocol_transition, follow,
  visited, follow_in_order,
}

abbrev budgets : SessionBudgets
budgets = record {
  maximum_proven_rounds = 3;
  maximum_model_responses = 12;
  maximum_cumulative_input_tokens = 500000;
  maximum_cumulative_output_tokens = 60000;
  maximum_input_tokens_per_response = 100000;
  maximum_output_tokens_per_response = 8000;
  maximum_review_output_tokens_per_response = 8000;
  maximum_correction_output_tokens_per_response = 4000;
  maximum_calculated_cost_usd = 5000000;
}

abbrev usage : BudgetUsage
usage = record {
  proven_rounds = 1;
  model_responses = 4;
  cumulative_input_tokens = 420000;
  cumulative_cached_input_tokens = 0;
  cumulative_output_tokens = 20000;
  cumulative_cache_write_tokens = 0;
  cumulative_calculated_cost_usd = 900000;
}

budget_exhaustion_reason-eq-none_example :
    (budget_exhaustion_reason budgets usage 80000 8000 100000 ≡ none)
    ↔ Fits budgets usage 80000 8000 100000
budget_exhaustion_reason-eq-none_example =
    budget_exhaustion_reason-eq-none budgets usage 80000 8000 100000

-- A session that has its first override refused, and proves the second.
abbrev steps : List ProtocolState
steps =
    explore ∷ select_experiment ∷ lock_prediction ∷ request_override ∷ validate_override
    ∷ request_override ∷ validate_override ∷ prove_candidate ∷ []

session : follow observe steps ≡ some prove_candidate
unfolding follow validate_protocol_transition allowed_transition
session = refl

follow_in_order_example : visited lock_prediction (observe ∷ steps) ≡ true
follow_in_order_example =
    follow_in_order steps prove_candidate lock_prediction session (omega arith)
