-- ===== src/Research/Gate/Reserve.antt =====
-- An authorised dispatch keeps the stages that must follow it affordable.
use cuda_fractal_engine_stat.Prelude.{ℕ, ◌+◌, ◌<◌, Bool, true, ◌≡◌, List, [], ◌∷◌}
use cuda_fractal_engine_stat.Pricing.Policy.{ModelPricing, ok, model}
use cuda_fractal_engine_stat.Pricing.Cost.{maximum_cost, rates_of, tier_of}
use cuda_fractal_engine_stat.Pricing.Cost.Bound.{RatesRise}
use cuda_fractal_engine_stat.Research.Gate.{
  Stage, planner, review, correction, synthesis, communication, Controller, when, Flags,
}

-- The dispatches that a dispatch keeps reserves for, with the flags of `ResearchSessionRunner.run`: a
-- correction is dispatched as one that may execute, so that it needs a planner that may. No reserve is
-- kept for a correction of a planner that may not execute, nor for another planner after a review.
pub data Next : Stage → Flags → Stage → Flags → Type 0 where
  to_review :
      (f g : Flags)
      → f.planner_may_execute ≡ true
      → g.alternate_communication_required ≡ f.alternate_communication_required
      → Next planner f review g
  to_correction :
      (f g : Flags)
      → f.correction_available ≡ true
      → f.planner_may_execute ≡ true
      → g.planner_may_execute ≡ true
      → g.alternate_communication_required ≡ f.alternate_communication_required
      → Next planner f correction g
  corrected :
      (f g : Flags)
      → f.planner_may_execute ≡ true
      → g.alternate_communication_required ≡ f.alternate_communication_required
      → Next correction f review g
  corrected_answer :
      (f g : Flags)
      → g.alternate_communication_required ≡ f.alternate_communication_required
      → Next correction f synthesis g
  planned_answer :
      (f g : Flags)
      → g.alternate_communication_required ≡ f.alternate_communication_required
      → Next planner f synthesis g
  to_synthesis :
      (f g : Flags)
      → g.alternate_communication_required ≡ f.alternate_communication_required
      → Next review f synthesis g
  to_communication :
      (f g : Flags) → f.alternate_communication_required ≡ true → Next synthesis f communication g

-- The facts about a run that do not change: a priced model whose rates rise.
pub record IsPriced (c : Controller) (m : ModelPricing) : Type 0 where
  pub named : model c.pricing_policy c.model_profile.model_name ≡ ok m
  pub unit : 0 < c.pricing_policy.tokens_per_rate_unit
  pub rises : RatesRise m

module _ (c : Controller) (m : ModelPricing) where
  -- The cost of a call with this many input tokens and the stage's output limit.
  cost_at : Stage → ℕ → ℕ
  cost_at s n =
      maximum_cost c.pricing_policy (rates_of m (tier_of c.pricing_policy n))
        c.model_profile.prompt_cache_policy n (c.stage_limits s).maximum_output_tokens

  worst : Stage → ℕ
  worst s = cost_at s (c.stage_limits s).maximum_input_tokens

  worst_sum : List Stage → ℕ
  worst_sum [] = 0
  worst_sum (s ∷ rest) = worst s + worst_sum rest

module _ (c : Controller) (m : ModelPricing) where
  worst_of : Bool → Stage → ℕ
  worst_of b s = worst_sum c m (when b s)

  -- What the reserves of a stage come to.
  reserved : Stage → Flags → ℕ
  reserved planner f =
      worst_of f.planner_may_execute review
      + (worst c m synthesis
          + (worst_of f.correction_available correction
              + worst_of f.alternate_communication_required communication))
  reserved correction f =
      worst_of f.planner_may_execute review
      + (worst c m synthesis + worst_of f.alternate_communication_required communication)
  reserved review f =
      worst c m synthesis + worst_of f.alternate_communication_required communication
  reserved synthesis f = worst_of f.alternate_communication_required communication
  reserved communication f = 0
