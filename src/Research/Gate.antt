-- ===== src/Research/Gate.antt =====
-- `ResearchCostController` of src/cuda_fractal_state_tool/research_cost.py. Amounts are counted as in
-- the pricing module. A controller's limits are a function of the stage, so they cover every stage.
pub mod Spent
pub mod Reserve
use cuda_fractal_engine_stat.Prelude.{
  ℕ, zero, suc, ◌+◌, Bool, true, false, ◌&&◌, ◌||◌, Option, none, some, List, [], ◌∷◌, ◌++◌, String,
  str_eq, leb, ltb, ◌==◌, if◌then◌else◌,
}
use cuda_fractal_engine_stat.Pricing.Policy.{
  PricingPolicy, PricingError, Result, ok, err, ◌>>=◌, stage_ceiling_exceeded, budget_exceeded,
  invalid_profile, invalid_attempts, invalid_stage_limit, model,
}
use cuda_fractal_engine_stat.Pricing.Cost.{
  CachePolicy, explicit_no_cache, implicit, CallCost, estimate_maximum_call_cost,
}

pub data Stage : Type 0 where
  planner review correction synthesis communication : Stage

pub record StageLimit : Type 0 where
  pub maximum_input_tokens : ℕ
  pub maximum_output_tokens : ℕ

abbrev pub default_limits : Stage → StageLimit
default_limits planner = record { maximum_input_tokens = 200000; maximum_output_tokens = 8000 }
default_limits review = record { maximum_input_tokens = 200000; maximum_output_tokens = 8000 }
default_limits correction = record { maximum_input_tokens = 200000; maximum_output_tokens = 4000 }
default_limits synthesis = record { maximum_input_tokens = 100000; maximum_output_tokens = 12000 }
default_limits communication = record { maximum_input_tokens = 50000; maximum_output_tokens = 6000 }

-- `ModelProfileV1`, and its `validate`.
pub record ModelProfile : Type 0 where
  pub model_name : String
  pub reasoning_effort : String
  pub pricing_tier : String
  pub prompt_cache_policy : CachePolicy

abbrev is_explicit : CachePolicy → Bool
is_explicit explicit_no_cache = true
is_explicit implicit = false

require : Bool → PricingError → Result (Unit {0})
require true e = ok tt
require false e = err e

unfoldable pub validate_profile : ModelProfile → PricingPolicy → Result (Unit {0})
unfolding require
validate_profile profile policy = do
  _ ← model policy profile.model_name
  _ ←
      require (str_eq profile.reasoning_effort "medium" || str_eq profile.reasoning_effort "high")
        invalid_profile
  _ ←
      require
        (str_eq profile.pricing_tier policy.service_tier && str_eq profile.pricing_tier "standard")
        invalid_profile
  require (is_explicit profile.prompt_cache_policy) invalid_profile

pub record Controller : Type 0 where
  pub pricing_policy : PricingPolicy
  pub model_profile : ModelProfile
  pub hard_budget_usd : ℕ
  pub stage_limits : Stage → StageLimit
  pub spent_cost_usd : ℕ

abbrev positive_limit : StageLimit → Bool
positive_limit l = leb 1 l.maximum_input_tokens && leb 1 l.maximum_output_tokens

unfoldable pub init : PricingPolicy → ModelProfile → ℕ → (Stage → StageLimit) → Result Controller
unfolding validate_profile
init policy profile budget limits = do
  _ ← validate_profile profile policy
  _ ←
      require
        (positive_limit (limits planner)
          && positive_limit (limits review)
          && positive_limit (limits correction)
          && positive_limit (limits synthesis)
          && positive_limit (limits communication))
        invalid_stage_limit
  ok (record {
    pricing_policy = policy;
    model_profile = profile;
    hard_budget_usd = budget;
    stage_limits = limits;
    spent_cost_usd = 0;
  })

-- `estimate_maximum_call_cost` for a stage's output limit.
unfoldable pub call_of : Controller → Stage → ℕ → Result CallCost
call_of c stage n =
    estimate_maximum_call_cost c.pricing_policy c.model_profile.model_name n
      (c.stage_limits stage).maximum_output_tokens c.model_profile.prompt_cache_policy

-- `_maximum`.
unfoldable pub maximum : Controller → Stage → Result CallCost
unfolding call_of
maximum c stage = call_of c stage (c.stage_limits stage).maximum_input_tokens

unfoldable pub exact_next_call : Controller → Stage → ℕ → Result CallCost
unfolding call_of
exact_next_call c stage exact_input_tokens =
    if ltb (c.stage_limits stage).maximum_input_tokens exact_input_tokens
    then err stage_ceiling_exceeded
    else call_of c stage exact_input_tokens

-- `sum((self._maximum(stage).cost_usd for stage in stages), Decimal("0"))`.
unfoldable pub sum_maximum : Controller → List Stage → ℕ → Result ℕ
sum_maximum c [] total = ok total
sum_maximum c (s ∷ rest) total = do call ← maximum c s; sum_maximum c rest (total + call.cost_usd)

repeat_attempts : ℕ → List Stage
repeat_attempts zero = []
repeat_attempts (suc n) = planner ∷ review ∷ repeat_attempts n

abbrev pub when : Bool → Stage → List Stage
when true s = s ∷ []
when false s = []

unfoldable pub conservative_adaptive_ceiling : Controller → ℕ → Bool → Bool → Result ℕ
unfolding repeat_attempts
conservative_adaptive_ceiling c attempts_remaining correction_available alternate =
    if ltb 2 attempts_remaining
    then err invalid_attempts
    else sum_maximum c
        (repeat_attempts attempts_remaining
          ++ (when correction_available correction ++ (synthesis ∷ when alternate communication)))
        0

pub record Flags : Type 0 where
  pub planner_may_execute : Bool
  pub correction_available : Bool
  pub alternate_communication_required : Bool

-- What must stay affordable after a call of the stage.
unfoldable pub reserves : Stage → Flags → List Stage
reserves planner f =
    when f.planner_may_execute review
    ++ (synthesis
        ∷ (when f.correction_available correction
            ++ when f.alternate_communication_required communication))
reserves correction f =
    when f.planner_may_execute review
    ++ (synthesis ∷ when f.alternate_communication_required communication)
reserves review f = synthesis ∷ when f.alternate_communication_required communication
reserves synthesis f = when f.alternate_communication_required communication
reserves communication f = []

pub record Decision : Type 0 where
  pub stage : Stage
  pub exact_input_tokens : ℕ
  pub current_call : CallCost
  pub reserved_stages : List Stage
  pub reserved_cost_usd : ℕ
  pub spent_cost_usd : ℕ
  pub hard_budget_usd : ℕ
  pub authorized : Bool

-- `required <= hard - spent`, with the subtraction moved to the other side.
unfoldable pub decision : Controller → Stage → ℕ → Flags → CallCost → ℕ → Decision
decision c stage n f current reserve_cost = record {
  stage = stage;
  exact_input_tokens = n;
  current_call = current;
  reserved_stages = reserves stage f;
  reserved_cost_usd = reserve_cost;
  spent_cost_usd = c.spent_cost_usd;
  hard_budget_usd = c.hard_budget_usd;
  authorized = leb (current.cost_usd + reserve_cost + c.spent_cost_usd) c.hard_budget_usd;
}

unfoldable pub authorize_dispatch : Controller → Stage → ℕ → Flags → Result Decision
unfolding decision
authorize_dispatch c stage n f = do
  current ← exact_next_call c stage n
  reserve_cost ← sum_maximum c (reserves stage f) 0
  ok (decision c stage n f current reserve_cost)

-- The new controller; on an overrun the exception leaves it as it was.
unfoldable pub record_actual_cost : Controller → ℕ → Controller × Option PricingError
record_actual_cost c cost =
    if ltb c.hard_budget_usd (c.spent_cost_usd + cost)
    then (c, some budget_exceeded)
    else (record c { spent_cost_usd = c.spent_cost_usd + cost }, none)

unfoldable pub required_available_cost_usd : Decision → ℕ
required_available_cost_usd d = d.current_call.cost_usd + d.reserved_cost_usd
