-- ===== src/Pricing/Policy.antt =====
-- The tracked prices and `PricingPolicy.model`, of src/cuda_fractal_state_tool/pricing_policy.py.
-- A `Decimal` amount is counted in a quantum of 10 ^ -12 dollars, in which the tracked rates, the
-- budgets and the costs of a policy with a million tokens to its rate unit are whole.
pub mod Selection
use Prim.Native.String.{◌++◌ as append, count}
use text.Mathlib.Text.{starts_with}
use cuda_fractal_engine_stat.Prelude.{
  ◌≡◌, refl, ℕ, zero, Bool, true, false, ◌&&◌, ◌||◌, not, Option, none, some, List, [], ◌∷◌, ◌++◌,
  String, str_eq, ◌==◌, max, if◌then◌else◌,
}

pub record TokenRates : Type 0 where
  pub input : ℕ
  pub cached_input : ℕ
  pub cache_write : ℕ
  pub output : ℕ

pub record ModelPricing : Type 0 where
  pub pricing_model : String
  pub aliases : List String
  pub short_context : TokenRates
  pub long_context : TokenRates

pub record PricingPolicy : Type 0 where
  pub tokens_per_rate_unit : ℕ
  pub long_context_threshold_tokens : ℕ
  pub service_tier : String
  pub models : List ModelPricing

pub data PricingError : Type 0 where
  no_model_identity no_model_match ambiguous_model_match : PricingError
  unsupported_cache_policy cache_use_exceeds_input : PricingError
  stage_ceiling_exceeded budget_exceeded invalid_profile invalid_attempts invalid_stage_limit :
      PricingError

pub data Result {ℓ} (A : Type ℓ) : Type ℓ where
  ok : A → Result A
  err : PricingError → Result A

infixl 5 ◌>>=◌
-- The first error of a chain stands for its exception.
abbrev pub ◌>>=◌ {ℓ κ} : {X : Type ℓ} {Y : Type κ} → Result X → (X → Result Y) → Result Y
err raised >>= next = err raised
ok x >>= next = next x

pub ok-injective {ℓ} : {A : Type ℓ} {a b : A} → ok a ≡ ok b → a ≡ b
ok-injective h = cc h

-- A bind that succeeds: its first part succeeded, and so did the rest.
pub bind_ok {ℓ κ} :
    {X : Type ℓ} {Y : Type κ} (first : Result X) (next : X → Result Y) {y : Y}
    → (first >>= next) ≡ ok y
    → (x : X) × (first ≡ ok x) × (next x ≡ ok y)
bind_ok (err raised) next h = cc
bind_ok (ok x) next h = (x, refl, h)

-- `model_name == alias or model_name.startswith(alias + "-")`.
unfoldable pub alias_matches : String → String → Bool
alias_matches model_name alias =
    str_eq model_name alias || starts_with model_name (append alias "-")

abbrev pub Matches : Type 0
Matches = List (ℕ × ModelPricing)

pub alias_match_list : String → ModelPricing → List String → Matches
alias_match_list model_name model [] = []
alias_match_list model_name model (alias ∷ rest) =
    let others = alias_match_list model_name model rest in
    if alias_matches model_name alias then (count alias, model) ∷ others else others

-- The double loop over the models and their aliases.
unfoldable pub matches : String → List ModelPricing → Matches
unfolding alias_match_list
matches model_name [] = []
matches model_name (model ∷ rest) =
    alias_match_list model_name model model.aliases ++ matches model_name rest

unfoldable pub longest : Matches → ℕ
longest [] = 0
longest ((n, _) ∷ rest) = max n (longest rest)

-- The models that match with an alias of this length, in order.
unfoldable pub owners : ℕ → Matches → List ModelPricing
owners n [] = []
owners n ((m, model) ∷ rest) =
    let others = owners n rest in if m == n then model ∷ others else others

-- Whether all of them are keyed by one name, so that the dictionary of owners has one entry.
pub all_named : String → List ModelPricing → Bool
all_named name [] = true
all_named name (model ∷ rest) = str_eq model.pricing_model name && all_named name rest

-- The dictionary keeps the last value under a key.
pub last_of : ModelPricing → List ModelPricing → ModelPricing
last_of model [] = model
last_of model (next ∷ rest) = last_of next rest

unfoldable pub single_owner : List ModelPricing → Result ModelPricing
unfolding all_named last_of
single_owner [] = err no_model_match
single_owner (model ∷ rest) =
    if all_named model.pricing_model rest
    then ok (last_of model rest)
    else err ambiguous_model_match

unfoldable pub model : PricingPolicy → String → Result ModelPricing
model policy model_name =
    if str_eq model_name ""
    then err no_model_identity
    else let found = matches model_name policy.models in single_owner (owners (longest found) found)
