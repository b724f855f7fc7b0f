-- ===== src/Pricing/Cost/Bound.antt =====
-- The estimate bounds what a call is charged.
use native.Mathlib.Nat.{
  mul-le-mul_left, mul-le-mul_right, mul-le-mul, add-le-add, le_trans, div-mul-le_self,
  le-div_iff_mul-le,
}
use cuda_fractal_engine_stat.Prelude.{
  ℕ, ◌+◌, ◌-◌, ◌*◌, ◌/◌, ◌≤◌, ◌<◌, true, ◌≡◌, String, arith, ltb, leb, Bool-cases, inl, inr, ap,
  sym,
}
use cuda_fractal_engine_stat.Pricing.Policy.{
  TokenRates, ModelPricing, PricingPolicy, ok, model, ok-injective,
}
use cuda_fractal_engine_stat.Pricing.Cost.{
  CachePolicy, explicit_no_cache, implicit, CallCost, tier_of, rates_of, input_rate, maximum_cost,
  used_cost, maximum_call, estimate_maximum_call_cost, calculate_usage_cost,
}

pub div_mono : (u : ℕ) {a b : ℕ} → 0 < u → a ≤ b → a / u ≤ b / u
div_mono u {a} {b} pos h = (le-div_iff_mul-le pos).1 (le_trans (div-mul-le_self a u) h)

-- The cache use of a response that the transport returns: with explicit_no_cache it raises at any, in
-- `send_turn` of src/cuda_fractal_state_tool/openai_transport.py.
abbrev pub IsReturned : CachePolicy → ℕ → ℕ → Type 0
IsReturned explicit_no_cache cached writes = (cached ≡ 0) × (writes ≡ 0)
IsReturned implicit cached writes = Unit

split_cost : (r a b c x y z : ℕ) → a ≤ r → b ≤ r → c ≤ r → x * a + y * b + z * c ≤ (x + y + z) * r
split_cost r a b c x y z p q s =
    omega (arith, mul-le-mul_left x p, mul-le-mul_left y q, mul-le-mul_left z s)

used-le-maximum :
    (policy : PricingPolicy) (rates : TokenRates) (cache : CachePolicy)
    (n cached writes o limit : ℕ)
    → 0 < policy.tokens_per_rate_unit
    → IsReturned cache cached writes
    → cached + writes ≤ n
    → o ≤ limit
    → used_cost policy rates (n - cached - writes) cached writes o
      ≤ maximum_cost policy rates cache n limit
unfolding used_cost maximum_cost input_rate
used-le-maximum policy rates explicit_no_cache n cached writes o limit pos (none, unwritten) fits
      le =
    let less : n - 0 - 0 ≤ n = omega arith in
    rw (none, unwritten)
      (div_mono policy.tokens_per_rate_unit pos (
        add-le-add (omega (arith, mul-le-mul_right rates.input less))
          (mul-le-mul_right rates.output le)))
used-le-maximum policy rates implicit n cached writes o limit pos c fits le =
    let r = input_rate implicit rates in
    let x = n - cached - writes in
    let whole : x + cached + writes ≡ n = omega arith in
    let inputs =
      split_cost r rates.input rates.cached_input rates.cache_write x cached writes (omega arith)
        (omega arith) (omega arith) in
    div_mono policy.tokens_per_rate_unit pos
      (add-le-add (rw whole at inputs) (mul-le-mul_right rates.output le))

-- The long-context rates are at least the short-context ones.
pub record RatesRise (m : ModelPricing) : Type 0 where
  pub input : m.short_context.input ≤ m.long_context.input
  pub cached : m.short_context.cached_input ≤ m.long_context.cached_input
  pub written : m.short_context.cache_write ≤ m.long_context.cache_write
  pub output : m.short_context.output ≤ m.long_context.output

input_rate_rises :
    (m : ModelPricing) (cache : CachePolicy)
    → RatesRise m
    → input_rate cache m.short_context ≤ input_rate cache m.long_context
unfolding input_rate
input_rate_rises m explicit_no_cache r = r.input
input_rate_rises m implicit r = omega arith

maximum_cost_mono :
    (policy : PricingPolicy) (a b : TokenRates) (cache : CachePolicy) (n n' o o' : ℕ)
    → 0 < policy.tokens_per_rate_unit
    → input_rate cache a ≤ input_rate cache b
    → a.output ≤ b.output
    → n ≤ n'
    → o ≤ o'
    → maximum_cost policy a cache n o ≤ maximum_cost policy b cache n' o'
unfolding maximum_cost
maximum_cost_mono policy a b cache n n' o o' pos i out hn ho =
    div_mono policy.tokens_per_rate_unit pos (add-le-add (mul-le-mul hn i) (mul-le-mul ho out))

pub tier_mono :
    (policy : PricingPolicy) (m : ModelPricing) (cache : CachePolicy) (n n' o o' : ℕ)
    → 0 < policy.tokens_per_rate_unit
    → RatesRise m
    → n ≤ n'
    → o ≤ o'
    → maximum_cost policy (rates_of m (tier_of policy n)) cache n o
      ≤ maximum_cost policy (rates_of m (tier_of policy n')) cache n' o'
unfolding tier_of rates_of
tier_mono policy m cache n n' o o' pos r hn ho =
    elim (Bool-cases (leb policy.long_context_threshold_tokens n)) [
      | inl long_now ↦
          let long_then : leb policy.long_context_threshold_tokens n' ≡ true = ground arith in
          rw (long_now, long_then)
            (maximum_cost_mono policy m.long_context m.long_context cache n n' o o' pos
              (omega arith) (omega arith) hn ho)
      | inr short_now ↦ elim (Bool-cases (leb policy.long_context_threshold_tokens n')) [
        | inl long_then ↦
            rw (short_now, long_then)
              (maximum_cost_mono policy m.short_context m.long_context cache n n' o o' pos
                (input_rate_rises m cache r) r.output hn ho)
        | inr short_then ↦
            rw (short_now, short_then)
              (maximum_cost_mono policy m.short_context m.short_context cache n n' o o' pos
                (omega arith) (omega arith) hn ho)
      ]
    ]

usage_cost :
    (policy : PricingPolicy) (name : String) (m : ModelPricing) (n cached writes o : ℕ)
    (u : CallCost)
    → model policy name ≡ ok m
    → calculate_usage_cost policy name n cached writes o ≡ ok u
    → (cached + writes ≤ n)
      × (u.cost_usd
          ≡ used_cost policy (rates_of m (tier_of policy n)) (n - cached - writes) cached writes o)
unfolding calculate_usage_cost
usage_cost policy name m n cached writes o u named h = elim (Bool-cases (ltb n (cached + writes))) [
  | inl over ↦ absurd (cc (rw over at h))
  | inr within ↦ (ground arith, sym (ap (λ c. c.cost_usd) (ok-injective (rw (within, named) at h))))
]

pub estimate_cost :
    (policy : PricingPolicy) (name : String) (m : ModelPricing) (n o : ℕ) (cache : CachePolicy)
    (e : CallCost)
    → model policy name ≡ ok m
    → estimate_maximum_call_cost policy name n o cache ≡ ok e
    → e.cost_usd ≡ maximum_cost policy (rates_of m (tier_of policy n)) cache n o
unfolding estimate_maximum_call_cost maximum_call
estimate_cost policy name m n o cache e named h =
    sym (ap (λ c. c.cost_usd) (ok-injective (rw named at h)))

-- Where the rate unit is positive and long-context rates are not below short-context ones, the
-- estimate at some token limits is at least what is charged for any call of the model within them:
-- under the implicit cache policy whatever part of its input was cached or written, and under
-- explicit_no_cache for a call without cache use, the only one that the transport returns under it.
pub usage-le-estimate :
    (policy : PricingPolicy) (name : String) (m : ModelPricing) (cache : CachePolicy)
    (n cached writes o maximum_input maximum_output : ℕ) (u e : CallCost)
    → 0 < policy.tokens_per_rate_unit
    → RatesRise m
    → IsReturned cache cached writes
    → model policy name ≡ ok m
    → n ≤ maximum_input
    → o ≤ maximum_output
    → calculate_usage_cost policy name n cached writes o ≡ ok u
    → estimate_maximum_call_cost policy name maximum_input maximum_output cache ≡ ok e
    → u.cost_usd ≤ e.cost_usd
usage-le-estimate policy name m cache n cached writes o maximum_input maximum_output u e pos r c
      named hn ho used h =
    let (fits, charged) = usage_cost policy name m n cached writes o u named used in
    let bounded =
      used-le-maximum policy (rates_of m (tier_of policy n)) cache n cached writes o o pos c fits
        (omega arith) in
    let rises = tier_mono policy m cache n maximum_input o maximum_output pos r hn ho in
    rw (charged, estimate_cost policy name m maximum_input maximum_output cache e named h)
      (le_trans bounded rises)
