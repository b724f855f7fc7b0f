-- ===== src/Research/Gate/Spent.antt =====
-- What recorded calls make of a controller's spent cost.
use cuda_fractal_engine_stat.Prelude.{
  ℕ, ◌+◌, ◌≤◌, false, ◌≡◌, refl, ◌⊎◌, inl, inr, Bool-cases, none, List, [], ◌∷◌, arith, ltb,
}
use cuda_fractal_engine_stat.Research.Gate.{Controller, record_actual_cost}

-- The controller after a call of this cost, where the budget covers it.
unfoldable pub charged : Controller → ℕ → Controller
charged c cost = record c { spent_cost_usd = c.spent_cost_usd + cost }

pub record_actual_cost-charged :
    (c : Controller) (cost : ℕ)
    → c.spent_cost_usd + cost ≤ c.hard_budget_usd
    → record_actual_cost c cost ≡ (charged c cost, none)
unfolding record_actual_cost charged
record_actual_cost-charged c cost h =
    let within : ltb c.hard_budget_usd (c.spent_cost_usd + cost) ≡ false = ground arith in
    rw within refl

-- Recording either leaves the controller as it was, or charges a cost that the budget covers.
recorded_cases :
    (c : Controller) (x : ℕ)
    → ((record_actual_cost c x).0 ≡ c)
      ⊎ (((record_actual_cost c x).0 ≡ charged c x) × (c.spent_cost_usd + x ≤ c.hard_budget_usd))
unfolding record_actual_cost
recorded_cases c x = elim (Bool-cases (ltb c.hard_budget_usd (c.spent_cost_usd + x))) [
  | inl over ↦ inl (rw over refl)
  | inr fits ↦ inr (rw fits (unfold charged in refl), ground arith)
]

-- `record_actual_cost` for a list of calls, in order; a refused one leaves the controller as it was.
pub record_all : Controller → List ℕ → Controller
record_all c [] = c
record_all c (x ∷ xs) = record_all (record_actual_cost c x).0 xs

-- Where the controller starts within its hard budget, whatever calls are recorded, refused ones
-- included, the spent cost stays within the budget and does not fall, and the budget is unchanged.
pub record_all-within :
    (c : Controller) (costs : List ℕ)
    → c.spent_cost_usd ≤ c.hard_budget_usd
    → ((record_all c costs).spent_cost_usd ≤ c.hard_budget_usd)
      × (c.spent_cost_usd ≤ (record_all c costs).spent_cost_usd)
      × ((record_all c costs).hard_budget_usd ≡ c.hard_budget_usd)
unfolding record_all charged
record_all-within c [] h = (h, omega arith, refl)
record_all-within c (x ∷ xs) h = elim (recorded_cases c x) [
  | inl refused ↦ rw (record_all, refused) (record_all-within c xs h)
  | inr (done, fits) ↦
      let (low, rises, kept) = record_all-within (charged c x) xs fits in
      rw (record_all, done) (low, omega (arith, rises), kept)
]
