-- ===== src/Sweep/PlanTests.antt =====
-- The theorems on sweep plans at a plan of three values.
use cuda_fractal_engine_stat.Prelude.{ℕ, some, inr, [], ◌∷◌, ◌≡◌, refl, pos}
use cuda_fractal_engine_stat.Json.Document.{
  Json, int, text, arr, obj, nil, cons, Fields, end, field, lookup, get, set, keys,
}
use cuda_fractal_engine_stat.Json.Equality.{eq, eq_number, number}
use cuda_fractal_engine_stat.Json.Paths.{split_dots}
use cuda_fractal_engine_stat.Override.Entry.{is_finite_number}
use cuda_fractal_engine_stat.Override.Draft.Parameters.{has_exactly}
use cuda_fractal_engine_stat.Sweep.Run.{continue_independent}
use cuda_fractal_engine_stat.Sweep.Plan.{
  ParsedPlan, parse_scalar_sweep_plan, parse_fields, check_sweep_values, check_value, repeats,
  bracket_of, policy_of, direct_name, concrete_override,
}
use cuda_fractal_engine_stat.Sweep.Plan.Bracket.{IsBracket, parse_scalar_sweep_plan-IsBracket}
use cuda_fractal_engine_stat.Sweep.Plan.Concrete.{Assigns, concrete_override-Assigns}

abbrev value : ℕ → Json
value n = int (pos n)

abbrev document : Json
document = obj (
    field "sweep_version" (value 1) (
      field "axis"
        (obj (
          field "path" (text "params.power")
            (field "values" (arr (cons (value 2) (cons (value 3) (cons (value 5) nil)))) end)))
        (field "member_failure_policy" (text "continue_independent") end)))

abbrev plan : ParsedPlan
plan = record {
  axis_path = "params.power";
  axis_name = "power";
  values = value 2 ∷ value 3 ∷ value 5 ∷ [];
  member_failure_policy = continue_independent;
}

document_parses : parse_scalar_sweep_plan document ≡ inr plan
unfolding parse_scalar_sweep_plan parse_fields check_sweep_values check_value repeats bracket_of
    policy_of direct_name split_dots lookup get keys has_exactly is_finite_number eq eq_number
    number
document_parses = refl

parse_scalar_sweep_plan-IsBracket_example : IsBracket plan
parse_scalar_sweep_plan-IsBracket_example =
    parse_scalar_sweep_plan-IsBracket document plan document_parses

abbrev fixed : Fields
fixed = field "params" (obj (field "iterations" (value 200) end)) end

abbrev concrete : Fields
concrete = field "params" (obj (field "iterations" (value 200) (field "power" (value 3) end))) end

power_assigned : concrete_override fixed "power" (value 3) ≡ some concrete
unfolding concrete_override lookup set
power_assigned = refl

concrete_override-Assigns_example : Assigns fixed "power" (value 3) concrete
concrete_override-Assigns_example =
    concrete_override-Assigns fixed "power" (value 3) concrete power_assigned
