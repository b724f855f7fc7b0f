-- ===== src/Sweep/Plan.antt =====
-- `parse_scalar_sweep_plan`, from the decoded document on, `_concrete_override` and
-- `ScalarBracketSweepService.validate` of src/cuda_fractal_state_tool/scalar_sweep.py. The packet's
-- state, its authorities and whether its manifest has changed are arguments.
pub mod Bracket
pub mod Concrete
use Prim.Native.Char.{code}
use cuda_fractal_engine_stat.Prelude.{
  ℕ, suc, Bool, true, false, not, ◌||◌, ◌&&◌, Option, none, some, List, [], ◌∷◌, ◌⊎◌, inl, inr,
  String, str_eq, leb, ◌==◌, pos, if◌then◌else◌, contains, length,
}
use cuda_fractal_engine_stat.Override.Error.{Result, ok, err}
use cuda_fractal_engine_stat.Json.Document.{
  Json, int, text, arr, obj, Items, nil, cons, Fields, end, field, lookup, get, set,
}
use cuda_fractal_engine_stat.Json.Equality.{eq}
use cuda_fractal_engine_stat.Json.Paths.{split_dots, walk_leaves}
use cuda_fractal_engine_stat.Override.Validate.{paths_of}
use cuda_fractal_engine_stat.Override.Entry.{is_finite_number}
use cuda_fractal_engine_stat.Override.Draft.Parameters.{has_exactly}
use cuda_fractal_engine_stat.Override.Materialize.{
  PacketOverrideAuthorities, Outcome, written, refused, materialize_state_override,
}
use cuda_fractal_engine_stat.Sweep.Run.{Policy, continue_independent, stop_on_first_failure}

pub data PlanError : Type 0 where
  not_an_object fields_not_exact unsupported_version axis_not_exact axis_not_direct : PlanError
  values_not_a_bracket value_not_finite value_overflows value_repeated unsupported_policy :
      PlanError
  policy_unhashable axis_already_overridden axis_absent value_is_base params_not_an_object :
      PlanError
  preflight_failed authority_changed : PlanError

abbrev pub Checked : Type 0 → Type 0
Checked X = PlanError ⊎ X

infixl 5 ◌>>=◌
-- A refusal ends the parse.
abbrev pub ◌>>=◌ : {X Y : Type 0} → Checked X → (X → Checked Y) → Checked Y
inl refusal >>= next = inl refusal
inr x >>= next = next x

-- An absent value is refused.
abbrev pub present : {X : Type 0} → PlanError → Option X → Checked X
present e none = inl e
present e (some x) = inr x

abbrev pub refuse_if : Bool → PlanError → Checked (Unit {0})
refuse_if true e = inl e
refuse_if false e = inr tt

pub record ParsedPlan : Type 0 where
  pub axis_path : String
  pub axis_name : String
  pub values : List Json
  pub member_failure_policy : Policy

-- `any(token in name for token in "[]")`.
has_bracket : String → Bool
has_bracket String.[] = false
has_bracket (String.◌∷◌ c s) = code c == b'[' || code c == b']' || has_bracket s

-- The parameter's name where the axis is one direct leaf of `params`.
unfoldable pub direct_name : List String → Option String
unfolding has_bracket
direct_name (domain ∷ name ∷ []) =
    if str_eq domain "params" && not (str_eq name "") && not (has_bracket name)
    then some name
    else none
direct_name _ = none

unfoldable pub repeats : Json → List Json → Bool
repeats item [] = false
repeats item (prior ∷ rest) = eq item prior || repeats item rest

-- One value against the ones before it.
unfoldable pub check_value : Json → List Json → Result Bool → PlanError ⊎ Json
check_value item checked (err e) = inl value_overflows
check_value item checked (ok false) = inl value_not_finite
check_value item checked (ok true) = if repeats item checked then inl value_repeated else inr item

-- The loop over the values; `checked` holds the earlier ones, the last first.
unfoldable pub check_sweep_values : Items → List Json → Checked (List Json)
check_sweep_values nil checked = inr []
check_sweep_values (cons item rest) checked = do
  v ← check_value item checked (is_finite_number item)
  vs ← check_sweep_values rest (item ∷ checked)
  inr (v ∷ vs)

count_values : Items → ℕ
count_values nil = 0
count_values (cons x xs) = suc (count_values xs)

-- `isinstance(values, list) and 3 <= len(values) <= 9`.
unfoldable pub bracket_of : Option Json → Option Items
unfolding count_values
bracket_of (some (arr xs)) =
    if leb 3 (count_values xs) && leb (count_values xs) 9 then some xs else none
bracket_of _ = none

-- A list or an object is not hashable.
unfoldable pub policy_of : Option Json → Checked Policy
policy_of (some (text s)) =
    if str_eq s "continue_independent"
    then inr continue_independent
    else if str_eq s "stop_on_first_failure"
    then inr stop_on_first_failure
    else inl unsupported_policy
policy_of (some (arr _)) = inl policy_unhashable
policy_of (some (obj _)) = inl policy_unhashable
policy_of _ = inl unsupported_policy

axis_fields : Option Json → Option Fields
axis_fields (some (obj axis)) =
    if has_exactly axis ("path" ∷ "values" ∷ []) then some axis else none
axis_fields _ = none

with_path : String → Option String → Option (String × String)
with_path path none = none
with_path path (some name) = some (path, name)

path_of : Option Json → Option (String × String)
unfolding with_path
path_of (some (text path)) = with_path path (direct_name (split_dots path))
path_of _ = none

unfoldable pub parse_fields : Fields → Checked ParsedPlan
unfolding axis_fields path_of
parse_fields fs = do
  _ ← refuse_if (not (eq (get "sweep_version" fs) (int (pos 1)))) unsupported_version
  axis ← present axis_not_exact (axis_fields (lookup "axis" fs))
  (path, name) ← present axis_not_direct (path_of (lookup "path" axis))
  items ← present values_not_a_bracket (bracket_of (lookup "values" axis))
  values ← check_sweep_values items []
  policy ← policy_of (lookup "member_failure_policy" fs)
  inr (record {
    axis_path = path;
    axis_name = name;
    values = values;
    member_failure_policy = policy;
  })

unfoldable pub parse_scalar_sweep_plan : Json → Checked ParsedPlan
parse_scalar_sweep_plan (obj fs) =
    if has_exactly fs ("sweep_version" ∷ "axis" ∷ "member_failure_policy" ∷ [])
    then parse_fields fs
    else inl fields_not_exact
parse_scalar_sweep_plan _ = inl not_an_object

-- `document.setdefault("params", {})`, which has to be an object, with the axis assigned.
assign_axis : Fields → String → Json → Option Json → Option Fields
assign_axis document name value none = some (set "params" (obj (field name value end)) document)
assign_axis document name value (some (obj params)) =
    some (set "params" (obj (set name value params)) document)
assign_axis document name value (some _) = none

unfoldable pub concrete_override : Fields → String → Json → Option Fields
unfolding assign_axis
concrete_override document name value = assign_axis document name value (lookup "params" document)

unfoldable pub concrete_overrides : Fields → String → List Json → Option (List Fields)
concrete_overrides document name [] = some []
concrete_overrides document name (v ∷ rest) = elim (concrete_override document name v) [
  | none ↦ none
  | some d ↦ elim (concrete_overrides document name rest) [ none ↦ none | some ds ↦ some (d ∷ ds) ]
]

-- A preflight materialisation that returns.
unfoldable pub materializes : Outcome → Bool
materializes (refused e) = false
materializes (written c (ok report)) = true
materializes (written c (err e)) = false

unfoldable pub all_materialize : PacketOverrideAuthorities → List Fields → Bool
all_materialize authorities [] = true
all_materialize authorities (d ∷ rest) =
    materializes (materialize_state_override authorities false (obj d))
    && all_materialize authorities rest

-- The base value of the axis.
unfoldable pub base_value : Fields → String → Option Json
base_value state name = elim (lookup "params" state) [
  | some (obj params) ↦ lookup name params
  | _ ↦ none
]

unfoldable pub repeats_base : Json → List Json → Bool
repeats_base base [] = false
repeats_base base (value ∷ rest) = eq value base || repeats_base base rest

-- The checks of a parsed plan and a parsed fixed override, with the overrides of the members.
unfoldable pub validate_sweep :
    ParsedPlan → Fields → PacketOverrideAuthorities → Bool → Checked (List Fields)
validate_sweep plan fixed authorities manifest_changed = do
  _ ←
      refuse_if (contains (paths_of (walk_leaves (obj fixed) "")) plan.axis_path)
        axis_already_overridden
  base ← present axis_absent (base_value authorities.state plan.axis_name)
  _ ← refuse_if (repeats_base base plan.values) value_is_base
  concrete ← present params_not_an_object (concrete_overrides fixed plan.axis_name plan.values)
  _ ← refuse_if (not (all_materialize authorities (fixed ∷ concrete))) preflight_failed
  _ ← refuse_if manifest_changed authority_changed
  inr concrete
