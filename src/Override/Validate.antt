-- ===== src/Override/Validate.antt =====
-- `_validate_params_and_view` of src/cuda_fractal_state_tool/state_override.py.
pub mod Sound
pub mod Hollow
use cuda_fractal_engine_stat.Prelude.{
  Bool, true, false, not, ◌||◌, ◌&&◌, Option, none, some, List, [], ◌∷◌, ◌++◌, map, String,
  if◌then◌else◌, contains,
}
use cuda_fractal_engine_stat.Override.Error.{
  Result, ok, err, ◌>>=◌, ◌>>◌, require, base_without_domain, surface_without_rules, rule_invalid,
  camera_incomplete, not_authorable, companion_not_finite, companion_disagrees, zoom_not_positive,
  type_error,
}
use cuda_fractal_engine_stat.Json.Document.{
  Json, null, bool, int, float, text, arr, obj, Items, nil, cons, Fields, end, field, lookup,
}
use cuda_fractal_engine_stat.Json.Equality.{Value, exact, number, lt_value}
use cuda_fractal_engine_stat.Json.Paths.{walk_leaves, split_dots, resolve_path}
use cuda_fractal_engine_stat.Override.Merge.{validate_existing_object_shape}
use cuda_fractal_engine_stat.Override.Entry.{
  Index, find_entry, authoring_entries, is_finite_number, validate_value_against_entry,
}

abbrev pub Leaves : Type 0
Leaves = List (String × Json)

abbrev pub paths_of : Leaves → List String
paths_of [] = []
paths_of ((p, _) ∷ rest) = p ∷ paths_of rest

-- `override.get(domain)`: parsing has made sure that what stands there is an object.
abbrev pub domain_override : String → Fields → Option Fields
domain_override domain override = elim (lookup domain override) [
  | some (obj fs) ↦ some fs
  | _ ↦ none
]

-- The leaves under a domain; none where the override lacks it.
abbrev pub leaves_of : String → Fields → Leaves
leaves_of domain override = elim (domain_override domain override) [
  | none ↦ []
  | some fs ↦ walk_leaves (obj fs) domain
]

-- An entry that is there checks the value.
check_entry : String → Json → Option Fields → Result (Unit {0})
check_entry path value none = ok tt
check_entry path value (some entry) = validate_value_against_entry path value entry

check_indexed : Index → Leaves → Result (Unit {0})
unfolding check_entry
check_indexed index [] = ok tt
check_indexed index ((path, value) ∷ rest) =
    check_entry path value (find_entry path index) >> check_indexed index rest

-- The first loop's body for one domain: the shape against the base, then the indexed values.
unfoldable pub check_shape : String → Option Fields → Option Json → Result (Unit {0})
check_shape domain none base = ok tt
check_shape domain (some fs) (some (obj base)) = validate_existing_object_shape fs base domain
check_shape domain (some fs) _ = err (base_without_domain domain)

check_domain : Index → Fields → Fields → String → Result (Unit {0})
unfolding check_shape check_indexed
check_domain index override base domain = do
  check_shape domain (domain_override domain override) (lookup domain base)
  check_indexed index (leaves_of domain override)

-- A companion rule: the companion path and the ordinary path that it goes with.
pub rule_paths : Json → Result (String × String)
rule_paths (obj rule) = elim (lookup "path" rule) [
  | some (text companion) ↦ elim (lookup "requires_changed_path" rule) [
    | some (text ordinary) ↦ ok (companion, ordinary)
    | _ ↦ err rule_invalid
  ]
  | _ ↦ err rule_invalid
]
rule_paths _ = err rule_invalid

abbrev pub same_bool : Bool → Bool → Bool
same_bool true b = b
same_bool false b = not b

-- The loop over the rules, with the companion paths and the camera edits so far.
apply_rules : List String → Items → List String → List String → Result (List String × List String)
unfolding rule_paths
apply_rules requested nil companions edits = ok (companions, edits)
apply_rules requested (cons r rest) companions edits = do
  (companion, ordinary) ← rule_paths r
  require (same_bool (contains requested ordinary) (contains requested companion))
      (camera_incomplete ordinary companion)
  apply_rules requested rest (companions ++ (companion ∷ []))
      (if contains requested ordinary then edits ++ (ordinary ∷ []) else edits)

pub companion_rules : Fields → Result Items
companion_rules surface = elim (lookup "companion_rules" surface) [
  | some (arr rules) ↦ ok rules
  | _ ↦ err surface_without_rules
]

-- `present and not isinstance(base_value, bool) and isinstance(base_value, (int, float))`.
abbrev pub is_plain_number : Option Json → Bool
is_plain_number (some (int i)) = true
is_plain_number (some (float x)) = true
is_plain_number _ = false

check_companion : Fields → List String → String → Json → Result (Unit {0})
check_companion base companions path value = do
  require (contains companions path) (not_authorable path)
  fits ← is_finite_number value
  require fits (companion_not_finite path)
  require (is_plain_number (resolve_path (split_dots path) (obj base))) (companion_disagrees path)

check_view_leaf : Fields → List String → String → Json → Option Fields → Result (Unit {0})
unfolding check_companion
check_view_leaf base companions path value none = check_companion base companions path value
check_view_leaf base companions path value (some entry) = ok tt

check_view : Index → Fields → List String → Leaves → Result (Unit {0})
unfolding check_view_leaf
check_view index base companions [] = ok tt
check_view index base companions ((path, value) ∷ rest) =
    check_view_leaf base companions path value (find_entry path index)
    >> check_view index base companions rest

check_params_leaf : String → Json → Option Fields → Result (Unit {0})
check_params_leaf path value none = err (not_authorable path)
check_params_leaf path value (some entry) = validate_value_against_entry path value entry

check_params : Index → Leaves → Result (Unit {0})
unfolding check_params_leaf
check_params index [] = ok tt
check_params index ((path, value) ∷ rest) =
    check_params_leaf path value (find_entry path index) >> check_params index rest

-- `zoom_value <= 0` raises on a value that is no number.
positive : Option Value → Result Bool
positive none = err type_error
positive (some v) = ok (lt_value (exact 0 0) v)

check_zoom : Option Json → Result (Unit {0})
unfolding positive
check_zoom none = ok tt
check_zoom (some v) = do fits ← positive (number v); require fits zoom_not_positive

unfoldable pub validate_params_and_view : Fields → Fields → Fields → Result (List String)
unfolding check_domain apply_rules companion_rules check_view check_params check_zoom
validate_params_and_view override base surface = do
  index ← authoring_entries surface
  check_domain index override base "params"
  check_domain index override base "view"
  rules ← companion_rules surface
  let requested = paths_of (leaves_of "params" override ++ leaves_of "view" override)
  (companions, edits) ← apply_rules requested rules [] []
  check_view index base companions (leaves_of "view" override)
  check_params index (leaves_of "params" override)
  check_zoom (resolve_path ("view" ∷ "zoom" ∷ []) (obj override))
  ok edits
