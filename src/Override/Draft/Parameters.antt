-- ===== src/Override/Draft/Parameters.antt =====
-- The parameter values of one captured row against the copied contract.
use cuda_fractal_engine_stat.Prelude.{
  Bool, true, false, not, ◌&&◌, ◌||◌, Option, none, some, List, [], ◌∷◌, String, str_eq,
  if◌then◌else◌, contains,
}
use cuda_fractal_engine_stat.Override.Error.{
  Result, ok, err, ◌>>=◌, ◌>>◌, require, draft_invalid, type_error,
}
use cuda_fractal_engine_stat.Json.Document.{
  Json, null, text, arr, obj, Items, nil, cons, Fields, lookup, get, keys,
}
use cuda_fractal_engine_stat.Json.Equality.{eq, number}
use cuda_fractal_engine_stat.Override.Entry.{
  is_finite_number, is_int, contains_item, exceeds, bound_of,
}

-- `set(d) == {...}`.
all_in : List String → List String → Bool
all_in [] names = true
all_in (k ∷ ks) names = contains names k && all_in ks names

unfoldable pub has_exactly : Fields → List String → Bool
unfolding all_in
has_exactly fs names = all_in (keys fs) names && all_in names (keys fs)

abbrev is_text : String → Json → Bool
is_text s (text t) = str_eq t s
is_text s _ = false

-- The carrier of a number of the contract: finite, an `int` where declared, within the copied range.
check_number_carrier : Json → Fields → Fields → Result (Unit {0})
unfolding has_exactly
check_number_carrier declared_type parameter captured = do
  require (has_exactly captured ("path" ∷ "type" ∷ "number_value" ∷ [])) draft_invalid
  let value = get "number_value" captured
  fits ← is_finite_number value
  require fits draft_invalid
  require (not (is_text "int" declared_type) || is_int value) draft_invalid
  require (not (exceeds (number value) (bound_of (lookup "min" parameter)))) draft_invalid
  require (not (exceeds (bound_of (lookup "max" parameter)) (number value))) draft_invalid

check_options : Json → Json → Result (Unit {0})
check_options (arr options) value = require (contains_item value options) draft_invalid
check_options _ value = err draft_invalid

check_enum_carrier : Fields → Fields → Result (Unit {0})
unfolding has_exactly check_options
check_enum_carrier parameter captured = do
  require (has_exactly captured ("path" ∷ "type" ∷ "enum_value" ∷ [])) draft_invalid
  check_options (get "options" parameter) (get "enum_value" captured)

check_carrier : Json → Fields → Fields → Result (Unit {0})
unfolding check_number_carrier check_enum_carrier
check_carrier (arr _) parameter captured = err type_error
check_carrier (obj _) parameter captured = err type_error
check_carrier declared_type parameter captured =
    if is_text "float" declared_type || is_text "int" declared_type
    then check_number_carrier declared_type parameter captured
    else if is_text "enum" declared_type
    then check_enum_carrier parameter captured
    else err draft_invalid

check_parameters : Items → Items → Result (Unit {0})
unfolding check_carrier
check_parameters (cons (obj parameter) ds) (cons (obj captured) cs) = do
  require (eq (get "type" captured) (get "type" parameter)) draft_invalid
  check_carrier (get "type" parameter) parameter captured
  check_parameters ds cs
check_parameters nil nil = ok tt
check_parameters _ _ = err draft_invalid

-- `item.get("path") if isinstance(item, dict) else None`.
item_paths : Items → Items
item_paths nil = nil
item_paths (cons (obj item) rest) = cons (get "path" item) (item_paths rest)
item_paths (cons _ rest) = cons null (item_paths rest)

-- `len(set(paths)) == len(paths)`; a list or an object cannot stand in a set.
check_distinct : Items → Items → Result (Unit {0})
check_distinct nil seen = ok tt
check_distinct (cons (arr _) rest) seen = err type_error
check_distinct (cons (obj _) rest) seen = err type_error
check_distinct (cons p rest) seen = do
  others ← check_distinct rest (cons p seen)
  require (not (contains_item p seen)) draft_invalid

-- A list under a key, the empty one where the key is absent.
unfoldable pub list_of : Option Json → Option Items
list_of none = some nil
list_of (some (arr xs)) = some xs
list_of (some _) = none

unfoldable pub check_row_values : Option Items → Option Items → Result (Unit {0})
unfolding check_parameters item_paths check_distinct
check_row_values (some declared) (some values) = do
  require (eq (arr (item_paths values)) (arr (item_paths declared))) draft_invalid
  check_distinct (item_paths values) nil
  check_parameters declared values
check_row_values _ _ = err draft_invalid
