-- ===== src/Override/Entry.antt =====
-- The authoring surface of a packet, and one value against its entry: `_authoring_entries` and
-- `_validate_value_against_entry` of src/cuda_fractal_state_tool/state_override.py.
use Prim.Native.Nat.{◌^◌}
use cuda_fractal_engine_stat.Prelude.{
  ◌+◌, ◌-◌, ℤ, pos_part, neg_part, Bool, true, false, not, ◌||◌, Option, none, some, List, [], ◌∷◌,
  ◌++◌, String, str_eq, leb, if◌then◌else◌,
}
use cuda_fractal_engine_stat.Override.Error.{
  Result, ok, err, ◌>>=◌, ◌>>◌, require, surface_without_entries, surface_entry_invalid,
  surface_repeats_path, not_a_finite_number, not_an_integer, not_a_boolean, not_an_option,
  unsupported_type, below_minimum, above_maximum, type_error, overflow_error,
}
use cuda_fractal_engine_stat.Json.Document.{
  Json, bool, int, float, text, arr, obj, finite, Items, nil, cons, Fields, lookup,
}
use cuda_fractal_engine_stat.Json.Equality.{Value, number, lt_value, eq}

-- The entries by their paths, in order.
abbrev pub Index : Type 0
Index = List (String × Fields)

unfoldable pub find_entry : String → Index → Option Fields
find_entry p [] = none
find_entry p ((q, entry) ∷ rest) = if str_eq q p then some entry else find_entry p rest

abbrev pub is_indexed : String → Index → Bool
is_indexed p index = elim (find_entry p index) [ none ↦ false | some _ ↦ true ]

-- An entry with the path that it must have.
entry_path : Json → Result (String × Fields)
entry_path (obj entry) = elim (lookup "path" entry) [
  | some (text path) ↦ ok (path, entry)
  | _ ↦ err surface_entry_invalid
]
entry_path _ = err surface_entry_invalid

index_entries : Items → Index → Result Index
unfolding find_entry entry_path
index_entries nil index = ok index
index_entries (cons e rest) index = do
  (path, entry) ← entry_path e
  require (not (is_indexed path index)) (surface_repeats_path path)
  index_entries rest (index ++ ((path, entry) ∷ []))

unfoldable pub authoring_entries : Fields → Result Index
unfolding index_entries
authoring_entries surface = elim (lookup "entries" surface) [
  | some (arr entries) ↦ index_entries entries []
  | _ ↦ err surface_without_entries
]

-- An `int` from this size on does not round to a finite double, and `math.isfinite` raises.
unfoldable pub overflows : ℤ → Bool
overflows i = leb (2 ^ 1024 - 2 ^ 970) (pos_part i + neg_part i)

-- `not isinstance(value, bool) and isinstance(value, (int, float)) and math.isfinite(value)`.
unfoldable pub is_finite_number : Json → Result Bool
unfolding overflows
is_finite_number (int i) = if overflows i then err overflow_error else ok true
is_finite_number (float (finite n)) = ok true
is_finite_number _ = ok false

abbrev pub is_bool : Json → Bool
is_bool (bool b) = true
is_bool _ = false

abbrev pub is_int : Json → Bool
is_int (int i) = true
is_int _ = false

abbrev pub contains_item : Json → Items → Bool
contains_item v nil = false
contains_item v (cons x xs) = eq x v || contains_item v xs

-- `isinstance(value, str) and isinstance(options, list) and value in options`.
is_option : Json → Option Json → Bool
is_option (text s) (some (arr options)) = contains_item (text s) options
is_option _ _ = false

-- The first test of the type that the entry declares; a list or an object is not hashable.
validate_type : String → Json → Option Json → Option Json → Result (Unit {0})
unfolding is_finite_number is_option
validate_type path value (some (arr _)) options = err type_error
validate_type path value (some (obj _)) options = err type_error
validate_type path value (some (text t)) options =
    if str_eq t "float" || str_eq t "double"
    then (do fits ← is_finite_number value; require fits (not_a_finite_number path))
    else if str_eq t "int"
    then require (is_int value) (not_an_integer path)
    else if str_eq t "bool"
    then require (is_bool value) (not_a_boolean path)
    else if str_eq t "enum"
    then require (is_option value options) (not_an_option path)
    else err (unsupported_type path)
validate_type path value _ options = err (unsupported_type path)

-- `isinstance(bound, (int, float)) and left < right`.
unfoldable pub exceeds : Option Value → Option Value → Bool
exceeds (some v) (some w) = lt_value v w
exceeds _ _ = false

abbrev pub bound_of : Option Json → Option Value
bound_of none = none
bound_of (some b) = number b

abbrev pub measured : Json → Option Value
measured (bool b) = none
measured v = number v

unfoldable pub validate_value_against_entry : String → Json → Fields → Result (Unit {0})
unfolding validate_type exceeds
validate_value_against_entry path value entry = do
  validate_type path value (lookup "type" entry) (lookup "options" entry)
  require (not (exceeds (measured value) (bound_of (lookup "minimum" entry)))) (below_minimum path)
  require (not (exceeds (bound_of (lookup "maximum" entry)) (measured value))) (above_maximum path)
