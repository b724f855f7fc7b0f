-- ===== src/Override/Merge.antt =====
-- `_validate_existing_object_shape` and `_deep_merge_existing` of
-- src/cuda_fractal_state_tool/state_override.py.
pub mod Total
pub mod Lookup
use cuda_fractal_engine_stat.Prelude.{
  ℕ, Bool, true, false, ◌&&◌, Option, none, some, List, [], ◌∷◌, ◌≡◌, refl, String, str_eq, eq_iff,
  arith, if◌then◌else◌,
}
use cuda_fractal_engine_stat.Override.Error.{
  OverrideError, Result, ok, err, ◌>>=◌, path_absent, object_conflicts_scalar, merge_into_scalar,
  key_error,
}
use cuda_fractal_engine_stat.Json.Document.{
  Json, null, bool, int, float, text, arr, obj, Items, Fields, end, field, lookup, set, keys,
}
use cuda_fractal_engine_stat.Json.Paths.{child_path}

-- The shape of a value against what the base holds under the same key.
unfoldable mutual
  unfolding child_path

  pub validate_existing_object_shape : Fields → Fields → String → Result (Unit {0})
  validate_existing_object_shape end base prefix = ok tt
  validate_existing_object_shape (field k v rest) base prefix = do
    _ ← validate_existing_value v (lookup k base) (child_path prefix k)
    validate_existing_object_shape rest base prefix

  pub validate_existing_value : Json → Option Json → String → Result (Unit {0})
  validate_existing_value v none path = err (path_absent path)
  validate_existing_value (obj fs) (some (obj base)) path =
      validate_existing_object_shape fs base path
  validate_existing_value (obj fs) (some w) path = err (object_conflicts_scalar path)
  validate_existing_value v (some w) path = ok tt

-- The merge returns the new target. It recurs on the override: an object goes into the target's
-- object under the same key, anything else is assigned.
unfoldable mutual
  pub deep_merge_existing : Fields → Fields → Result Fields
  deep_merge_existing end target = ok target
  deep_merge_existing (field k v rest) target = do
    merged ← merge_value k v (lookup k target)
    deep_merge_existing rest (set k merged target)

  pub merge_value : String → Json → Option Json → Result Json
  merge_value k (obj fs) none = err (key_error k)
  merge_value k (obj fs) (some (obj current)) = do
    merged ← deep_merge_existing fs current
    ok (obj merged)
  merge_value k (obj fs) (some w) = err (merge_into_scalar k)
  merge_value k v current = ok v
