-- ===== src/Override/Topology.antt =====
-- `_validate_fixed_pipeline_topology` of src/cuda_fractal_state_tool/state_override.py: what an
-- override of the color pipeline may not change.
pub mod Fixed
use cuda_fractal_engine_stat.Prelude.{
  ℕ, zero, suc, Bool, true, false, not, ◌&&◌, ◌||◌, Option, none, some, List, [], ◌∷◌, String,
  str_eq, ◌==◌, if◌then◌else◌, contains,
}
use cuda_fractal_engine_stat.Override.Error.{
  OverrideError, Result, ok, err, ◌>>=◌, ◌>>◌, require, lanes_incomplete, next_row_id_changed,
  lane_count_changed, lane_invalid, lane_keys_changed, row_topology_invalid, row_count_changed,
  lane_changed, row_invalid, row_keys_changed, row_changed,
}
use cuda_fractal_engine_stat.Json.Document.{
  Json, arr, obj, Items, nil, cons, Fields, end, field, lookup, get, has_key, count_items,
}
use cuda_fractal_engine_stat.Json.Equality.{eq}

-- `set(left) <= set(right)`.
pub keys_within : Fields → Fields → Bool
keys_within end right = true
keys_within (field k v rest) right = has_key k right && keys_within rest right

-- The loop over the base's entries: each key that is not exempt keeps its value.
pub check_values : List String → (String → OverrideError) → Fields → Fields → Result (Unit {0})
check_values exempt changed end candidate = ok tt
check_values exempt changed (field k v rest) candidate = do
  require (contains exempt k || eq (get k candidate) v) (changed k)
  check_values exempt changed rest candidate

abbrev pub row_exempt : List String
row_exempt = "function_id" ∷ "parameter_values" ∷ []

abbrev pub lane_exempt : List String
lane_exempt = "rows" ∷ []

pub check_row : ℕ → ℕ → Json → Json → Result (Unit {0})
unfolding keys_within check_values
check_row lane row (obj base) (obj candidate) = do
  require (keys_within base candidate && keys_within candidate base) (row_keys_changed lane row)
  check_values row_exempt (row_changed lane row) base candidate
check_row lane row _ _ = err (row_invalid lane row)

-- `zip(..., strict=True)` over lists whose lengths agree.
pub check_rows : ℕ → ℕ → Items → Items → Result (Unit {0})
unfolding check_row
check_rows lane row (cons b bs) (cons c cs) =
    check_row lane row b c >> check_rows lane (suc row) bs cs
check_rows lane row _ _ = ok tt

pub check_row_lists : ℕ → Json → Json → Result (Unit {0})
unfolding check_rows
check_row_lists lane (arr bs) (arr cs) = do
  require (count_items bs == count_items cs) (row_count_changed lane)
  check_rows lane 0 bs cs
check_row_lists lane _ _ = err (row_topology_invalid lane)

pub check_lane : ℕ → Json → Json → Result (Unit {0})
unfolding keys_within check_values check_row_lists
check_lane lane (obj base) (obj candidate) = do
  require (keys_within base candidate && keys_within candidate base) (lane_keys_changed lane)
  check_values lane_exempt (lane_changed lane) base candidate
  check_row_lists lane (get "rows" base) (get "rows" candidate)
check_lane lane _ _ = err (lane_invalid lane)

pub check_lanes : ℕ → Items → Items → Result (Unit {0})
unfolding check_lane
check_lanes lane (cons b bs) (cons c cs) = check_lane lane b c >> check_lanes (suc lane) bs cs
check_lanes lane _ _ = ok tt

pub check_draft_lanes : Fields → Fields → Json → Json → Result (Unit {0})
unfolding check_lanes
check_draft_lanes base candidate (arr bs) (arr cs) = do
  require (eq (get "next_row_id" base) (get "next_row_id" candidate)) next_row_id_changed
  require (count_items bs == count_items cs) lane_count_changed
  check_lanes 0 bs cs
check_draft_lanes base candidate _ _ = err lanes_incomplete

unfoldable pub validate_fixed_pipeline_topology : Fields → Fields → Result (Unit {0})
unfolding check_draft_lanes
validate_fixed_pipeline_topology base candidate =
    check_draft_lanes base candidate (get "lanes" base) (get "lanes" candidate)
