-- ===== src/Override/Draft.antt =====
-- `validate_captured_color_pipeline_draft` of src/cuda_fractal_state_tool/agent_bundle.py: a color
-- pipeline against the copied contract.
pub mod Contract
pub mod Parameters
use cuda_fractal_engine_stat.Prelude.{
  ℕ, ◌+◌, ℤ, pos_part, neg_part, ltb_ℤ, leb_ℤ, Bool, true, false, not, ◌&&◌, ◌||◌, Option, none,
  some, List, [], ◌∷◌, ◌++◌, map, String, str_eq, ◌==◌, if◌then◌else◌, contains,
}
use cuda_fractal_engine_stat.Override.Error.{
  Result, ok, err, ◌>>=◌, ◌>>◌, require, draft_invalid, contract_invalid, type_error,
}
use cuda_fractal_engine_stat.Json.Document.{
  Json, null, bool, int, float, text, arr, obj, Items, nil, cons, Fields, end, field, lookup, get,
  has_key, keys,
}
use cuda_fractal_engine_stat.Json.Equality.{eq, number}
use cuda_fractal_engine_stat.Override.Entry.{
  is_finite_number, is_int, contains_item, exceeds, bound_of,
}
use cuda_fractal_engine_stat.Override.Draft.Contract.{
  Functions, find_function, contract_function_index,
}
use cuda_fractal_engine_stat.Override.Draft.Parameters.{check_row_values, list_of}

abbrev contains_id : List ℤ → ℤ → Bool
contains_id [] i = false
contains_id (j ∷ js) i = (leb_ℤ i j && leb_ℤ j i) || contains_id js i

-- A row's fields, as its first check takes them.
row_fields : Json → Option (String × ℤ × Fields)
row_fields (obj row) = elim (lookup "function_id" row) [
  | some (text f) ↦ elim (lookup "ui_row_id" row) [
    | some (int i) ↦ elim (lookup "enabled" row) [ some (bool b) ↦ some (f, i, row) | _ ↦ none ]
    | _ ↦ none
  ]
  | _ ↦ none
]
row_fields _ = none

check_captured_row : Functions → String → Option (String × ℤ × Fields) → List ℤ → Result (List ℤ)
unfolding find_function check_row_values list_of
check_captured_row functions lane none ids = err draft_invalid
check_captured_row functions lane (some (f, i, row)) ids = do
  require (not (contains_id ids i)) draft_invalid
  function ← elim (find_function lane f functions) [ none ↦ err draft_invalid | some g ↦ ok g ]
  check_row_values (list_of (lookup "params" function)) (list_of (lookup "parameter_values" row))
  ok (i ∷ ids)

check_captured_rows : Functions → String → Items → List ℤ → Result (List ℤ)
unfolding check_captured_row row_fields
check_captured_rows functions lane nil ids = ok ids
check_captured_rows functions lane (cons row rest) ids = do
  ids' ← check_captured_row functions lane (row_fields row) ids
  check_captured_rows functions lane rest ids'

-- A lane's id and rows, as its first checks take them.
lane_fields : Json → Option (String × Items)
lane_fields (obj lane) = elim (lookup "lane_id" lane) [
  | some (text id) ↦ elim (lookup "label" lane) [
    | some (text label) ↦ elim (lookup "rows" lane) [
      | some (arr rows) ↦ if str_eq label "" then none else some (id, rows)
      | _ ↦ none
    ]
    | _ ↦ none
  ]
  | _ ↦ none
]
lane_fields _ = none

check_captured_lane :
    Functions → Option (String × Items) → List String → List ℤ → Result (List String × List ℤ)
unfolding check_captured_rows
check_captured_lane functions none order ids = err draft_invalid
check_captured_lane functions (some (id, rows)) order ids = do
  ids' ← check_captured_rows functions id rows ids
  ok (order ++ (id ∷ []), ids')

check_captured_lanes : Functions → Items → List String → List ℤ → Result (List String × List ℤ)
unfolding check_captured_lane lane_fields
check_captured_lanes functions nil order ids = ok (order, ids)
check_captured_lanes functions (cons lane rest) order ids = do
  (order', ids') ← check_captured_lane functions (lane_fields lane) order ids
  check_captured_lanes functions rest order' ids'

abbrev same_texts : List String → List String → Bool
same_texts [] [] = true
same_texts (s ∷ ss) (t ∷ ts) = str_eq s t && same_texts ss ts
same_texts _ _ = false

-- `next_row_id > max(ids)`, where there are ids.
above_all_ids : ℤ → List ℤ → Bool
above_all_ids next [] = true
above_all_ids next (i ∷ ids) = ltb_ℤ i next && above_all_ids next ids

abbrev at_least_one : ℤ → Bool
at_least_one i = ltb_ℤ (ℤ.pos 0) i

check_draft : Fields → Json → Json → Result (Unit {0})
unfolding contract_function_index check_captured_lanes above_all_ids
check_draft contract (arr lanes) (int next) = do
  require (at_least_one next) draft_invalid
  (lane_order, functions) ← contract_function_index contract
  (order, ids) ← check_captured_lanes functions lanes [] []
  require (same_texts order lane_order) draft_invalid
  require (above_all_ids next ids) draft_invalid
check_draft contract _ _ = err draft_invalid

-- The draft as it stands in a state; `None` passes.
unfoldable pub validate_captured_color_pipeline_draft : Json → Fields → Result (Unit {0})
unfolding check_draft
validate_captured_color_pipeline_draft null contract = ok tt
validate_captured_color_pipeline_draft (obj draft) contract =
    check_draft contract (get "lanes" draft) (get "next_row_id" draft)
validate_captured_color_pipeline_draft _ contract = err draft_invalid
