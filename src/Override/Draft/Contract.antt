-- ===== src/Override/Draft/Contract.antt =====
-- `_contract_function_index` of src/cuda_fractal_state_tool/agent_bundle.py.
use cuda_fractal_engine_stat.Prelude.{
  Bool, true, false, not, ◌&&◌, Option, none, some, List, [], ◌∷◌, ◌++◌, String, str_eq,
  if◌then◌else◌, contains,
}
use cuda_fractal_engine_stat.Override.Error.{
  Result, ok, err, ◌>>=◌, ◌>>◌, require, contract_invalid,
}
use cuda_fractal_engine_stat.Json.Document.{
  Json, text, arr, obj, Items, nil, cons, Fields, lookup, get,
}

-- The functions of the contract by lane and function id.
abbrev pub Functions : Type 0
Functions = List (String × String × Fields)

unfoldable pub find_function : String → String → Functions → Option Fields
find_function lane f [] = none
find_function lane f ((l, g, function) ∷ rest) =
    if str_eq l lane && str_eq g f then some function else find_function lane f rest

abbrev is_absent : Option Fields → Bool
is_absent none = true
is_absent (some _) = false

index_functions : String → Items → Functions → Result Functions
unfolding find_function
index_functions lane nil functions = ok functions
index_functions lane (cons (obj function) rest) functions = elim (lookup "id" function) [
  | some (text f) ↦ do
    require (is_absent (find_function lane f functions)) contract_invalid
    index_functions lane rest (functions ++ ((lane, f, function) ∷ []))
  | _ ↦ err contract_invalid
]
index_functions lane (cons _ rest) functions = err contract_invalid

index_lane : String → Json → Functions → Result Functions
unfolding index_functions
index_lane lane (arr items) functions = index_functions lane items functions
index_lane lane _ functions = err contract_invalid

index_lanes : Items → List String → Functions → Result (List String × Functions)
unfolding index_lane
index_lanes nil order functions = ok (order, functions)
index_lanes (cons (obj lane) rest) order functions = elim (lookup "id" lane) [
  | some (text id) ↦ do
    require (not (contains order id)) contract_invalid
    functions' ← index_lane id (get "functions" lane) functions
    index_lanes rest (order ++ (id ∷ [])) functions'
  | _ ↦ err contract_invalid
]
index_lanes (cons _ rest) order functions = err contract_invalid

abbrev lanes_of : Json → Option Items
lanes_of (obj library) = elim (lookup "lanes" library) [ some (arr lanes) ↦ some lanes | _ ↦ none ]
lanes_of _ = none

unfoldable pub contract_function_index : Fields → Result (List String × Functions)
unfolding index_lanes
contract_function_index contract = elim (lanes_of (get "function_library" contract)) [
  | none ↦ err contract_invalid
  | some lanes ↦ index_lanes lanes [] []
]
