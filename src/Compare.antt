-- ===== src/Compare.antt =====
-- `compare_json_documents` of src/cuda_fractal_state_tool/state_compare.py, from the decoded documents
-- on; whether their texts are equal is an argument.
pub mod Same
mod Tests
use package.text.Mathlib.Text.{starts_with}
use Prim.Native.String.{compare}
use Prim.Native.Nat.{Ordering}
use cuda_fractal_engine_stat.Prelude.{
  ℕ, suc, Bool, true, false, not, ◌||◌, ◌&&◌, List, [], ◌∷◌, ◌++◌, String, str_eq, if◌then◌else◌,
  contains,
}
use cuda_fractal_engine_stat.Json.Document.{
  Json, null, bool, int, float, text, arr, obj, Items, nil, cons, Fields, end, field, get, set,
  keys,
}
use cuda_fractal_engine_stat.Json.Equality.{eq}
use cuda_fractal_engine_stat.Json.Paths.{child_path, item_path, split_dots}

abbrev pub loader_top_level_keys : List String
loader_top_level_keys =
    "state_version" ∷ "fractal_type" ∷ "view" ∷ "params" ∷ "render" ∷ "lens" ∷ "sidecar_orientation"
    ∷ "sidecar_auto_demo_policy" ∷ "sidecar_mutation_history" ∷ "color_pipeline_draft" ∷ []

abbrev pub Leaves : Type 0
Leaves = List (String × Json)

before : String → String → Bool
before a b = elim (compare a b) [ Ordering.lt ↦ true | _ ↦ false ]

-- `sorted` over the keys of an object, each with the leaves under it.
insert_entry : String × Leaves → List (String × Leaves) → List (String × Leaves)
unfolding before
insert_entry e [] = e ∷ []
insert_entry e (f ∷ rest) =
    let later = insert_entry e rest in if before e.0 f.0 then e ∷ f ∷ rest else f ∷ later

sort_entries : List (String × Leaves) → List (String × Leaves)
unfolding insert_entry
sort_entries [] = []
sort_entries (e ∷ rest) = insert_entry e (sort_entries rest)

join : List (String × Leaves) → Leaves
join [] = []
join ((_, leaves) ∷ rest) = leaves ++ join rest

unfoldable mutual
  unfolding sort_entries join

  pub flatten : Json → String → Leaves
  flatten (obj fs) prefix = join (sort_entries (flatten_entries fs prefix))
  flatten (arr xs) prefix = flatten_items xs prefix 0
  flatten v prefix = (prefix, v) ∷ []

  pub flatten_entries : Fields → String → List (String × Leaves)
  flatten_entries end prefix = []
  flatten_entries (field k v rest) prefix =
      (k, flatten v (child_path prefix k)) ∷ flatten_entries rest prefix

  pub flatten_items : Items → String → ℕ → Leaves
  flatten_items nil prefix index = []
  flatten_items (cons x xs) prefix index =
      flatten x (item_path prefix index) ++ flatten_items xs prefix (suc index)

-- `dict(leaves)`.
unfoldable pub to_dict : Leaves → Fields → Fields
to_dict [] d = d
to_dict ((path, v) ∷ rest) d = to_dict rest (set path v d)

pub data Classification : Type 0 where
  volatile_diagnostic_data runtime_replay_artifact_enrichment derived_runtime_state : Classification
  unexplained_difference stable_authoring_state_difference : Classification

first_part : List String → String
first_part [] = ""
first_part (p ∷ rest) = p

unfoldable pub classify_path : String → Classification
unfolding first_part
classify_path path =
    if str_eq path "stats" || starts_with path "stats."
    then volatile_diagnostic_data
    else if str_eq path "color_pipeline_draft" || starts_with path "color_pipeline_draft."
    then runtime_replay_artifact_enrichment
    else if str_eq path "sidecar_orientation" || starts_with path "sidecar_orientation."
    then derived_runtime_state
    else if not (contains loader_top_level_keys (first_part (split_dots path)))
    then unexplained_difference
    else stable_authoring_state_difference

pub record PathDifference : Type 0 where
  pub path : String
  pub left : Json
  pub right : Json
  pub classification : Classification

pub record DocumentComparison : Type 0 where
  pub raw_equal : Bool
  pub semantic_equal : Bool
  pub differences : List PathDifference

unfoldable pub semantic_subset : Fields → Fields
semantic_subset end = end
semantic_subset (field k v rest) =
    let others = semantic_subset rest in
    if contains loader_top_level_keys k then field k v others else others

-- `sorted(set(left) | set(right))`.
insert_path : String → List String → List String
unfolding before
insert_path p [] = p ∷ []
insert_path p (q ∷ rest) =
    let later = insert_path p rest in
    if str_eq p q then q ∷ rest else if before p q then p ∷ q ∷ rest else q ∷ later

sort_paths : List String → List String
unfolding insert_path
sort_paths [] = []
sort_paths (p ∷ rest) = insert_path p (sort_paths rest)

-- A path that only one side has reads as `None` on the other.
unfoldable pub differences_at : Fields → Fields → List String → List PathDifference
differences_at left right [] = []
differences_at left right (p ∷ rest) =
    let others = differences_at left right rest in
    if eq (get p left) (get p right)
    then others
    else record {
      path = p;
      left = get p left;
      right = get p right;
      classification = classify_path p;
    }
      ∷ others

unfoldable pub compare_json_documents : Bool → Fields → Fields → DocumentComparison
unfolding sort_paths
compare_json_documents raw_equal left right =
    let l = to_dict (flatten (obj left) "") end in
    let r = to_dict (flatten (obj right) "") end in
    record {
      raw_equal = raw_equal;
      semantic_equal = eq (obj (semantic_subset left)) (obj (semantic_subset right));
      differences = differences_at l r (sort_paths (keys l ++ keys r));
    }

abbrev pub is_disallowed : Classification → Bool
is_disallowed unexplained_difference = true
is_disallowed stable_authoring_state_difference = true
is_disallowed _ = false

any_disallowed : List PathDifference → Bool
any_disallowed [] = false
any_disallowed (d ∷ rest) = is_disallowed d.classification || any_disallowed rest

unfoldable pub has_disallowed_difference : DocumentComparison → Bool
unfolding any_disallowed
has_disallowed_difference c = any_disallowed c.differences
