-- ===== src/Override/Diff.antt =====
-- `_diff_values` and `_conceptual_domain` of src/cuda_fractal_state_tool/state_override.py.
pub mod Runs
pub mod Same
use package.text.Mathlib.Text.{starts_with}
use Prim.Native.String.{◌++◌ as append}
use cuda_fractal_engine_stat.Prelude.{
  ℕ, zero, suc, Bool, true, false, ◌||◌, Option, none, some, List, [], ◌∷◌, ◌++◌, String, ◌==◌,
  if◌then◌else◌, contains,
}
use cuda_fractal_engine_stat.Override.Error.{Result, ok, err, ◌>>=◌, key_error}
use cuda_fractal_engine_stat.Json.Document.{
  Json, null, bool, int, float, text, arr, obj, Items, nil, cons, Fields, end, field, lookup,
  count_items,
}
use cuda_fractal_engine_stat.Json.Equality.{eq}
use cuda_fractal_engine_stat.Json.Paths.{child_path, item_path, split_dots}

pub record Change : Type 0 where
  pub path : String
  pub base_value : Json
  pub merged_value : Json

-- A pair of values that is not taken apart.
pub diff_leaf : Json → Json → String → Result (List Change)
diff_leaf left right prefix =
    if eq left right
    then ok []
    else ok (record { path = prefix; base_value = left; merged_value = right } ∷ [])

unfoldable mutual
  unfolding diff_leaf child_path item_path

  pub diff_values : Json → Json → String → Result (List Change)
  diff_values (obj fs) (obj gs) prefix = diff_fields fs gs prefix
  diff_values (arr xs) (arr ys) prefix =
      let pairs = diff_items xs ys prefix 0 in
      if count_items xs == count_items ys then pairs else diff_leaf (arr xs) (arr ys) prefix
  diff_values left right prefix = diff_leaf left right prefix

  -- `right[key]` raises on a key that only the left side has.
  pub diff_fields : Fields → Fields → String → Result (List Change)
  diff_fields end gs prefix = ok []
  diff_fields (field k v rest) gs prefix =
      let here : Result (List Change) = elim (lookup k gs) [
        | none ↦ err (key_error k)
        | some w ↦ diff_values v w (child_path prefix k)
      ] in
      do found ← here; others ← diff_fields rest gs prefix; ok (found ++ others)

  pub diff_items : Items → Items → String → ℕ → Result (List Change)
  diff_items (cons x xs) (cons y ys) prefix index = do
    found ← diff_values x y (item_path prefix index)
    others ← diff_items xs ys prefix (suc index)
    ok (found ++ others)
  diff_items _ _ prefix index = ok []

abbrev first_part : List String → String
first_part [] = ""
first_part (p ∷ _) = p

abbrev second_part : List String → String
second_part [] = ""
second_part (_ ∷ rest) = first_part rest

unfoldable pub conceptual_domain : String → String
conceptual_domain path =
    if starts_with path "params."
    then append (first_part (split_dots path)) (append "." (second_part (split_dots path)))
    else if starts_with path "view.center_x" || starts_with path "view.center_hp_x"
    then "view.center_x"
    else if starts_with path "view.center_y" || starts_with path "view.center_hp_y"
    then "view.center_y"
    else if starts_with path "view.zoom" || starts_with path "view.log2_zoom"
    then "view.zoom"
    else first_part (split_dots path)

-- The domains of the changes, each once, in the order of their first change.
unfoldable pub domains_of : List Change → List String → List String
unfolding conceptual_domain
domains_of [] domains = domains
domains_of (c ∷ rest) domains = domains_of rest (
    if contains domains (conceptual_domain c.path)
    then domains
    else domains ++ (conceptual_domain c.path ∷ []))
