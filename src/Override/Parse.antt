-- ===== src/Override/Parse.antt =====
-- `parse_state_override` of src/cuda_fractal_state_tool/state_override.py, from the decoded document
-- on.
use cuda_fractal_engine_stat.Prelude.{ℕ, suc, List, [], ◌∷◌, String, ◌≡◌, if◌then◌else◌, contains}
use cuda_fractal_engine_stat.Override.Error.{
  Result, ok, err, ◌>>◌, not_an_object, unsupported_domains, domain_not_an_object, null_at,
  non_finite_at, bind_ok, ok-injective,
}
use Prim.Native.String.{◌++◌ as append}
use cuda_fractal_engine_stat.Json.Document.{
  Json, null, float, arr, obj, infinity, minus_infinity, not_a_number, Items, nil, cons, Fields,
  end, field, keys,
}
use cuda_fractal_engine_stat.Json.Paths.{item_path}

abbrev pub allowed_top_level_domains : List String
allowed_top_level_domains = "params" ∷ "view" ∷ "color_pipeline_draft" ∷ []

-- `set(value) - ALLOWED_TOP_LEVEL_DOMAINS`, in the document's order.
unfoldable pub unknown_domains : List String → List String
unknown_domains [] = []
unknown_domains (k ∷ ks) =
    let rest = unknown_domains ks in if contains allowed_top_level_domains k then rest else k ∷ rest

unfoldable pub require_objects : Fields → Result (Unit {0})
require_objects end = ok tt
require_objects (field k (obj fs) rest) = require_objects rest
require_objects (field k _ rest) = err (domain_not_an_object k)

unfoldable mutual
  unfolding item_path

  pub reject_nulls_and_nonfinite : Json → String → Result (Unit {0})
  reject_nulls_and_nonfinite null path = err (null_at path)
  reject_nulls_and_nonfinite (float infinity) path = err (non_finite_at path)
  reject_nulls_and_nonfinite (float minus_infinity) path = err (non_finite_at path)
  reject_nulls_and_nonfinite (float not_a_number) path = err (non_finite_at path)
  reject_nulls_and_nonfinite (obj fs) path = reject_in_fields fs path
  reject_nulls_and_nonfinite (arr xs) path = reject_in_items xs path 0
  reject_nulls_and_nonfinite _ path = ok tt

  pub reject_in_fields : Fields → String → Result (Unit {0})
  reject_in_fields end path = ok tt
  reject_in_fields (field k v rest) path =
      reject_nulls_and_nonfinite v (append path (append "." k)) >> reject_in_fields rest path

  pub reject_in_items : Items → String → ℕ → Result (Unit {0})
  reject_in_items nil path index = ok tt
  reject_in_items (cons x xs) path index =
      reject_nulls_and_nonfinite x (item_path path index) >> reject_in_items xs path (suc index)

require_known : List String → Result (Unit {0})
require_known [] = ok tt
require_known (k ∷ ks) = err (unsupported_domains (k ∷ ks))

unfoldable pub parse_state_override : Json → Result Fields
unfolding unknown_domains require_objects require_known reject_nulls_and_nonfinite
parse_state_override (obj document) = do
  require_known (unknown_domains (keys document))
  require_objects document
  reject_nulls_and_nonfinite (obj document) "$"
  ok document
parse_state_override _ = err not_an_object

-- The parsed override is the document's object, unchanged.
pub parse-document :
    (document override : Fields)
    → parse_state_override (obj document) ≡ ok override
    → document ≡ override
unfolding parse_state_override
parse-document document override h =
    let (_, _, h1) = bind_ok (require_known (unknown_domains (keys document))) _ h in
    let (_, _, h2) = bind_ok (require_objects document) _ h1 in
    let (_, _, h3) = bind_ok (reject_nulls_and_nonfinite (obj document) "$") _ h2 in ok-injective h3
