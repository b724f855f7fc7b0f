-- ===== src/Override/Tests.antt =====
-- Runs of the override engine on a small packet, and the theorems at them.
use cuda_fractal_engine_stat.Prelude.{◌≡◌, refl, true, false, some, [], ◌∷◌, pos, ℕ}
use cuda_fractal_engine_stat.Override.Error.{ok}
use cuda_fractal_engine_stat.Json.Document.{
  Json, int, text, arr, obj, nil, cons, Fields, end, field, lookup, set, keys, IsStrict,
  IsStrictFields,
}
use cuda_fractal_engine_stat.Json.Equality.{number, lt_value}
use cuda_fractal_engine_stat.Json.Paths.{walk_leaves, resolve_path}
use cuda_fractal_engine_stat.Override.Parse.{parse_state_override}
use cuda_fractal_engine_stat.Override.Entry.{authoring_entries, validate_value_against_entry}
use cuda_fractal_engine_stat.Override.Merge.{deep_merge_existing, validate_existing_object_shape}
use cuda_fractal_engine_stat.Override.Validate.{validate_params_and_view}
use cuda_fractal_engine_stat.Override.Validate.Sound.{IsAuthorable, validate-IsAuthorable}
use cuda_fractal_engine_stat.Override.Materialize.{
  PacketOverrideAuthorities, serialized, state_bytes, merge_state, merge_domain, candidate_bytes,
  prepare, materialize_state_override,
}
use cuda_fractal_engine_stat.Override.Materialize.Effect.{IsOverlay, prepare-IsOverlay}
use cuda_fractal_engine_stat.Override.Materialize.Draft.{Writes}
use cuda_fractal_engine_stat.Override.Materialize.Total.{validated-merges}
use cuda_fractal_engine_stat.Override.Materialize.Report.{materialize-empty}
use cuda_fractal_engine_stat.Override.Materialize.{written}
use cuda_fractal_engine_stat.Override.Merge.Total.{Merges, deep_merge_existing-Merges}
use cuda_fractal_engine_stat.Override.Merge.Lookup.{resolve-merge_leaf, resolve-merge_spared}
use cuda_fractal_engine_stat.Override.Validate.Hollow.{hollow, validate-hollow}

abbrev params : ℕ → Fields
params n = field "iterations" (int (pos n)) (field "palette" (text "warm") end)

abbrev view : Fields
view = field "zoom" (int (pos 2)) end

abbrev base : Fields
base = field "params" (obj (params 100)) (field "view" (obj view) (field "seed" (int (pos 7)) end))

abbrev entry : Json
entry = obj (
    field "path" (text "params.iterations") (
      field "type" (text "int")
        (field "minimum" (int (pos 1)) (field "maximum" (int (pos 500)) end))))

abbrev surface : Fields
surface = field "entries" (arr (cons entry nil)) (field "companion_rules" (arr nil) end)

abbrev packet : PacketOverrideAuthorities
packet = record { state = base; authoring_surface = surface; color_pipeline_contract = end }

abbrev request : ℕ → Fields
request n = field "params" (obj (field "iterations" (int (pos n)) end)) end

abbrev merged : ℕ → Fields
merged n =
    field "params" (obj (params n)) (field "view" (obj view) (field "seed" (int (pos 7)) end))

request_valid : validate_params_and_view (request 200) base surface ≡ ok []
unfolding validate_params_and_view authoring_entries validate_value_against_entry
    validate_existing_object_shape walk_leaves resolve_path lookup number lt_value
request_valid = refl

request_prepared :
    prepare packet false (obj (request 200))
    ≡ ok (request 200, merged 200, serialized (obj (merged 200)), [])
unfolding prepare parse_state_override validate_params_and_view authoring_entries
    validate_value_against_entry validate_existing_object_shape walk_leaves resolve_path lookup
    merge_state merge_domain deep_merge_existing set candidate_bytes keys number lt_value
request_prepared = refl

request-IsStrict : (n : ℕ) → IsStrict (obj (request n))
unfolding IsStrict lookup
request-IsStrict n = (refl, (refl, tt, tt), tt)

base_unique : IsStrictFields base
unfolding IsStrict lookup
base_unique = (refl, (refl, tt, (refl, tt, tt)), (refl, (refl, tt, tt), (refl, tt, tt)))

prepare-IsOverlay_example :
    IsOverlay (request 200) base surface packet.color_pipeline_contract (merged 200)
    × Writes (request 200) (merged 200) (serialized (obj (merged 200)))
prepare-IsOverlay_example =
    prepare-IsOverlay packet (obj (request 200)) (request 200) (merged 200)
      (serialized (obj (merged 200))) [] (request-IsStrict 200) request_prepared

validated-merges_example : (m : Fields) × (merge_state (request 200) base end ≡ ok m)
unfolding lookup IsStrict
validated-merges_example =
    validated-merges (request 200) base surface end [] (request-IsStrict 200) refl request_valid

validate-IsAuthorable_example : IsAuthorable (request 200) base surface
validate-IsAuthorable_example = validate-IsAuthorable (request 200) base surface [] request_valid

abbrev change : ℕ → Fields
change n = field "iterations" (int (pos n)) end

change_unique : (n : ℕ) → IsStrictFields (change n)
unfolding IsStrict lookup
change_unique n = (refl, tt, tt)

deep_merge_existing-Merges_example : Merges (change 200) (params 100)
unfolding validate_existing_object_shape lookup
deep_merge_existing-Merges_example =
    deep_merge_existing-Merges (change 200) (params 100) "params" (change_unique 200) refl

change_merged : deep_merge_existing (change 200) (params 100) ≡ ok (params 200)
unfolding deep_merge_existing lookup set
change_merged = refl

resolve-merge_leaf_example :
    resolve_path ("iterations" ∷ []) (obj (params 200)) ≡ some (int (pos 200))
unfolding resolve_path lookup
resolve-merge_leaf_example =
    resolve-merge_leaf ("iterations" ∷ []) (change 200) (params 100) (params 200) (int (pos 200))
      (change_unique 200) change_merged refl refl

resolve-merge_spared_example :
    resolve_path ("palette" ∷ []) (obj (params 200))
    ≡ resolve_path ("palette" ∷ []) (obj (params 100))
unfolding lookup
resolve-merge_spared_example =
    resolve-merge_spared ("palette" ∷ []) (change 200) (params 100) (params 200) (change_unique 200)
      change_merged refl

empty_valid : validate_params_and_view end base surface ≡ ok []
unfolding validate_params_and_view authoring_entries walk_leaves resolve_path lookup
empty_valid = refl

materialize-empty_example :
    materialize_state_override packet false (obj end)
    ≡ written state_bytes (
        ok (record {
          empty_override_byte_exact = true;
          requested_paths = [];
          changed_paths = [];
          conceptual_domains = [];
          camera_edits = [];
          apply_loaded_color_pipeline_draft = false;
        }))
materialize-empty_example = materialize-empty packet [] base_unique empty_valid

validate-hollow_example :
    validate_params_and_view
      (hollow "seed_mode")
      (field "params" (obj (field "seed_mode" (text "fixed") end)) end)
      surface
    ≡ validate_params_and_view end
        (field "params" (obj (field "seed_mode" (text "fixed") end)) end)
        surface
unfolding lookup
validate-hollow_example =
    validate-hollow "seed_mode" (text "fixed") (field "seed_mode" (text "fixed") end)
      (field "params" (obj (field "seed_mode" (text "fixed") end)) end) surface refl refl
