-- ===== src/Override/Materialize.antt =====
-- `_merged_color_pipeline_draft` and `materialize_state_override` of
-- src/cuda_fractal_state_tool/state_override.py, from the loaded packet authorities on. The result
-- comes with the candidate that has been written, since the file stays when a later step raises.
pub mod Draft
pub mod Effect
pub mod Report
pub mod Total
use cuda_fractal_engine_stat.Prelude.{
  Bool, true, false, not, ◌&&◌, Option, none, some, List, [], ◌∷◌, ◌++◌, String, if◌then◌else◌,
}
use cuda_fractal_engine_stat.Override.Error.{
  OverrideError, Result, ok, err, ◌>>=◌, ◌>>◌, require, pipeline_not_lanes_only, base_without_draft,
  pipeline_unchanged, output_inside_packet, not_json_compliant, key_error, type_error,
}
use cuda_fractal_engine_stat.Json.Document.{
  Json, null, bool, int, float, text, arr, obj, finite, infinity, minus_infinity, not_a_number,
  Items, nil, cons, Fields, end, field, lookup, get, set, has_key, keys,
}
use cuda_fractal_engine_stat.Json.Equality.{eq}
use cuda_fractal_engine_stat.Override.Parse.{parse_state_override}
use cuda_fractal_engine_stat.Override.Merge.{deep_merge_existing}
use cuda_fractal_engine_stat.Override.Validate.{
  domain_override, leaves_of, paths_of, validate_params_and_view,
}
use cuda_fractal_engine_stat.Override.Topology.{validate_fixed_pipeline_topology}
use cuda_fractal_engine_stat.Override.Draft.{validate_captured_color_pipeline_draft}
use cuda_fractal_engine_stat.Override.Draft.Parameters.{has_exactly}
use cuda_fractal_engine_stat.Override.Diff.{Change, diff_values, domains_of}
use cuda_fractal_engine_stat.Json.Paths.{walk_leaves}

pub record PacketOverrideAuthorities : Type 0 where
  pub state : Fields
  pub authoring_surface : Fields
  pub color_pipeline_contract : Fields

-- The draft that an override asks for, before its validation.
pub candidate_draft : Json → Json → Result (Fields × Fields)
unfolding has_exactly
candidate_draft (obj override) (obj base) =
    if has_exactly override ("lanes" ∷ [])
    then ok (base, set "lanes" (get "lanes" override) base)
    else err pipeline_not_lanes_only
candidate_draft (obj override) _ =
    if has_exactly override ("lanes" ∷ [])
    then err base_without_draft
    else err pipeline_not_lanes_only
candidate_draft _ _ = err pipeline_not_lanes_only

unfoldable pub merged_color_pipeline_draft : Json → Fields → Fields → Result Json
unfolding candidate_draft
merged_color_pipeline_draft override_draft base_state contract = do
  (base, candidate) ← candidate_draft override_draft (get "color_pipeline_draft" base_state)
  validate_fixed_pipeline_topology base candidate
  validate_captured_color_pipeline_draft (obj candidate) contract
  ok (obj candidate)

-- `_deep_merge_existing(merged[domain], override[domain])`.
merge_into : String → Fields → Option Json → Fields → Result Fields
merge_into domain fs (some (obj target)) merged = do
  done ← deep_merge_existing fs target
  ok (set domain (obj done) merged)
merge_into domain fs none merged = err (key_error domain)
merge_into domain fs (some _) merged = err type_error

unfoldable pub merge_domain : String → Option Fields → Fields → Result Fields
unfolding merge_into
merge_domain domain none merged = ok merged
merge_domain domain (some fs) merged = merge_into domain fs (lookup domain merged) merged

unfoldable pub merge_pipeline : Option Json → Fields → Fields → Fields → Result Fields
merge_pipeline none base contract merged = ok merged
merge_pipeline (some override_draft) base contract merged = do
  draft ← merged_color_pipeline_draft override_draft base contract
  require (not (eq draft (get "color_pipeline_draft" base))) pipeline_unchanged
  ok (set "color_pipeline_draft" draft merged)

-- The merged state of an override whose `params` and `view` have been validated.
unfoldable pub merge_state : Fields → Fields → Fields → Result Fields
unfolding merge_pipeline
merge_state override base contract = do
  with_params ← merge_domain "params" (domain_override "params" override) base
  with_view ← merge_domain "view" (domain_override "view" override) with_params
  merge_pipeline (lookup "color_pipeline_draft" override) base contract with_view

-- `json.dumps(..., allow_nan=False)` refuses an infinity and NaN.
unfoldable mutual
  pub is_compliant : Json → Bool
  is_compliant (float infinity) = false
  is_compliant (float minus_infinity) = false
  is_compliant (float not_a_number) = false
  is_compliant (arr xs) = compliant_items xs
  is_compliant (obj fs) = compliant_fields fs
  is_compliant _ = true

  pub compliant_items : Items → Bool
  compliant_items nil = true
  compliant_items (cons x xs) = is_compliant x && compliant_items xs

  pub compliant_fields : Fields → Bool
  compliant_fields end = true
  compliant_fields (field k v fs) = is_compliant v && compliant_fields fs

-- The candidate file: the packet's own bytes, or the text of a state.
pub data Candidate : Type 0 where
  state_bytes : Candidate
  serialized : Json → Candidate

unfoldable pub candidate_bytes : Fields → Fields → Result Candidate
unfolding is_compliant
candidate_bytes end merged = ok state_bytes
candidate_bytes (field k v rest) merged =
    if is_compliant (obj merged) then ok (serialized (obj merged)) else err not_json_compliant

pub record StateOverrideMaterialization : Type 0 where
  pub empty_override_byte_exact : Bool
  pub requested_paths : List String
  pub changed_paths : List Change
  pub conceptual_domains : List String
  pub camera_edits : List String
  pub apply_loaded_color_pipeline_draft : Bool

abbrev pub is_empty : Fields → Bool
is_empty end = true
is_empty (field k v rest) = false

-- `tuple(path for domain, value in override.items() for path, _ in _walk_leaves(value, domain))`.
unfoldable pub requested_paths_of : Fields → List String
requested_paths_of end = []
requested_paths_of (field domain v rest) =
    paths_of (walk_leaves v domain) ++ requested_paths_of rest

-- Everything before the write: the parsed override, the merged state, the candidate and the edits.
unfoldable pub prepare :
    PacketOverrideAuthorities → Bool → Json → Result (Fields × Fields × Candidate × List String)
prepare authorities inside_packet document = do
  require (not inside_packet) output_inside_packet
  override ← parse_state_override document
  edits ← validate_params_and_view override authorities.state authorities.authoring_surface
  merged ← merge_state override authorities.state authorities.color_pipeline_contract
  candidate ← candidate_bytes override merged
  ok (override, merged, candidate, edits)

-- What is computed after the write.
unfoldable pub report : Fields → Fields → Fields → List String → Result StateOverrideMaterialization
report base override merged edits = do
  changes ← diff_values (obj base) (obj merged) ""
  ok (record {
    empty_override_byte_exact = is_empty override;
    requested_paths = requested_paths_of override;
    changed_paths = changes;
    conceptual_domains = domains_of changes [];
    camera_edits = edits;
    apply_loaded_color_pipeline_draft = has_key "color_pipeline_draft" override;
  })

pub data Outcome : Type 0 where
  refused : OverrideError → Outcome
  written : Candidate → Result StateOverrideMaterialization → Outcome

-- What has happened when the preparation has come to this.
outcome_of :
    PacketOverrideAuthorities → Result (Fields × Fields × Candidate × List String) → Outcome
outcome_of authorities (err e) = refused e
outcome_of authorities (ok (override, merged, candidate, edits)) =
    written candidate (report authorities.state override merged edits)

unfoldable pub materialize_state_override : PacketOverrideAuthorities → Bool → Json → Outcome
unfolding outcome_of
materialize_state_override authorities inside_packet document =
    outcome_of authorities (prepare authorities inside_packet document)
