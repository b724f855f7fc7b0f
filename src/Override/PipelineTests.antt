-- ===== src/Override/PipelineTests.antt =====
-- Runs of the override engine on a color pipeline, and the theorems at them.
use cuda_fractal_engine_stat.Prelude.{◌≡◌, refl, true, false, [], String, pos}
use cuda_fractal_engine_stat.Override.Error.{OverrideError, ok, err}
use cuda_fractal_engine_stat.Json.Document.{
  Json, bool, int, text, arr, obj, nil, cons, Fields, end, field, lookup, set, keys, get,
  count_items, IsStrict, size,
}
use cuda_fractal_engine_stat.Json.Equality.{eq, eq_number, number}
use cuda_fractal_engine_stat.Json.Equality.Reflexive.{eq_refl}
use cuda_fractal_engine_stat.Json.Paths.{walk_leaves, resolve_path}
use cuda_fractal_engine_stat.Override.Parse.{parse_state_override}
use cuda_fractal_engine_stat.Override.Entry.{authoring_entries}
use cuda_fractal_engine_stat.Override.Validate.{validate_params_and_view}
use cuda_fractal_engine_stat.Override.Topology.{validate_fixed_pipeline_topology}
use cuda_fractal_engine_stat.Override.Topology.Fixed.{SameDraftLanes, topology-SameLanes}
use cuda_fractal_engine_stat.Override.Draft.{validate_captured_color_pipeline_draft}
use cuda_fractal_engine_stat.Override.Draft.Contract.{contract_function_index}
use cuda_fractal_engine_stat.Override.Diff.{diff_values}
use cuda_fractal_engine_stat.Override.Diff.Runs.{
  Lacks, missing, under, first_item, diff_values-fails,
}
use cuda_fractal_engine_stat.Override.Diff.Same.{diff_values_same}
use cuda_fractal_engine_stat.Override.Materialize.{
  PacketOverrideAuthorities, serialized, written, merge_state, merge_domain,
  merged_color_pipeline_draft, candidate_bytes, prepare, materialize_state_override,
}
use cuda_fractal_engine_stat.Override.Materialize.Report.{materialize-Lacks}

-- A number's parameter and an enumeration's, at one path.
abbrev gain : Json
gain = obj (
    field "path" (text "amount")
      (field "type" (text "int") (field "number_value" (int (pos 3)) end)))

abbrev mode : Json
mode = obj (
    field "path" (text "amount")
      (field "type" (text "enum") (field "enum_value" (text "soft") end)))

abbrev row : String → Json → Json
row f value = obj (
    field "ui_row_id" (int (pos 1)) (
      field "enabled" (bool true)
        (field "function_id" (text f) (field "parameter_values" (arr (cons value nil)) end))))

abbrev lane : String → Json → Json
lane f value = obj (
    field "lane_id" (text "base")
      (field "label" (text "Base") (field "rows" (arr (cons (row f value) nil)) end)))

abbrev draft : String → Json → Fields
draft f value =
    field "next_row_id" (int (pos 2)) (field "lanes" (arr (cons (lane f value) nil)) end)

abbrev function : String → Json → Json
function id parameter = obj (field "id" (text id) (field "params" (arr (cons parameter nil)) end))

abbrev contract : Fields
contract =
    field "function_library"
      (obj (
        field "lanes"
          (arr (
            cons
              (obj (
                field "id" (text "base") (
                  field "functions"
                    (arr (
                      cons
                        (function "gain"
                          (obj (field "path" (text "amount") (field "type" (text "int") end))))
                        (cons
                          (function "blend" (
                            obj (
                              field "path" (text "amount") (
                                field "type" (text "enum")
                                  (field "options" (arr (cons (text "soft") nil)) end)))))
                          nil)))
                    end)))
              nil))
          end))
      end

abbrev state : Fields → Fields
state d = field "color_pipeline_draft" (obj d) end

abbrev packet : PacketOverrideAuthorities
packet = record {
  state = state (draft "gain" gain);
  authoring_surface = field "entries" (arr nil) (field "companion_rules" (arr nil) end);
  color_pipeline_contract = contract;
}

abbrev request : Fields
request =
    field "color_pipeline_draft" (obj (field "lanes" (arr (cons (lane "blend" mode) nil)) end)) end

request_topology : validate_fixed_pipeline_topology (draft "gain" gain) (draft "blend" mode) ≡ ok tt
unfolding validate_fixed_pipeline_topology lookup eq eq_number number count_items get
request_topology = refl

request_captured :
    validate_captured_color_pipeline_draft (obj (draft "blend" mode)) contract ≡ ok tt
unfolding validate_captured_color_pipeline_draft contract_function_index lookup eq number
    count_items get keys
request_captured = refl

topology-SameLanes_example :
    SameDraftLanes (get "lanes" (draft "gain" gain)) (get "lanes" (draft "blend" mode))
    × (eq (get "next_row_id" (draft "gain" gain)) (get "next_row_id" (draft "blend" mode)) ≡ true)
topology-SameLanes_example =
    topology-SameLanes (draft "gain" gain) (draft "blend" mode) request_topology

request_prepared :
    prepare packet false (obj request)
    ≡ ok (request, state (draft "blend" mode), serialized (obj (state (draft "blend" mode))), [])
unfolding prepare parse_state_override validate_params_and_view authoring_entries walk_leaves
    resolve_path lookup merge_state merge_domain merged_color_pipeline_draft
    validate_fixed_pipeline_topology validate_captured_color_pipeline_draft set keys eq number
    count_items candidate_bytes get eq_number size
request_prepared = refl

Lacks-carrier : Lacks gain mode
unfolding lookup
Lacks-carrier = missing "number_value" (int (pos 3)) _ _ refl refl

Lacks-state : Lacks (obj (state (draft "gain" gain))) (obj (state (draft "blend" mode)))
unfolding lookup count_items
Lacks-state = under "color_pipeline_draft" _ _ _ _ refl refl (
    under "lanes" _ _ _ _ refl refl (
      first_item _ _ _ _ refl (
        under "rows" _ _ _ _ refl refl (
          first_item _ _ _ _ refl
            (under "parameter_values" _ _ _ _ refl refl (first_item _ _ _ _ refl Lacks-carrier))))))

materialize-Lacks_example :
    (e : OverrideError) × (materialize_state_override packet false (obj request)
      ≡ written (serialized (obj (state (draft "blend" mode)))) (err e))
materialize-Lacks_example =
    materialize-Lacks packet (obj request) request (state (draft "blend" mode))
      (serialized (obj (state (draft "blend" mode)))) [] request_prepared Lacks-state

diff_values-fails_example : (e : OverrideError) × (diff_values gain mode "value" ≡ err e)
diff_values-fails_example = diff_values-fails Lacks-carrier "value"

gain-IsStrict : IsStrict gain
unfolding IsStrict lookup
gain-IsStrict = (refl, tt, (refl, tt, (refl, tt, tt)))

eq_refl_example : eq gain gain ≡ true
eq_refl_example = eq_refl gain gain-IsStrict

diff_values_same_example : diff_values gain gain "value" ≡ ok []
diff_values_same_example = diff_values_same gain "value" gain-IsStrict
