-- ===== src/Session/Validation.antt =====
-- The validation of an executable decision, and the controls of a replicated sweep: part of
-- `prepare_planner_response` of src/cuda_fractal_state_tool/research_session.py.
use cuda_fractal_engine_stat.Prelude.{
  Bool, true, ◌&&◌, Option, none, some, List, [], ◌∷◌, ◌++◌, String, str_eq, if◌then◌else◌, ◌⊎◌,
  inl, inr,
}
use cuda_fractal_engine_stat.Json.Document.{Json}
use cuda_fractal_engine_stat.RunStore.{Store, find_evidence}
use cuda_fractal_engine_stat.Sweep.Plan.{ParsedPlan, parse_scalar_sweep_plan, repeats}
use cuda_fractal_engine_stat.Response.{
  ResearchAction, action_text, UnresolvedReason, Refusal, Host, Checked, accepted, rejected,
}
use cuda_fractal_engine_stat.Response
use cuda_fractal_engine_stat.Response.Planner.{PlannerDecision, replication_controls}
use cuda_fractal_engine_stat.Session.State.{
  Validation, materialized, sweep_validated, ExecutionEvidence, Session, SessionError,
  response_rejected, validation_failed, no_effect, replication_mismatch, prior_payload_unavailable,
  attempt_path, Services,
}

single_validated : Option (List String) → SessionError ⊎ Validation
single_validated none = inl validation_failed
single_validated (some []) = inl no_effect
single_validated (some (path ∷ paths)) = inr (materialized (path ∷ paths))

-- The values of a plan that was read again, where it is about the same axis.
plan_values : String → Option Json → Option (List Json)
plan_values axis none = none
plan_values axis (some document) = elim (parse_scalar_sweep_plan document) [
  | inl e ↦ none
  | inr plan ↦ some (if str_eq plan.axis_path axis then plan.values else [])
]

payload_document : Host → Option String → Option Json
payload_document host none = none
payload_document host (some payload) = host.decode payload

earlier_values : Host → Store → String → ExecutionEvidence → Option (List Json)
unfolding plan_values payload_document attempt_path
earlier_values host store axis e = elim e.sweep [
  | none ↦ some []
  | some sweep ↦ plan_values axis (
      payload_document host
        (find_evidence (attempt_path e.attempt_number "payload.json") store.evidence))
]

join_values : Option (List Json) → Option (List Json) → Option (List Json)
join_values (some xs) (some ys) = some (xs ++ ys)
join_values _ _ = none

-- The values that earlier sweeps of the axis have tried.
prior_values : Host → Store → String → List ExecutionEvidence → Option (List Json)
unfolding earlier_values join_values
prior_values host store axis [] = some []
prior_values host store axis (e ∷ rest) =
    join_values (prior_values host store axis rest) (earlier_values host store axis e)

repeated : List Json → List Json → List Json
repeated prior [] = []
repeated prior (v ∷ values) =
    let rest = repeated prior values in if repeats v prior then v ∷ rest else rest

covers : List Json → List Json → Bool
covers xs [] = true
covers xs (y ∷ ys) = repeats y xs && covers xs ys

-- `set(left) == set(right)` of numbers.
same_set : List Json → List Json → Bool
unfolding covers
same_set left right = covers left right && covers right left

compare_controls : ParsedPlan → Checked (List Json) → Option (List Json) → SessionError ⊎ Validation
unfolding repeated same_set
compare_controls plan (rejected r) prior = inl (response_rejected r)
compare_controls plan (accepted controls) none = inl prior_payload_unavailable
compare_controls plan (accepted controls) (some prior) =
    if same_set (repeated prior plan.values) controls
    then inr (sweep_validated plan)
    else inl replication_mismatch

sweep_checked :
    Host
    → Store
    → PlannerDecision
    → List ExecutionEvidence
    → Option ParsedPlan
    → SessionError ⊎ Validation
unfolding compare_controls prior_values
sweep_checked host store decision history none = inl validation_failed
sweep_checked host store decision history (some plan) =
    compare_controls plan (replication_controls host decision)
      (prior_values host store plan.axis_path history)

-- The validation of an executable decision; only the two executable actions reach it.
unfoldable pub validate :
    Host → Services → Session → PlannerDecision → String → SessionError ⊎ Validation
unfolding single_validated sweep_checked
validate host services s decision payload = elim decision.action [
  | Response.single_override ↦
      single_validated (services.validate_single s.core.current_bundle payload)
  | _ ↦
      sweep_checked host s.store decision s.core.execution_history
        (services.validate_sweep s.core.current_bundle payload)
]
