-- ===== src/Session/Review.antt =====
-- `apply_review` of src/cuda_fractal_state_tool/research_session.py, and the check of its selected
-- result.
use cuda_fractal_engine_stat.Prelude.{
  ℕ, pos, leb, ◌==◌, Bool, false, not, ◌&&◌, Option, none, some, List, [], ◌∷◌, String, str_eq,
  if◌then◌else◌, is_empty_text,
}
use cuda_fractal_engine_stat.Json.Document.{
  Json, null, int, text, arr, obj, Items, nil, cons, end, field,
}
use cuda_fractal_engine_stat.Protocol.Round.{check_binding}
use cuda_fractal_engine_stat.Sweep.Run.{Member, Proof}
use cuda_fractal_engine_stat.Response
use cuda_fractal_engine_stat.Response.{
  ResearchAction, ReviewGate, complete_research, continue_retain_base, continue_promote_result,
  gate_text, NextActionClass, Classification, Host,
}
use cuda_fractal_engine_stat.Response.Review.{
  ResultSelection, nothing, single, sweep_member, ObservationOutcome, ReviewDecision, continues,
  parse_review_response,
}
use cuda_fractal_engine_stat.Session.Execution.{status_text, member_proof_id}
use cuda_fractal_engine_stat.Session.State.{
  SessionState, SessionDisposition, planning, review_ready, ready_for_synthesis, unresolved,
  review_complete, AgentBundle, binding_of, SweepResult, ExecutionEvidence, illegal_state,
  review_rejected, continues_after_last_attempt, result_not_proven, promotion_failed,
  binding_invalid, Step, ◌>>=◌, finish, fail, ensure, get_core, put, checked, Disk, Codec,
  write_evidence, packet_json, record_event, attempt_path, Services,
}
use cuda_fractal_engine_stat.Session.Outcomes.{validate_outcomes}

unfoldable pub find_member : ℕ → List Member → Option Member
find_member index [] = none
find_member index (m ∷ rest) = if m.index == index then some m else find_member index rest

-- A member whose status is REPLAY_PROVEN, with a proof.
unfoldable pub member_proven : Option Member → Bool
unfolding member_proof_id status_text
member_proven none = false
member_proven (some m) =
    str_eq (status_text m.status) "REPLAY_PROVEN"
    && elim (member_proof_id m) [ none ↦ false | some proof_id ↦ not (is_empty_text proof_id) ]

unfoldable pub proof_selected : String → Option Proof → Bool
proof_selected proof_id none = false
proof_selected proof_id (some proof) =
    str_eq proof.status "replay_proven" && str_eq proof.proof_id proof_id

unfoldable pub member_selected : String → ℕ → Option SweepResult → Bool
unfolding find_member member_proven
member_selected sweep_id index none = false
member_selected sweep_id index (some sweep) =
    str_eq sweep.sweep_id sweep_id && member_proven (find_member index sweep.members)

-- `_validate_selected_result`: whether it accepts the selection.
unfoldable pub selected_proven : ResultSelection → ExecutionEvidence → Bool
unfolding proof_selected member_selected
selected_proven nothing e = false
selected_proven (single proof_id) e = proof_selected proof_id e.proof
selected_proven (sweep_member sweep_id index) e = member_selected sweep_id index e.sweep

unfoldable pub check_promotion : ReviewGate → ResultSelection → ExecutionEvidence → Step (Unit {0})
check_promotion continue_promote_result selected e =
    ensure (selected_proven selected e) result_not_proven
check_promotion _ selected e = finish tt

classification_text : Classification → String
classification_text Response.supported = "SUPPORTED"
classification_text Response.contradicted = "CONTRADICTED"
classification_text Response.censored_out_of_frame = "CENSORED_OUT_OF_FRAME"
classification_text Response.unobservable = "UNOBSERVABLE"
classification_text Response.execution_failed = "EXECUTION_FAILED"

outcomes_json : List ObservationOutcome → Items
unfolding classification_text
outcomes_json [] = nil
outcomes_json (o ∷ rest) =
    cons
      (obj (
        field "result_identity" (text o.result_identity) (
          field "classification" (text (classification_text o.classification))
            (field "assessment" (text o.assessment) end))))
      (outcomes_json rest)

selection_json : ResultSelection → Json
selection_json nothing = obj (
    field "kind" (text "none")
      (field "proof_id" null (field "sweep_id" null (field "member_index" null end))))
selection_json (single proof_id) = obj (
    field "kind" (text "single")
      (field "proof_id" (text proof_id) (field "sweep_id" null (field "member_index" null end))))
selection_json (sweep_member sweep_id index) = obj (
    field "kind" (text "sweep_member") (
      field "proof_id" null
        (field "sweep_id" (text sweep_id) (field "member_index" (int (pos index)) end))))

next_action_text : NextActionClass → String
next_action_text Response.state_experiment = "STATE_EXPERIMENT"
next_action_text Response.analysis_only = "ANALYSIS_ONLY"
next_action_text Response.NextActionClass.answer_ready = "ANSWER_READY"
next_action_text Response.unavailable = "UNAVAILABLE"

review_json : ReviewDecision → ExecutionEvidence → Json
unfolding outcomes_json selection_json next_action_text
review_json d e = obj (
    field "gate" (text (gate_text d.gate)) (
      field "source_response_sha256" (text d.source_response_sha256) (
        field "round_plan_contract_sha256" (text e.round_plan_contract_sha256) (
          field "prediction_outcome" (text d.prediction_outcome) (
            field "evidence_assessment" (text d.evidence_assessment) (
              field "observation_outcomes" (arr (outcomes_json d.observation_outcomes)) (
                field "selected_result" (selection_json d.selected_result) (
                  field "next_action_class" (text (next_action_text d.next_action_class)) (
                    field "next_research_step" (text d.next_research_step) (
                      field "hostile_self_review_conclusion" (text d.hostile_self_review_conclusion)
                        end))))))))))

-- The execution that a session may review.
unfoldable pub reviewable : SessionState → Option ExecutionEvidence → Step ExecutionEvidence
reviewable review_ready (some e) = finish e
reviewable state e = fail illegal_state

unfoldable pub promoted_bundle : Option AgentBundle → Step AgentBundle
promoted_bundle none = fail promotion_failed
promoted_bundle (some b) = finish b

-- The result becomes the base of the next round. The bundle is assigned before its binding is made.
unfoldable pub promote : Services → ResultSelection → ExecutionEvidence → Step (Unit {0})
unfolding promoted_bundle
promote services selected e = do
  c ← get_core
  bundle ← promoted_bundle (services.promote c.current_bundle selected e)
  _ ← put (record c { current_bundle = bundle })
  _ ← ensure (check_binding (binding_of bundle)) binding_invalid
  put (record c {
    current_bundle = bundle;
    current_packet = binding_of bundle;
    current_packet_lineage = binding_of bundle ∷ c.current_packet_lineage;
    prepared = none;
    state = planning;
  })

unfoldable pub retain : Step (Unit {0})
retain = do c ← get_core; put (record c { prepared = none; state = planning })

unfoldable pub close_session : SessionDisposition → Step (Unit {0})
close_session disposition = do
  c ← get_core
  put (record c { prepared = none; state = ready_for_synthesis; disposition = disposition })

unfoldable pub apply_action :
    Services → ReviewDecision → ExecutionEvidence → ReviewGate → Step (Unit {0})
unfolding promote retain close_session
apply_action services d e continue_promote_result = promote services d.selected_result e
apply_action services d e continue_retain_base = retain
apply_action services d e complete_research = close_session review_complete
apply_action services d e Response.unresolved = close_session unresolved

unfoldable pub apply_gate : Services → ReviewDecision → ExecutionEvidence → Step (Unit {0})
unfolding apply_action
apply_gate services d e = apply_action services d e d.gate

unfoldable pub apply_review : Host → Codec → Services → Disk → String → Step ReviewDecision
unfolding reviewable validate_outcomes check_promotion review_json apply_gate
apply_review host codec services disk response = do
  c ← get_core
  e ← reviewable c.state c.last_execution
  d ← checked review_rejected (parse_review_response host response)
  _ ← validate_outcomes codec d e
  _ ←
      ensure (not (continues d.gate && leb c.brief.maximum_experiment_rounds c.attempts_consumed))
        continues_after_last_attempt
  _ ← check_promotion d.gate d.selected_result e
  _ ← write_evidence disk (attempt_path e.attempt_number "review-response.txt") response
  _ ←
      write_evidence disk (attempt_path e.attempt_number "review-decision.json")
        (codec.encode (review_json d e))
  _ ← apply_gate services d e
  after ← get_core
  _ ← put (record after { last_review = some d; review_history = d ∷ after.review_history })
  _ ← record_event disk "research_review_applied" (
      field "attempt_number" (int (pos e.attempt_number)) (
        field "gate" (text (gate_text d.gate)) (
          field "round_plan_contract_sha256" (text e.round_plan_contract_sha256)
            (field "current_research_base" (packet_json after.current_packet) end))))
  finish d
