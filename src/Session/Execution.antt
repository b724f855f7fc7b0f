-- ===== src/Session/Execution.antt =====
-- `execute_prepared` of src/cuda_fractal_state_tool/research_session.py.
use cuda_fractal_engine_stat.Prelude.{
  ◌+◌, pos, Option, none, some, List, [], ◌∷◌, String, ◌≡◌, refl,
}
use cuda_fractal_engine_stat.Json.Document.{
  Json, null, int, text, arr, obj, Items, nil, cons, Fields, end, field,
}
use cuda_fractal_engine_stat.Sweep.Run
use cuda_fractal_engine_stat.Sweep.Run.{Member, Proof, Status}
use cuda_fractal_engine_stat.Response
use cuda_fractal_engine_stat.Response.{ResearchAction, action_text}
use cuda_fractal_engine_stat.Session.State.{
  SessionState, plan_ready, executing, review_ready, AgentBundle, PreparedExperiment, SweepResult,
  ExecutionEvidence, Execution, returned, failed, illegal_state, Step, ◌>>=◌, finish, fail,
  get_core, put, Disk, Codec, write_evidence, record_event, attempt_path, Services,
}

unfoldable pub status_text : Status → String
status_text Run.replay_proven = "REPLAY_PROVEN"
status_text Run.proof_failed = "PROOF_FAILED"
status_text Run.no_effect_engine_emitted_base = "NO_EFFECT_ENGINE_EMITTED_BASE"
status_text Run.cancelled_during_proof = "CANCELLED_DURING_PROOF"
status_text Run.not_started_after_cancel = "NOT_STARTED_AFTER_CANCEL"
status_text Run.not_started_after_authority_drift = "NOT_STARTED_AFTER_AUTHORITY_DRIFT"
status_text Run.not_started_after_failure = "NOT_STARTED_AFTER_FAILURE"

sweep_disposition_text : Run.Disposition → String
sweep_disposition_text Run.complete = "COMPLETE"
sweep_disposition_text Run.partial_member_failures = "PARTIAL_MEMBER_FAILURES"
sweep_disposition_text Run.stopped_after_member_failure = "STOPPED_AFTER_MEMBER_FAILURE"
sweep_disposition_text Run.cancelled = "CANCELLED"
sweep_disposition_text Run.authority_drift = "AUTHORITY_DRIFT"
sweep_disposition_text Run.presentation_failed = "PRESENTATION_FAILED"

-- `member.proof_id`.
unfoldable pub member_proof_id : Member → Option String
member_proof_id m = elim m.proof_result [ none ↦ none | some proof ↦ some proof.proof_id ]

optional_text : Option String → Json
optional_text none = null
optional_text (some s) = text s

members_json : List Member → Items
unfolding status_text member_proof_id optional_text
members_json [] = nil
members_json (m ∷ rest) =
    cons
      (obj (
        field "index" (int (pos m.index)) (
          field "status" (text (status_text m.status))
            (field "proof_id" (optional_text (member_proof_id m)) end))))
      (members_json rest)

proof_json : Option Proof → Json
proof_json none = null
proof_json (some proof) = obj (
    field "proof_id" (text proof.proof_id)
      (field "status" (text proof.status) (field "receipt_sha256" (text proof.receipt_sha256) end)))

sweep_json : Option SweepResult → Json
unfolding sweep_disposition_text members_json
sweep_json none = null
sweep_json (some sweep) = obj (
    field "sweep_id" (text sweep.sweep_id) (
      field "disposition" (text (sweep_disposition_text sweep.disposition))
        (field "members" (arr (members_json sweep.members)) end)))

unfoldable pub reference_of : ExecutionEvidence → Fields
unfolding optional_text proof_json sweep_json
reference_of e = field "attempt_number" (int (pos e.attempt_number)) (
    field "action" (text (action_text e.action)) (
      field "round_plan_contract_sha256" (text e.round_plan_contract_sha256) (
        field "execution_error" (optional_text e.execution_error)
          (field "proof" (proof_json e.proof) (field "sweep" (sweep_json e.sweep) end)))))

evidence_of :
    PreparedExperiment → Option Proof → Option SweepResult → Option String → ExecutionEvidence
evidence_of p proof sweep error = record {
  attempt_number = p.attempt_number;
  action = p.decision.action;
  round_plan_contract_sha256 = p.round_plan_contract_sha256;
  proof = proof;
  sweep = sweep;
  execution_error = error;
}

single_evidence : PreparedExperiment → Execution Proof → ExecutionEvidence
single_evidence p (returned proof) = evidence_of p (some proof) none none
single_evidence p (failed message) = evidence_of p none none (some message)

sweep_evidence : PreparedExperiment → Execution SweepResult → ExecutionEvidence
sweep_evidence p (returned sweep) = evidence_of p none (some sweep) none
sweep_evidence p (failed message) = evidence_of p none none (some message)

run_action :
    Services → AgentBundle → PreparedExperiment → String → ResearchAction → ExecutionEvidence
unfolding single_evidence sweep_evidence
run_action services bundle p payload Response.single_override =
    single_evidence p (services.execute_single bundle payload)
run_action services bundle p payload _ = sweep_evidence p (services.execute_sweep bundle payload)

run_payload : Services → AgentBundle → PreparedExperiment → Option String → ExecutionEvidence
unfolding run_action
run_payload services bundle p none =
    evidence_of p none none (some "Prepared experiment payload is unavailable")
run_payload services bundle p (some payload) =
    run_action services bundle p payload p.decision.action

-- The experiment's run; an exception of the service is evidence too.
unfoldable pub run_prepared : Services → AgentBundle → PreparedExperiment → ExecutionEvidence
unfolding run_payload evidence_of
run_prepared services bundle p = run_payload services bundle p p.decision.payload_text

single_evidence-attempt :
    (p : PreparedExperiment) (r : Execution Proof)
    → (single_evidence p r).attempt_number ≡ p.attempt_number
unfolding single_evidence evidence_of
single_evidence-attempt p (returned proof) = refl
single_evidence-attempt p (failed message) = refl

sweep_evidence-attempt :
    (p : PreparedExperiment) (r : Execution SweepResult)
    → (sweep_evidence p r).attempt_number ≡ p.attempt_number
unfolding sweep_evidence evidence_of
sweep_evidence-attempt p (returned sweep) = refl
sweep_evidence-attempt p (failed message) = refl

run_action-attempt :
    (services : Services) (bundle : AgentBundle) (p : PreparedExperiment) (payload : String)
    (action : ResearchAction)
    → (run_action services bundle p payload action).attempt_number ≡ p.attempt_number
unfolding run_action
run_action-attempt services bundle p payload Response.single_override = single_evidence-attempt p _
run_action-attempt services bundle p payload Response.scalar_sweep = sweep_evidence-attempt p _
run_action-attempt services bundle p payload Response.answer_ready = sweep_evidence-attempt p _
run_action-attempt services bundle p payload Response.unresolved_report = sweep_evidence-attempt p _

run_payload-attempt :
    (services : Services) (bundle : AgentBundle) (p : PreparedExperiment) (payload : Option String)
    → (run_payload services bundle p payload).attempt_number ≡ p.attempt_number
unfolding run_payload evidence_of
run_payload-attempt services bundle p none = refl
run_payload-attempt services bundle p (some payload) =
    run_action-attempt services bundle p payload _

pub run_prepared-attempt :
    (services : Services) (bundle : AgentBundle) (p : PreparedExperiment)
    → (run_prepared services bundle p).attempt_number ≡ p.attempt_number
unfolding run_prepared
run_prepared-attempt services bundle p = run_payload-attempt services bundle p _

-- The prepared experiment of a session that may execute it.
unfoldable pub ready_experiment : SessionState → Option PreparedExperiment → Step PreparedExperiment
ready_experiment plan_ready (some p) = finish p
ready_experiment state p = fail illegal_state

unfoldable pub execute_prepared : Codec → Services → Disk → Step ExecutionEvidence
unfolding ready_experiment reference_of run_prepared
execute_prepared codec services disk = do
  c ← get_core
  p ← ready_experiment c.state c.prepared
  _ ← put (record c { attempts_consumed = c.attempts_consumed + 1; state = executing })
  _ ← record_event disk "experiment_attempt_started" (
      field "attempt_number" (int (pos p.attempt_number)) (
        field "action" (text (action_text p.decision.action))
          (field "round_plan_contract_sha256" (text p.round_plan_contract_sha256) end)))
  let e = run_prepared services c.current_bundle p
  _ ←
      write_evidence disk (attempt_path p.attempt_number "execution-ref.json")
        (codec.encode (obj (reference_of e)))
  d ← get_core
  _ ← put (record d {
    last_execution = some e;
    execution_history = e ∷ d.execution_history;
    state = review_ready;
  })
  _ ← record_event disk "experiment_attempt_finished" (reference_of e)
  finish e
