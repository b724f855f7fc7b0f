-- ===== src/Session/State.antt =====
-- The state of `ResearchSessionController` of src/cuda_fractal_state_tool/research_session.py, and the
-- steps that its operations are made of. The services, the disk and the host's functions are
-- parameters; a record of events and evidence is a run store.
use Prim.Native.String.{◌++◌ as append}
use cuda_fractal_engine_stat.Prelude.{
  ℕ, suc, pos, ltb, Bool, true, false, Option, none, some, List, [], ◌∷◌, String, if◌then◌else◌,
}
use cuda_fractal_engine_stat.Json.Document.{
  Json, null, bool, int, text, arr, obj, Items, nil, cons, Fields, end, field,
}
use cuda_fractal_engine_stat.Json.Paths.{decimal}
use cuda_fractal_engine_stat.Protocol.Round.{PacketAuthorityBinding}
use cuda_fractal_engine_stat.RunStore
use cuda_fractal_engine_stat.RunStore.{
  Encoding, Store, StoreError, record_transition, write_evidence_once,
}
use cuda_fractal_engine_stat.Sweep.Plan.{ParsedPlan}
use cuda_fractal_engine_stat.Sweep.Run.{Member, Disposition, Proof}
use cuda_fractal_engine_stat.Response.{ResearchAction, Refusal, Checked, accepted, rejected}
use cuda_fractal_engine_stat.Response.Permissions.{ExperimentPermissions}
use cuda_fractal_engine_stat.Response.Planner.{PlannerDecision}
use cuda_fractal_engine_stat.Response.Review.{ReviewDecision, ResultSelection}

pub data SessionState : Type 0 where
  planning plan_ready executing review_ready ready_for_synthesis : SessionState

pub data SessionDisposition : Type 0 where
  running answer_ready unresolved review_complete : SessionDisposition

unfoldable pub state_text : SessionState → String
state_text planning = "PLANNING"
state_text plan_ready = "PLAN_READY"
state_text executing = "EXECUTING"
state_text review_ready = "REVIEW_READY"
state_text ready_for_synthesis = "READY_FOR_SYNTHESIS"

unfoldable pub disposition_text : SessionDisposition → String
disposition_text running = "RUNNING"
disposition_text answer_ready = "ANSWER_READY"
disposition_text unresolved = "UNRESOLVED"
disposition_text review_complete = "REVIEW_COMPLETE"

-- What the controller reads of an `AgentBundle`.
pub record AgentBundle : Type 0 where
  pub packet_id : String
  pub manifest_sha256 : String
  pub finding_id : String

unfoldable pub binding_of : AgentBundle → PacketAuthorityBinding
binding_of b = record {
  packet_id = b.packet_id;
  manifest_sha256 = b.manifest_sha256;
  finding_id = b.finding_id;
}

-- A `StateOverrideMaterialization` by its changed paths, or a `ScalarSweepValidation` by its plan.
pub data Validation : Type 0 where
  materialized : List String → Validation
  sweep_validated : ParsedPlan → Validation

pub record PreparedExperiment : Type 0 where
  pub attempt_number : ℕ
  pub decision : PlannerDecision
  pub round_plan : Fields
  pub round_plan_contract_sha256 : String
  pub validation : Validation

pub record SweepResult : Type 0 where
  pub sweep_id : String
  pub disposition : Disposition
  pub members : List Member

pub record ExecutionEvidence : Type 0 where
  pub attempt_number : ℕ
  pub action : ResearchAction
  pub round_plan_contract_sha256 : String
  pub proof : Option Proof
  pub sweep : Option SweepResult
  pub execution_error : Option String

pub data Execution (X : Type 0) : Type 0 where
  returned : X → Execution X
  failed : String → Execution X

-- What the controller reads of the brief, with the digest of its document.
pub record Brief : Type 0 where
  pub experiment_permissions : ExperimentPermissions
  pub maximum_experiment_rounds : ℕ
  pub sha256 : String

pub record Core : Type 0 where
  pub brief : Brief
  pub current_bundle : AgentBundle
  pub current_packet : PacketAuthorityBinding
  -- The latest first.
  pub current_packet_lineage : List PacketAuthorityBinding
  pub state : SessionState
  pub disposition : SessionDisposition
  pub attempts_consumed : ℕ
  pub prepared : Option PreparedExperiment
  pub last_execution : Option ExecutionEvidence
  pub last_review : Option ReviewDecision
  -- The latest first, as in the history of reviews.
  pub execution_history : List ExecutionEvidence
  pub review_history : List ReviewDecision
  pub terminal_planner_decision : Option PlannerDecision
  pub correction_used : Bool
  pub correction_available : Bool

pub record Session : Type 0 where
  pub core : Core
  pub store : Store

pub data SessionError : Type 0 where
  illegal_state no_correction correction_required attempts_exhausted no_payload : SessionError
  response_rejected plan_refused review_rejected : Refusal → SessionError
  validation_failed no_effect replication_mismatch prior_payload_unavailable : SessionError
  outcomes_not_covered outcome_misclassified continues_after_last_attempt : SessionError
  result_not_proven promotion_failed binding_invalid : SessionError
  store_failed : StoreError → SessionError

pub data Outcome (X : Type 0) : Type 0 where
  done : X → Outcome X
  raised : SessionError → Outcome X

-- A step: an exception keeps what has been changed before it.
abbrev pub Step : Type 0 → Type 0
Step X = Session → Session × Outcome X

abbrev pub resume : {X Y : Type 0} → (X → Step Y) → Session × Outcome X → Session × Outcome Y
resume next (s, raised e) = (s, raised e)
resume next (s, done x) = next x s

infixl 5 ◌>>=◌
unfoldable pub ◌>>=◌ : {X Y : Type 0} → Step X → (X → Step Y) → Step Y
◌>>=◌ m next s = resume next (m s)

unfoldable pub finish : {X : Type 0} → X → Step X
finish x s = (s, done x)

unfoldable pub fail : {X : Type 0} → SessionError → Step X
fail e s = (s, raised e)

unfoldable pub ensure : Bool → SessionError → Step (Unit {0})
unfolding finish fail
ensure true e = finish tt
ensure false e = fail e

unfoldable pub get_core : Step Core
get_core s = (s, done s.core)

unfoldable pub put : Core → Step (Unit {0})
put c s = (record s { core = c }, done tt)

unfoldable pub checked : {X : Type 0} → (Refusal → SessionError) → Checked X → Step X
unfolding finish fail
checked wrap (accepted x) = finish x
checked wrap (rejected r) = fail (wrap r)

-- The time, the encoding of events and the atomic writes that succeed, by their paths, during one
-- operation.
pub record Disk : Type 0 where
  pub encoding : Encoding
  pub now : String
  pub writes : String → Bool

-- What the controller calls of the host: documents as canonical digests and as bytes, and the texts
-- of exceptions.
pub record Codec : Type 0 where
  pub canonical_sha256 : Json → String
  pub encode : Json → String
  pub describe : SessionError → String
  pub upper : String → String

unfoldable pub stored :
    {X Y : Type 0} → Y → Session → Store × RunStore.Result X → Session × Outcome Y
stored y s (store, RunStore.ok x) = (record s { store = store }, done y)
stored y s (store, RunStore.err e) = (record s { store = store }, raised (store_failed e))

-- `write_evidence_once_bytes` and, with encoded bytes, `write_evidence_once_json`.
unfoldable pub write_evidence : Disk → String → String → Step (Unit {0})
unfolding stored
write_evidence disk path payload s =
    stored tt s (write_evidence_once (disk.writes path) path payload s.store)

-- `PacketAuthorityBinding.to_dict`.
unfoldable pub packet_json : PacketAuthorityBinding → Json
packet_json b = obj (
    field "packet_id" (text b.packet_id) (
      field "manifest_sha256" (text b.manifest_sha256)
        (field "finding_id" (text b.finding_id) end)))

-- The packets from the earliest on.
lineage_json : List PacketAuthorityBinding → Items → Items
unfolding packet_json
lineage_json [] items = items
lineage_json (b ∷ rest) items = lineage_json rest (cons (packet_json b) items)

pending_json : Option PreparedExperiment → Json
pending_json none = null
pending_json (some p) = text p.round_plan_contract_sha256

-- `_projection`.
unfoldable pub projection : Core → Fields
unfolding state_text disposition_text packet_json lineage_json pending_json
projection c = field "state" (text (state_text c.state)) (
    field "disposition" (text (disposition_text c.disposition)) (
      field "attempts_consumed" (int (pos c.attempts_consumed)) (
        field "maximum_experiment_rounds" (int (pos c.brief.maximum_experiment_rounds)) (
          field "correction_used" (bool c.correction_used) (
            field "current_research_base" (packet_json c.current_packet) (
              field "current_packet_lineage" (arr (lineage_json c.current_packet_lineage nil))
                (field "pending_round_plan_contract_sha256" (pending_json c.prepared) end)))))))

-- `_record`.
unfoldable pub record_event : Disk → String → Fields → Step (Unit {0})
unfolding projection stored
record_event disk event_type payload s = stored tt s (
    record_transition disk.encoding disk.now event_type (obj payload) (obj (projection s.core))
      (disk.writes "active-turn.json") s.store)

-- f"attempts/{attempt_number:03d}/{name}"
unfoldable pub attempt_path : ℕ → String → String
unfolding decimal
attempt_path n name =
    let digits = decimal (suc n) n in
    let padded =
      if ltb n 10 then append "00" digits else if ltb n 100 then append "0" digits else digits in
    append "attempts/" (append padded (append "/" name))

-- The controller's services; a call that raises gives `none`, or the text of the exception.
pub record Services : Type 0 where
  pub validate_single : AgentBundle → String → Option (List String)
  pub validate_sweep : AgentBundle → String → Option ParsedPlan
  pub execute_single : AgentBundle → String → Execution Proof
  pub execute_sweep : AgentBundle → String → Execution SweepResult
  pub promote : AgentBundle → ResultSelection → ExecutionEvidence → Option AgentBundle
