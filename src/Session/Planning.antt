-- ===== src/Session/Planning.antt =====
-- `ResearchSessionController.__init__` and `prepare_planner_response` of
-- src/cuda_fractal_state_tool/research_session.py.
use cuda_fractal_engine_stat.Prelude.{
  ℕ, ◌+◌, pos, leb, Bool, true, false, not, ◌&&◌, Option, none, some, [], ◌∷◌, String, ◌⊎◌, inl,
  inr,
}
use cuda_fractal_engine_stat.Json.Document.{
  Json, null, bool, int, text, obj, Fields, end, field, set,
}
use cuda_fractal_engine_stat.Response.{
  ResearchAction, action_text, UnresolvedReason, Refusal, Host, Checked, accepted, rejected,
}
use cuda_fractal_engine_stat.Response
use cuda_fractal_engine_stat.Response.Planner.{
  PlannerDecision, parse_authorized, round_plan_document,
}
use cuda_fractal_engine_stat.Session.State.{
  SessionState, SessionDisposition, planning, plan_ready, ready_for_synthesis, running,
  answer_ready, unresolved, AgentBundle, binding_of, Validation, Brief, Core, SessionError,
  illegal_state, no_correction, correction_required, attempts_exhausted, no_payload,
  response_rejected, plan_refused, Step, ◌>>=◌, finish, fail, ensure, get_core, put, checked, Disk,
  Codec, write_evidence, packet_json, record_event, attempt_path, Services,
}
use cuda_fractal_engine_stat.Session.Validation.{validate}

abbrev pub is_planning : SessionState → Bool
is_planning planning = true
is_planning _ = false

-- The controller before its first event; the checks against the run's manifest are left out.
unfoldable pub initial : Brief → AgentBundle → Core
initial brief bundle = record {
  brief = brief;
  current_bundle = bundle;
  current_packet = binding_of bundle;
  current_packet_lineage = binding_of bundle ∷ [];
  state = planning;
  disposition = running;
  attempts_consumed = 0;
  prepared = none;
  last_execution = none;
  last_review = none;
  execution_history = [];
  review_history = [];
  terminal_planner_decision = none;
  correction_used = false;
  correction_available = false;
}

unfoldable pub start : Disk → Step (Unit {0})
start disk = do
  c ← get_core
  record_event disk "research_session_started"
      (field "initial_packet" (packet_json c.current_packet) end)

-- The guards on the one correction.
unfoldable pub claim_correction : Bool → Step (Unit {0})
claim_correction true = do
  c ← get_core
  _ ← ensure (not c.correction_used && c.correction_available) no_correction
  put (record c { correction_used = true })
claim_correction false = do c ← get_core; ensure (not c.correction_available) correction_required

unfoldable pub response_name : Bool → String
response_name true = "planner-response-correction.txt"
response_name false = "planner-response.txt"

abbrev pub reject_correction : Bool → Core → Core
reject_correction correction c = record c {
  correction_available = not correction && not c.correction_used;
}

-- The handlers of an exception: the correction becomes available at most once.
unfoldable pub response_refused :
    {X : Type 0} → Codec → Disk → Bool → ℕ → String → String → SessionError → Step X
response_refused codec disk correction attempt path sha e = do
  c ← get_core
  _ ← put (reject_correction correction c)
  _ ← record_event disk "planner_response_rejected" (
      field "attempt_number" (int (pos attempt)) (
        field "response_path" (text path) (
          field "response_sha256" (text sha) (
            field "error" (text (codec.describe e)) (
              field "correction_available"
                (bool (reject_correction correction c).correction_available) end)))))
  fail e

optional_text : Option String → Json
optional_text none = null
optional_text (some s) = text s

unfoldable pub validation_refused :
    {X : Type 0} → Codec → Disk → Bool → ℕ → PlannerDecision → SessionError → Step X
unfolding optional_text
validation_refused codec disk correction attempt decision e = do
  c ← get_core
  _ ← put (reject_correction correction c)
  _ ← record_event disk "planner_payload_validation_failed" (
      field "attempt_number" (int (pos attempt)) (
        field "action" (text (action_text decision.action)) (
          field "payload_sha256" (optional_text decision.payload_sha256) (
            field "error" (text (codec.describe e)) (
              field "correction_available"
                (bool (reject_correction correction c).correction_available) end)))))
  fail e

reason_text : Option UnresolvedReason → Json
reason_text none = null
reason_text (some Response.brief_insufficient) = text "BRIEF_INSUFFICIENT"
reason_text (some Response.authority_insufficient) = text "AUTHORITY_INSUFFICIENT"
reason_text (some Response.capability_unavailable) = text "CAPABILITY_UNAVAILABLE"
reason_text (some Response.question_out_of_scope) = text "QUESTION_OUT_OF_SCOPE"

-- A planner's decision that ends the research.
unfoldable pub conclude : Disk → SessionDisposition → PlannerDecision → Step PlannerDecision
unfolding reason_text
conclude disk disposition decision = do
  c ← get_core
  _ ← put (record c {
    terminal_planner_decision = some decision;
    state = ready_for_synthesis;
    disposition = disposition;
  })
  _ ← record_event disk "planner_terminal_decision" (
      field "action" (text (action_text decision.action)) (
        field "response_sha256" (text decision.source_response_sha256)
          (field "unresolved_reason" (reason_text decision.unresolved_reason) end)))
  finish decision

-- What the controller adds to the round plan.
sealed_plan : Core → Fields → Fields
sealed_plan c plan =
    set "research_brief_sha256" (text c.brief.sha256)
      (set "packet_binding" (packet_json c.current_packet) plan)

-- A validated experiment becomes the prepared one.
unfoldable pub seal_plan :
    Host → Codec → Disk → Bool → ℕ → PlannerDecision → String → Validation → Step PlannerDecision
unfolding sealed_plan
seal_plan host codec disk correction attempt decision payload validation = do
  c ← get_core
  document ← checked plan_refused (round_plan_document host decision attempt)
  let plan = sealed_plan c document
  let contract = codec.canonical_sha256 (obj plan)
  _ ← write_evidence disk (attempt_path attempt "payload.json") payload
  _ ← write_evidence disk (attempt_path attempt "round-plan.json") (codec.encode (obj plan))
  _ ← put (record c {
    prepared = some (record {
      attempt_number = attempt;
      decision = decision;
      round_plan = plan;
      round_plan_contract_sha256 = contract;
      validation = validation;
    });
    state = plan_ready;
  })
  _ ← record_event disk "research_plan_ready" (
      field "attempt_number" (int (pos attempt)) (
        field "action" (text (action_text decision.action)) (
          field "round_plan_contract_sha256" (text contract) (
            field "packet_binding" (packet_json c.current_packet)
              (field "correction_used" (bool correction) end)))))
  finish decision

unfoldable pub validated :
    Host
    → Codec
    → Disk
    → Bool
    → ℕ
    → PlannerDecision
    → String
    → SessionError ⊎ Validation
    → Step PlannerDecision
unfolding seal_plan validation_refused
validated host codec disk correction attempt decision payload (inl e) =
    validation_refused codec disk correction attempt decision e
validated host codec disk correction attempt decision payload (inr validation) =
    seal_plan host codec disk correction attempt decision payload validation

unfoldable pub with_payload : Option String → Step String
with_payload none = fail no_payload
with_payload (some payload) = finish payload

unfoldable pub prepare_experiment :
    Host → Codec → Services → Disk → Bool → ℕ → PlannerDecision → Step PlannerDecision
unfolding with_payload validated validate
prepare_experiment host codec services disk correction attempt decision = do
  c ← get_core
  _ ← ensure (leb attempt c.brief.maximum_experiment_rounds) attempts_exhausted
  payload ← with_payload decision.payload_text
  λ s.
      validated host codec disk correction attempt decision payload
        (validate host services s decision payload) s

unfoldable pub follow_action :
    Host
    → Codec
    → Services
    → Disk
    → Bool
    → ℕ
    → PlannerDecision
    → ResearchAction
    → Step PlannerDecision
unfolding conclude prepare_experiment
follow_action host codec services disk correction attempt decision Response.answer_ready =
    conclude disk answer_ready decision
follow_action host codec services disk correction attempt decision Response.unresolved_report =
    conclude disk unresolved decision
follow_action host codec services disk correction attempt decision _ =
    prepare_experiment host codec services disk correction attempt decision

-- A decision that has been parsed and authorised.
unfoldable pub follow_decision :
    Host → Codec → Services → Disk → Bool → ℕ → PlannerDecision → Step PlannerDecision
unfolding follow_action
follow_decision host codec services disk correction attempt decision =
    follow_action host codec services disk correction attempt decision decision.action

unfoldable pub judged :
    Host
    → Codec
    → Services
    → Disk
    → Bool
    → ℕ
    → String
    → Checked PlannerDecision
    → Step PlannerDecision
unfolding follow_decision response_refused response_name
judged host codec services disk correction attempt response (rejected r) =
    response_refused codec disk correction attempt (attempt_path attempt (response_name correction))
      (host.sha256 response) (response_rejected r)
judged host codec services disk correction attempt response (accepted decision) = do
  c ← get_core
  _ ← put (record c { correction_available = false })
  follow_decision host codec services disk correction attempt decision

unfoldable pub prepare_planner_response :
    Host → Codec → Services → Disk → String → Bool → Step PlannerDecision
unfolding claim_correction judged response_name
prepare_planner_response host codec services disk response correction = do
  c ← get_core
  _ ← ensure (is_planning c.state) illegal_state
  _ ← claim_correction correction
  let attempt = c.attempts_consumed + 1
  _ ← write_evidence disk (attempt_path attempt (response_name correction)) response
  judged host codec services disk correction attempt response
      (parse_authorized host c.brief.experiment_permissions response)
