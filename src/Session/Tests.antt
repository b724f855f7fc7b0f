-- ===== src/Session/Tests.antt =====
-- The controller's theorems at a session that promotes a single result, and at one whose correction
-- cannot be written.
use cuda_fractal_engine_stat.Prelude.{
  ◌≡◌, refl, true, false, none, some, [], ◌∷◌, String, strip, split_lines,
}
use cuda_fractal_engine_stat.Json.Document.{
  text, arr, obj, nil, cons, end, field, lookup, get, keys,
}
use cuda_fractal_engine_stat.Sweep.Run.{Proof}
use cuda_fractal_engine_stat.RunStore.{
  Encoding, empty, evidence_write_failed, find_evidence, write_evidence_once, read_events,
  record_transition, write_active_turn,
}
use cuda_fractal_engine_stat.Response.{
  Host, single_override, continue_promote_result, state_experiment, supported, gate_of,
  classification_of, next_action_of,
}
use cuda_fractal_engine_stat.Response.Permissions.{starts_with}
use cuda_fractal_engine_stat.Response.Review.{
  ReviewDecision, single, parse_review_response, review_of, parse_outcomes, parse_selection,
}
use cuda_fractal_engine_stat.Response.Planner.{first_word}
use cuda_fractal_engine_stat.Response.Sections.{
  contains_fence, sections_before_fence, before_fence, skip_blank, parse_sections, parse_section,
  take_content, starts_next, before_colon, after_colon, field_of, join_lines,
}
use cuda_fractal_engine_stat.Override.Draft.Parameters.{has_exactly}
use cuda_fractal_engine_stat.Json.Paths.{decimal}
use cuda_fractal_engine_stat.Protocol.Round.{check_binding}
use cuda_fractal_engine_stat.Session.State.{
  SessionDisposition, planning, review_ready, AgentBundle, binding_of, ExecutionEvidence, returned,
  failed, Brief, Session, store_failed, done, raised, Disk, Codec, Services, attempt_path, ◌>>=◌,
  get_core, finish, fail, ensure, put, checked, stored, write_evidence, record_event,
}
use cuda_fractal_engine_stat.Session.Planning.{initial, prepare_planner_response}
use cuda_fractal_engine_stat.Session.Review.{
  apply_review, reviewable, check_promotion, selected_proven, proof_selected, apply_gate,
  apply_action, promote, promoted_bundle,
}
use cuda_fractal_engine_stat.Session.Outcomes.{
  validate_outcomes, same_identities, all_admitted, expected_results, admits, classified,
}
use cuda_fractal_engine_stat.Session.Invariant.{IsSound}
use cuda_fractal_engine_stat.Session.Runs.{
  plan, execute, review, call_all, call_all-initial-IsSound,
}
use cuda_fractal_engine_stat.Session.Promotion.{Follows, apply_review-done}
use cuda_fractal_engine_stat.Session.Stranded.{
  claimed, refusal_of, correction_path, correction_unwritten-refuses,
}

abbrev digest : String
digest = "0123456789abcdef0123456789abcdef0123456789abcdef0123456789abcdef"

abbrev pub base_bundle : AgentBundle
base_bundle = record { packet_id = "packet-1"; manifest_sha256 = digest; finding_id = "finding-1" }

abbrev next_bundle : AgentBundle
next_bundle = record { packet_id = "packet-2"; manifest_sha256 = digest; finding_id = "finding-2" }

abbrev pub brief : Brief
brief = record {
  experiment_permissions = record {
    domains = "params" ∷ [];
    allowed_paths = none;
    allow_scalar_sweep = false;
  };
  maximum_experiment_rounds = 2;
  sha256 = "brief";
}

abbrev proof : Proof
proof = record {
  status = "replay_proven";
  proof_id = "p1";
  receipt_sha256 = "receipt";
  message = none;
}

abbrev pub services : Services
services = record {
  validate_single = λ bundle payload. some ("params.alpha" ∷ []);
  validate_sweep = λ bundle payload. none;
  execute_single = λ bundle payload. returned proof;
  execute_sweep = λ bundle payload. failed "unused";
  promote = λ bundle selected evidence. some next_bundle;
}

abbrev encoding : Encoding
encoding = record { print = λ event. "event"; decode = λ s. none }

abbrev pub disk : Disk
disk = record { encoding = encoding; now = "t0"; writes = λ path. true }

abbrev full_disk : Disk
full_disk = record { encoding = encoding; now = "t1"; writes = λ path. false }

abbrev pub host : Host
host = record {
  decode = λ s. some (
      arr (
        cons
          (obj (
            field "result_identity" (text "single:p1") (
              field "classification" (text "SUPPORTED")
                (field "assessment" (text "It held.") end))))
          nil));
  decode_loosely = λ s. none;
  sha256 = λ s. "sha";
  parse_int = λ s. none;
}

abbrev pub codec : Codec
codec = record {
  canonical_sha256 = λ document. "contract";
  encode = λ document. "document";
  describe = λ e. "error";
  upper = λ s. "REPLAY_PROVEN";
}

call_all-initial-IsSound_example :
    IsSound
      (call_all host codec
        (plan services disk "RESEARCH_ACTION: ANSWER_READY" false
          ∷ execute services full_disk
          ∷ review services disk "RESEARCH_GATE: UNRESOLVED"
          ∷ [])
        (record { core = initial brief base_bundle; store = empty })).core
call_all-initial-IsSound_example = call_all-initial-IsSound host codec brief base_bundle empty (
    plan services disk "RESEARCH_ACTION: ANSWER_READY" false
    ∷ execute services full_disk
    ∷ review services disk "RESEARCH_GATE: UNRESOLVED"
    ∷ [])

abbrev executed : ExecutionEvidence
executed = record {
  attempt_number = 1;
  action = single_override;
  round_plan_contract_sha256 = "contract";
  proof = some proof;
  sweep = none;
  execution_error = none;
}

abbrev reviewing : Session
reviewing = record {
  core = record {
    brief = brief;
    current_bundle = base_bundle;
    current_packet = binding_of base_bundle;
    current_packet_lineage = binding_of base_bundle ∷ [];
    state = review_ready;
    disposition = SessionDisposition.running;
    attempts_consumed = 1;
    prepared = none;
    last_execution = some executed;
    last_review = none;
    execution_history = executed ∷ [];
    review_history = [];
    terminal_planner_decision = none;
    correction_used = false;
    correction_available = false;
  };
  store = empty;
}

abbrev promotion_text : String
promotion_text =
    "RESEARCH_GATE: CONTINUE_PROMOTE_RESULT\nPrediction outcome: met\nEvidence assessment: good\nObservation outcomes: []\nSelected result: single:p1\nNext action class: STATE_EXPERIMENT\nNext research step: vary it\nHostile self-review conclusion: sound"

abbrev promotion : ReviewDecision
promotion = record {
  gate = continue_promote_result;
  source_text = promotion_text;
  source_response_sha256 = "sha";
  prediction_outcome = "met";
  evidence_assessment = "good";
  observation_outcomes =
      record { result_identity = "single:p1"; classification = supported; assessment = "It held." }
      ∷ [];
  selected_result = single "p1";
  next_action_class = state_experiment;
  next_research_step = "vary it";
  hostile_self_review_conclusion = "sound";
}

promotion_applied :
    (apply_review host codec services disk promotion_text reviewing).1 ≡ done promotion
unfolding apply_review ◌>>=◌ get_core finish fail ensure put checked reviewable validate_outcomes
    same_identities all_admitted expected_results admits classified check_promotion selected_proven
    proof_selected write_evidence stored write_evidence_once find_evidence attempt_path decimal
    apply_gate apply_action promote promoted_bundle check_binding binding_of record_event
    record_transition read_events write_active_turn parse_review_response review_of contains_fence
    starts_with first_word skip_blank split_lines strip gate_of sections_before_fence before_fence
    parse_sections parse_section take_content starts_next before_colon after_colon field_of
    join_lines classification_of next_action_of has_exactly get lookup keys parse_outcomes
    parse_selection
promotion_applied = refl

apply_review-done_example :
    Follows services reviewing.core
      (single "p1")
      continue_promote_result
      (apply_review host codec services disk promotion_text reviewing).0.core
apply_review-done_example =
    apply_review-done host codec services disk promotion_text reviewing promotion promotion_applied

abbrev corrected : Session
corrected = record {
  core = record (initial brief base_bundle) { correction_available = true };
  store = empty;
}

corrected_is_planning : corrected.core.state ≡ planning
unfolding initial
corrected_is_planning = refl

corrected_is_unused : corrected.core.correction_used ≡ false
unfolding initial
corrected_is_unused = refl

nothing_written : find_evidence (correction_path corrected) corrected.store.evidence ≡ none
unfolding find_evidence
nothing_written = refl

correction_unwritten-refuses_example :
    (prepare_planner_response host codec services full_disk "first" true corrected
      ≡ (claimed corrected, raised (store_failed evidence_write_failed)))
    × (prepare_planner_response host codec services disk "second" false (claimed corrected)
        ≡ (claimed corrected, raised (refusal_of false)))
correction_unwritten-refuses_example =
    correction_unwritten-refuses host codec services services full_disk disk "first" "second" false
      corrected corrected_is_planning corrected_is_unused refl refl nothing_written
