-- ===== src/Runner.antt =====
-- The rounds of `ResearchSessionRunner.run` of src/cuda_fractal_state_tool/research_runner.py over the
-- controller of `Session`. What a round calls of the provider and of the builders of contexts is a
-- parameter of that round, and may change the run's store.
pub mod Held
pub mod Consumed
pub mod Rounds
pub mod Tests
use Prim.Native.String.{◌++◌ as append}
use cuda_fractal_engine_stat.Prelude.{
  ℕ, suc, ◌+◌, ltb, Bool, true, false, not, Option, none, some, List, [], ◌∷◌, String,
  if◌then◌else◌,
}
use cuda_fractal_engine_stat.Json.Paths.{decimal}
use cuda_fractal_engine_stat.Sweep.Run.{Disposition, authority_drift}
use cuda_fractal_engine_stat.RunStore.{Store}
use cuda_fractal_engine_stat.Research.Gate.{Stage, planner, review, correction}
use cuda_fractal_engine_stat.Response
use cuda_fractal_engine_stat.Response.{ResearchAction, Host}
use cuda_fractal_engine_stat.Response.Planner.{PlannerDecision}
use cuda_fractal_engine_stat.Session.State.{
  SessionState, planning, ready_for_synthesis, AgentBundle, SweepResult, ExecutionEvidence, Core,
  Session, SessionError, Outcome, done, raised, Step, Disk, Codec, Services,
}
use cuda_fractal_engine_stat.Session.Planning.{is_planning, prepare_planner_response}
use cuda_fractal_engine_stat.Session.Execution.{execute_prepared}
use cuda_fractal_engine_stat.Session.Review.{apply_review}

-- A dispatch, with the response that a correction is about and its error.
pub record Request : Type 0 where
  pub stage : Stage
  pub turn_id : String
  pub bundle : AgentBundle
  pub planner_may_execute : Bool
  pub correction_available : Bool
  pub alternate_communication_required : Bool
  pub refused : Option (SessionError × String)

-- An exception: `DispatchAuthorizationRejected`, one of the controller's, or another one.
pub data Interruption : Type 0 where
  authorization_rejected : String → Interruption
  controller_failed : SessionError → Interruption
  other_failed : String → Interruption

pub data Result (X : Type 0) : Type 0 where
  ok : X → Result X
  interrupted : Interruption → Result X

-- The sealing of the prior ledger with the planner's context, the review's context, the provider, and
-- the controller's services and disk, during one round.
pub record World : Type 0 where
  pub alternate_required : Bool
  pub planner_context : Core → Store → Store × Result (Unit {0})
  pub review_context : Core → ExecutionEvidence → Store → Store × Result (Unit {0})
  pub dispatch : Request → Store → Store × Result String
  pub services : Stage → Services
  pub disk : Stage → Disk
  pub execution_services : Services
  pub execution_disk : Disk

abbrev pub Act : Type 0 → Type 0
Act X = Session → Session × Result X

abbrev pub resume_act : {X Y : Type 0} → (X → Act Y) → Session × Result X → Session × Result Y
resume_act next (s, interrupted e) = (s, interrupted e)
resume_act next (s, ok x) = next x s

infixl 5 ◌>>=◌
unfoldable pub ◌>>=◌ : {X Y : Type 0} → Act X → (X → Act Y) → Act Y
◌>>=◌ m next s = resume_act next (m s)

unfoldable pub finish : {X : Type 0} → X → Act X
finish x s = (s, ok x)

unfoldable pub get_core : Act Core
get_core s = (s, ok s.core)

-- A call that sees the run's store, and not the controller's fields.
unfoldable pub outside : {X : Type 0} → (Store → Store × Result X) → Act X
outside call s = let (store, r) = call s.store in (record s { store = store }, r)

abbrev pub outcome_result : {X : Type 0} → Session × Outcome X → Session × Result X
outcome_result (s, done x) = (s, ok x)
outcome_result (s, raised e) = (s, interrupted (controller_failed e))

unfoldable pub controller : {X : Type 0} → Step X → Act X
controller m s = outcome_result (m s)

-- f"{prefix}-{n:02d}"
unfoldable pub turn_id : String → ℕ → String
unfolding decimal
turn_id prefix n =
    let digits = decimal (suc n) n in
    append prefix (append "-" (if ltb n 10 then append "0" digits else digits))

unfoldable pub planner_request : World → Core → Request
unfolding turn_id
planner_request w c = record {
  stage = planner;
  turn_id = turn_id "planner" (c.attempts_consumed + 1);
  bundle = c.current_bundle;
  planner_may_execute = ltb c.attempts_consumed c.brief.maximum_experiment_rounds;
  correction_available = not c.correction_used;
  alternate_communication_required = w.alternate_required;
  refused = none;
}

unfoldable pub correction_request : World → Core → SessionError → String → Request
unfolding turn_id
correction_request w c e response = record {
  stage = correction;
  turn_id = turn_id "correction" (c.attempts_consumed + 1);
  bundle = c.current_bundle;
  planner_may_execute = true;
  correction_available = false;
  alternate_communication_required = w.alternate_required;
  refused = some (e, response);
}

unfoldable pub review_request : World → Core → ExecutionEvidence → Request
unfolding turn_id
review_request w c e = record {
  stage = review;
  turn_id = turn_id "review" e.attempt_number;
  bundle = c.current_bundle;
  planner_may_execute = false;
  correction_available = false;
  alternate_communication_required = w.alternate_required;
  refused = none;
}

-- The one correction of a response that the controller refused.
unfoldable pub correct : Host → Codec → World → String → SessionError → Act PlannerDecision
unfolding correction_request
correct host codec w response e = do
  c ← get_core
  corrected ← outside (w.dispatch (correction_request w c e response))
  controller (
      prepare_planner_response host codec (w.services correction) (w.disk correction) corrected
        true)

unfoldable pub recovered :
    Host
    → Codec
    → World
    → String
    → Session × Outcome PlannerDecision
    → Session × Result PlannerDecision
unfolding correct
recovered host codec w response (s, done decision) = (s, ok decision)
recovered host codec w response (s, raised e) =
    let again = correct host codec w response e s in
    if s.core.correction_available then again else (s, interrupted (controller_failed e))

unfoldable pub prepare_or_correct : Host → Codec → World → String → Act PlannerDecision
unfolding recovered
prepare_or_correct host codec w response s =
    recovered host codec w response
      (prepare_planner_response host codec (w.services planner) (w.disk planner) response false s)

-- How a round ends.
pub data RoundEnd : Type 0 where
  concluded reviewed blocked : RoundEnd

is_drift : Disposition → Bool
is_drift authority_drift = true
is_drift _ = false

-- `_execution_blocker`: whether there is one.
unfoldable pub execution_blocked : Option SweepResult → Bool
unfolding is_drift
execution_blocked none = false
execution_blocked (some sweep) = is_drift sweep.disposition

unfoldable pub review_execution : Host → Codec → World → ExecutionEvidence → Bool → Act RoundEnd
unfolding review_request
review_execution host codec w e true = finish blocked
review_execution host codec w e false = do
  c ← get_core
  _ ← outside (w.review_context c e)
  response ← outside (w.dispatch (review_request w c e))
  _ ← controller (apply_review host codec (w.services review) (w.disk review) response)
  finish reviewed

unfoldable pub follow : Host → Codec → World → ResearchAction → Act RoundEnd
unfolding execution_blocked review_execution
follow host codec w Response.answer_ready = finish concluded
follow host codec w Response.unresolved_report = finish concluded
follow host codec w _ = do
  e ← controller (execute_prepared codec w.execution_services w.execution_disk)
  review_execution host codec w e (execution_blocked e.sweep)

-- One round of the loop.
unfoldable pub run_round : Host → Codec → World → Act RoundEnd
unfolding planner_request prepare_or_correct follow
run_round host codec w = do
  c ← get_core
  _ ← outside (w.planner_context c)
  response ← outside (w.dispatch (planner_request w c))
  decision ← prepare_or_correct host codec w response
  follow host codec w decision.action

-- Where the loop leaves the run; `out_of_worlds` where the list has no world for the next round.
pub data LoopEnd : Type 0 where
  at_synthesis not_at_synthesis blocked_by_drift out_of_worlds : LoopEnd

-- The check after the loop.
unfoldable pub boundary : SessionState → LoopEnd
boundary ready_for_synthesis = at_synthesis
boundary _ = not_at_synthesis

-- What follows a round.
unfoldable pub continue_with : Act LoopEnd → Session × Result RoundEnd → Session × Result LoopEnd
unfolding boundary
continue_with later (s, interrupted e) = (s, interrupted e)
continue_with later (s, ok concluded) = (s, ok (boundary s.core.state))
continue_with later (s, ok blocked) = (s, ok blocked_by_drift)
continue_with later (s, ok reviewed) = later s

-- The loop, with one world for each round.
unfoldable pub run_rounds : Host → Codec → List World → Act LoopEnd
unfolding boundary continue_with run_round
run_rounds host codec [] s =
    if is_planning s.core.state then (s, ok out_of_worlds) else (s, ok (boundary s.core.state))
run_rounds host codec (w ∷ worlds) s =
    let round = continue_with (run_rounds host codec worlds) (run_round host codec w s) in
    if is_planning s.core.state then round else (s, ok (boundary s.core.state))
