-- ===== src/Runner/Rounds.antt =====
-- The rounds of a run end: `ResearchSessionRunner.run` of
-- src/cuda_fractal_state_tool/research_runner.py.
use mathlib.Core.Path.{subst}
use cuda_fractal_engine_stat.Prelude.{
  ℕ, ◌+◌, ◌≤◌, Bool, true, false, List, [], ◌∷◌, String, length, inl, inr, ◌≡◌, refl, sym, arith,
  if◌then◌else◌,
}
use cuda_fractal_engine_stat.RunStore.{Store}
use cuda_fractal_engine_stat.Research.Gate.{planner, review, correction}
use cuda_fractal_engine_stat.Response
use cuda_fractal_engine_stat.Response.{ResearchAction, Host}
use cuda_fractal_engine_stat.Response.Planner.{PlannerDecision}
use cuda_fractal_engine_stat.Session.State.{
  SessionState, planning, plan_ready, executing, review_ready, ready_for_synthesis, AgentBundle,
  Brief, ExecutionEvidence, Core, Session, SessionError, Outcome, done, raised, Step, Codec,
}
use cuda_fractal_engine_stat.Session.Planning.{is_planning, initial}
use cuda_fractal_engine_stat.Session.Execution.{execute_prepared}
use cuda_fractal_engine_stat.Session.Hoare.{Leads, Ends}
use cuda_fractal_engine_stat.Session.Invariant.{IsSound, Phase-at}
use cuda_fractal_engine_stat.Session.Invariant.Planning.{prepare-Leads}
use cuda_fractal_engine_stat.Session.Invariant.Execution.{execute_prepared-Leads}
use cuda_fractal_engine_stat.Session.Invariant.Review.{apply_review-Leads}
use cuda_fractal_engine_stat.Session.Runs.{initial-IsSound}
use cuda_fractal_engine_stat.Runner.{
  World, Act, Result, ok, interrupted, ◌>>=◌, resume_act, finish, get_core, outside, controller,
  outcome_result, correct, recovered, prepare_or_correct, RoundEnd, concluded, reviewed, blocked,
  review_execution, execution_blocked, follow, run_round, LoopEnd, at_synthesis, not_at_synthesis,
  blocked_by_drift, out_of_worlds, boundary, continue_with, run_rounds,
}
use cuda_fractal_engine_stat.Runner.Held.{Held, Settled, prepare-Held}
use cuda_fractal_engine_stat.Runner.Consumed.{
  AnyEnd, Turned, execute_prepared-Held, apply_review-Turned,
}

-- What an act guarantees of its result where it is not interrupted, and the invariant where it is.
abbrev ActEnds : {X : Type 0} → (X → Core → Type 0) → Session × Result X → Type 0
ActEnds Q (s, ok x) = Q x s.core
ActEnds Q (s, interrupted e) = IsSound s.core

record Yields {X : Type 0} (d : Core) (m : Act X) (Q : X → Core → Type 0) : Type 0 where
  run : (store : Store) → ActEnds Q (m (record { core = d; store = store }))

resume-ActEnds :
    {X Y : Type 0} (Q : X → Core → Type 0) (R : Y → Core → Type 0) (next : X → Act Y)
    (r : Session × Result X)
    → ActEnds Q r
    → ((x : X) (c : Core) → Q x c → Yields c (next x) R)
    → ActEnds R (resume_act next r)
resume-ActEnds Q R next (s, ok x) h k = (k x s.core h).run s.store
resume-ActEnds Q R next (s, interrupted e) h k = h

outside-ActEnds :
    {X Y : Type 0} (R : Y → Core → Type 0) (next : X → Act Y) (d : Core) (r : Store × Result X)
    → IsSound d
    → ((x : X) → Yields d (next x) R)
    → ActEnds R (resume_act next (record { core = d; store = r.0 }, r.1))
outside-ActEnds R next d (store, ok x) sound k = (k x).run store
outside-ActEnds R next d (store, interrupted e) sound k = sound

both-ActEnds :
    {X : Type 0} (I : Core → Type 0) (Q R : X → Core → Type 0) (r : Session × Outcome X)
    → Ends I Q r
    → Ends IsSound R r
    → ActEnds (λ x c. Q x c × R x c) (outcome_result r)
both-ActEnds I Q R (s, done x) h k = (h, k)
both-ActEnds I Q R (s, raised e) h k = k

module _ {Y : Type 0} {R : Y → Core → Type 0} {d : Core} where
  act-bind :
      {X : Type 0} (Q : X → Core → Type 0) (m : Act X) (next : X → Act Y)
      → Yields d m Q
      → ((x : X) (c : Core) → Q x c → Yields c (next x) R)
      → Yields d (m >>= next) R
  unfolding ◌>>=◌
  act-bind Q m next h k = record {
    run = λ store. resume-ActEnds Q R next (m (record { core = d; store = store })) (h.run store) k;
  }

  core-then : (next : Core → Act Y) → Yields d (next d) R → Yields d (get_core >>= next) R
  unfolding ◌>>=◌ get_core
  core-then next h = record { run = λ store. h.run store }

  outside-then :
      {X : Type 0} (call : Store → Store × Result X) (next : X → Act Y)
      → IsSound d
      → ((x : X) → Yields d (next x) R)
      → Yields d (outside call >>= next) R
  unfolding ◌>>=◌ outside
  outside-then call next sound k = record {
    run = λ store. outside-ActEnds R next d (call store) sound k;
  }

  finish-Yields : (y : Y) → R y d → Yields d (finish y) R
  unfolding finish
  finish-Yields y h = record { run = λ store. h }

-- An operation of the controller keeps its invariant besides what it guarantees.
controller-Yields :
    {X : Type 0} (I : Core → Type 0) (Q R : X → Core → Type 0) (d : Core) (m : Step X)
    → Leads I d m Q
    → Leads IsSound d m R
    → Yields d (controller m) (λ x c. Q x c × R x c)
unfolding controller
controller-Yields I Q R d m h k = record {
  run = λ store.
      both-ActEnds I Q R (m (record { core = d; store = store })) (h.run store) (k.run store);
}

if-ActEnds :
    {X : Type 0} (Q : X → Core → Type 0) (b : Bool) (r t : Session × Result X)
    → ActEnds Q r
    → ActEnds Q t
    → ActEnds Q (if b then r else t)
if-ActEnds Q true r t h k = h
if-ActEnds Q false r t h k = k

abbrev Planned : ℕ → ℕ → PlannerDecision → Core → Type 0
Planned m n decision c = Settled m n decision c × IsSound c

-- How a round may end that began with these attempts.
abbrev Round : ℕ → ℕ → RoundEnd → Core → Type 0
Round m n concluded c = (Held m n c × (c.state ≡ ready_for_synthesis)) × IsSound c
Round m n reviewed c = Turned m (n + 1) c × IsSound c
Round m n blocked c = IsSound c

module _ (host : Host) (codec : Codec) (w : World) (m n : ℕ) where
  correct-Planned :
      (response : String) (e : SessionError) (d : Core)
      → Held m n d
      → IsSound d
      → Yields d (correct host codec w response e) (Planned m n)
  unfolding correct
  correct-Planned response e d held sound = core-then _ (
      outside-then _ _ sound (λ corrected.
        controller-Yields (Held m n) (Settled m n) (λ _ c. IsSound c) d _
          (prepare-Held host codec (w.services correction) (w.disk correction) corrected true d
            held)
          (prepare-Leads host codec (w.services correction) (w.disk correction) corrected true d
            sound)))

  recovered-Planned :
      (response : String) (r : Session × Outcome PlannerDecision)
      → Ends (Held m n) (Settled m n) r
      → Ends IsSound (λ _ c. IsSound c) r
      → ActEnds (Planned m n) (recovered host codec w response r)
  unfolding recovered
  recovered-Planned response (s, done decision) h sound = (h, sound)
  recovered-Planned response (s, raised e) h sound =
      if-ActEnds (Planned m n) s.core.correction_available _ _
        ((correct-Planned response e s.core h sound).run s.store) sound

  prepare_or_correct-Planned :
      (response : String) (d : Core)
      → Held m n d
      → IsSound d
      → Yields d (prepare_or_correct host codec w response) (Planned m n)
  unfolding prepare_or_correct
  prepare_or_correct-Planned response d held sound = record {
    run = λ store.
        recovered-Planned response _
          ((prepare-Held host codec (w.services planner) (w.disk planner) response false d held).run
            store)
          ((prepare-Leads host codec (w.services planner) (w.disk planner) response false d
              sound).run
            store);
  }

  review_execution-Round :
      (e : ExecutionEvidence) (halts : Bool) (d : Core)
      → Held m (n + 1) d
      → IsSound d
      → Yields d (review_execution host codec w e halts) (Round m n)
  unfolding review_execution
  review_execution-Round e true d held sound = finish-Yields blocked sound
  review_execution-Round e false d held sound = core-then _ (
      outside-then _ _ sound (λ _. outside-then _ _ sound (λ response.
        act-bind (λ _ c. Turned m (n + 1) c × IsSound c) _ _
          (controller-Yields AnyEnd (λ _ c. Turned m (n + 1) c) (λ _ c. IsSound c) d _
            (apply_review-Turned host codec (w.services review) (w.disk review) response d held)
            (apply_review-Leads host codec (w.services review) (w.disk review) response d sound))
          (λ _ c turned. finish-Yields reviewed turned))))

  execution-Round :
      (d : Core)
      → Held m n d
      → IsSound d
      → Yields d
          (controller (execute_prepared codec w.execution_services w.execution_disk) >>= λ e.
            review_execution host codec w e (execution_blocked e.sweep))
          (Round m n)
  execution-Round d held sound =
      act-bind (λ _ c. Held m (n + 1) c × IsSound c) _ _
        (controller-Yields AnyEnd (λ _ c. Held m (n + 1) c) (λ _ c. IsSound c) d _
          (execute_prepared-Held codec w.execution_services w.execution_disk d held)
          (execute_prepared-Leads codec w.execution_services w.execution_disk d sound))
        (λ e c (later, kept). review_execution-Round e (execution_blocked e.sweep) c later kept)

  follow-Round :
      (decision : PlannerDecision) (action : ResearchAction) (d : Core)
      → decision.action ≡ action
      → Planned m n decision d
      → Yields d (follow host codec w action) (Round m n)
  unfolding follow
  follow-Round decision Response.answer_ready d same ((held, settles), sound) =
      finish-Yields concluded ((held, settles (rw same refl)), sound)
  follow-Round decision Response.unresolved_report d same ((held, settles), sound) =
      finish-Yields concluded ((held, settles (rw same refl)), sound)
  follow-Round decision Response.single_override d same ((held, settles), sound) =
      execution-Round d held sound
  follow-Round decision Response.scalar_sweep d same ((held, settles), sound) =
      execution-Round d held sound

  run_round-Round :
      (d : Core) → Held m n d → IsSound d → Yields d (run_round host codec w) (Round m n)
  unfolding run_round
  run_round-Round d held sound = core-then _ (
      outside-then _ _ sound (λ _. outside-then _ _ sound (λ response.
        act-bind (Planned m n) _ _ (prepare_or_correct-Planned response d held sound)
          (λ decision c planned. follow-Round decision decision.action c refl planned))))

-- Where a run may be after its rounds.
abbrev pub Reached : Session × Result LoopEnd → Type 0
Reached (s, ok at_synthesis) = (s.core.state ≡ ready_for_synthesis) × IsSound s.core
Reached (s, ok blocked_by_drift) = IsSound s.core
Reached (s, ok not_at_synthesis) = ⊥
Reached (s, ok out_of_worlds) = ⊥
Reached (s, interrupted e) = IsSound s.core

boundary-Reached :
    (s : Session) (state : SessionState)
    → s.core.state ≡ state
    → state ≡ ready_for_synthesis
    → IsSound s.core
    → Reached (s, ok (boundary state))
unfolding boundary
boundary-Reached s ready_for_synthesis same ready sound = (same, sound)
boundary-Reached s planning same ready sound = cc
boundary-Reached s plan_ready same ready sound = cc
boundary-Reached s executing same ready sound = cc
boundary-Reached s review_ready same ready sound = cc

-- The loop's test, where the state is known.
abbrev Guarded : Session → Session × Result LoopEnd → SessionState → Type 0
Guarded s round state = Reached (if is_planning state then round else (s, ok (boundary state)))

Guarded-at :
    (s : Session) (round : Session × Result LoopEnd) {state : SessionState}
    → s.core.state ≡ state
    → Guarded s round state
    → Guarded s round s.core.state
Guarded-at s round at h = subst (Guarded s round) (sym at) h

module _ (host : Host) (codec : Codec) (m : ℕ) where
  continue-Reached :
      (n : ℕ) (later : Act LoopEnd) (r : Session × Result RoundEnd)
      → ActEnds (Round m n) r
      → ((s : Session) → Turned m (n + 1) s.core → IsSound s.core → Reached (later s))
      → Reached (continue_with later r)
  unfolding continue_with
  continue-Reached n later (s, interrupted e) h k = h
  continue-Reached n later (s, ok concluded) ((held, ready), sound) k =
      boundary-Reached s s.core.state refl ready sound
  continue-Reached n later (s, ok blocked) h k = h
  continue-Reached n later (s, ok reviewed) (turned, sound) k = k s turned sound

  -- Between two rounds, with enough worlds for the attempts that are left.
  run_rounds-Reached :
      (worlds : List World) (n : ℕ) (s : Session)
      → Turned m n s.core
      → IsSound s.core
      → m + 1 ≤ n + length worlds
      → Reached (run_rounds host codec worlds s)
  unfolding run_rounds boundary
  run_rounds-Reached [] n s ((rounds, attempts), inl plans) sound enough =
      let (room, _, _, _) = Phase-at s.core sound plans in
      Guarded-at s _ plans (omega (arith, room, rounds, attempts, enough))
  run_rounds-Reached [] n s (held, inr ready) sound enough = Guarded-at s _ ready (ready, sound)
  run_rounds-Reached (w ∷ worlds) n s (held, inl plans) sound enough = Guarded-at s _ plans (
      continue-Reached n (run_rounds host codec worlds) (run_round host codec w s)
        ((run_round-Round host codec w m n s.core held sound).run s.store)
        (λ s' turned kept.
          run_rounds-Reached worlds (n + 1) s' turned kept (omega (arith, enough))))
  run_rounds-Reached (w ∷ worlds) n s (held, inr ready) sound enough =
      Guarded-at s _ ready (ready, sound)

-- A run of a new session ends within one round more than the brief's maximum, whatever the provider,
-- the contexts, the services and the disk do in each round: an exception ends it, an authority drift
-- blocks it, or it is ready for its synthesis. The error of a controller that did not reach the
-- synthesis boundary is never raised, and the invariant of the session holds at the end.
pub run_rounds-initial-Reached :
    (host : Host) (codec : Codec) (brief : Brief) (bundle : AgentBundle) (store : Store)
    (worlds : List World)
    → brief.maximum_experiment_rounds + 1 ≤ length worlds
    → Reached (run_rounds host codec worlds (record { core = initial brief bundle; store = store }))
unfolding initial
run_rounds-initial-Reached host codec brief bundle store worlds enough =
    run_rounds-Reached host codec brief.maximum_experiment_rounds worlds 0
      (record { core = initial brief bundle; store = store }) ((refl, refl), inl refl)
      (initial-IsSound brief bundle) (omega (arith, enough))
