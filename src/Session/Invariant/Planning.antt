-- ===== src/Session/Invariant/Planning.antt =====
-- A planner's response keeps the controller's invariant, whether it is accepted or refused.
use mathlib.Core.Path.{subst}
use cuda_fractal_engine_stat.Prelude.{
  ℕ, ◌+◌, ◌≤◌, Bool, true, false, not, ◌&&◌, Option, none, some, String, leb→le, ◌⊎◌, inl, inr, ◌≡◌,
  ◌≢◌, refl, sym,
}
use cuda_fractal_engine_stat.Response
use cuda_fractal_engine_stat.Response.{ResearchAction, Host, Checked, accepted, rejected}
use cuda_fractal_engine_stat.Response.Planner.{PlannerDecision, parse_authorized}
use cuda_fractal_engine_stat.Response.Permissions.{ExperimentPermissions}
use cuda_fractal_engine_stat.Session.State.{
  SessionState, planning, plan_ready, ready_for_synthesis, SessionDisposition, running,
  answer_ready, unresolved, Validation, PreparedExperiment, Core, SessionError, no_payload,
  response_rejected, Step, ◌>>=◌, Disk, Codec, Services, write_evidence, attempt_path,
}
use cuda_fractal_engine_stat.Session.Planning.{
  is_planning, claim_correction, response_refused, validation_refused, conclude, seal_plan,
  validated, with_payload, prepare_experiment, follow_action, follow_decision, judged,
  prepare_planner_response, response_name,
}
use cuda_fractal_engine_stat.Session.Validation.{validate}
use cuda_fractal_engine_stat.Session.Hoare.{
  Leads, bind-Leads, get-then, put-then, put-Leads, ensure-Leads, finish-then, finish-Leads,
  fail-then, fail-Leads, write-then, record-then, ensure-then, checked-then,
}
use cuda_fractal_engine_stat.Session.Invariant.{IsSound, Phase-at, flags-IsSound}

-- A step that keeps the invariant, whatever it returns.
abbrev Keeps : {X : Type 0} → Core → Step X → Type 0
Keeps d m = Leads IsSound d m (λ _ c. IsSound c)

response_refused-Keeps :
    (codec : Codec) (disk : Disk) (correction : Bool) (attempt : ℕ) (path sha : String)
    (e : SessionError) (d : Core)
    → IsSound d
    → Keeps d (response_refused {X = PlannerDecision} codec disk correction attempt path sha e)
unfolding response_refused
response_refused-Keeps codec disk correction attempt path sha e d sound =
    let later = flags-IsSound d d.correction_used (not correction && not d.correction_used) sound in
    get-then IsSound _
      (put-then IsSound _ _ (record-then IsSound later _ _ _ _ (fail-Leads IsSound later e)))

validation_refused-Keeps :
    (codec : Codec) (disk : Disk) (correction : Bool) (attempt : ℕ) (decision : PlannerDecision)
    (e : SessionError) (d : Core)
    → IsSound d
    → Keeps d (validation_refused {X = PlannerDecision} codec disk correction attempt decision e)
unfolding validation_refused
validation_refused-Keeps codec disk correction attempt decision e d sound =
    let later = flags-IsSound d d.correction_used (not correction && not d.correction_used) sound in
    get-then IsSound _
      (put-then IsSound _ _ (record-then IsSound later _ _ _ _ (fail-Leads IsSound later e)))

concluded-IsSound :
    (d : Core) (decision : PlannerDecision) (disposition : SessionDisposition)
    → IsSound d
    → d.state ≡ planning
    → disposition ≢ running
    → IsSound (record d {
      terminal_planner_decision = some decision;
      state = ready_for_synthesis;
      disposition = disposition;
    })
concluded-IsSound d decision disposition sound at ends =
    let (_, executed, reviewed, _) = Phase-at d sound at in
    record {
      bounded = sound.bounded;
      based = sound.based;
      numbered = sound.numbered;
      phase = (executed, reviewed, ends);
    }

conclude-Keeps :
    (disk : Disk) (disposition : SessionDisposition) (decision : PlannerDecision) (d : Core)
    → IsSound d
    → d.state ≡ planning
    → disposition ≢ running
    → Keeps d (conclude disk disposition decision)
unfolding conclude
conclude-Keeps disk disposition decision d sound at ends =
    let later = concluded-IsSound d decision disposition sound at ends in
    get-then IsSound _ (
      put-then IsSound _ _
        (record-then IsSound later _ _ _ _ (finish-Leads IsSound decision later)))

prepared-IsSound :
    (d : Core) (p : PreparedExperiment)
    → IsSound d
    → d.state ≡ planning
    → p.attempt_number ≡ d.attempts_consumed + 1
    → d.attempts_consumed + 1 ≤ d.brief.maximum_experiment_rounds
    → IsSound (record d { prepared = some p; state = plan_ready })
prepared-IsSound d p sound at number fits =
    let (_, executed, reviewed, runs) = Phase-at d sound at in
    record {
      bounded = sound.bounded;
      based = sound.based;
      numbered = sound.numbered;
      phase = (p, refl, number, fits, executed, reviewed, runs);
    }

module _ (host : Host) (codec : Codec) (services : Services) (disk : Disk) (correction : Bool)
    (attempt : ℕ) (decision : PlannerDecision) (d : Core) (sound : IsSound d)
    (at : d.state ≡ planning) (number : attempt ≡ d.attempts_consumed + 1) where
  module _ (payload : String) (fits : attempt ≤ d.brief.maximum_experiment_rounds) where
    seal_plan-Keeps :
        (validation : Validation)
        → Keeps d (seal_plan host codec disk correction attempt decision payload validation)
    unfolding seal_plan
    seal_plan-Keeps validation = get-then IsSound _ (
        checked-then IsSound sound _ _ _ (λ document _.
          let later = prepared-IsSound d _ sound at number (rw (sym number) fits) in
          write-then IsSound sound _ _ _ _ (
            write-then IsSound sound _ _ _ _ (
              put-then IsSound _ _
                (record-then IsSound later _ _ _ _ (finish-Leads IsSound decision later))))))

    validated-Keeps :
        (found : SessionError ⊎ Validation)
        → Keeps d (validated host codec disk correction attempt decision payload found)
    unfolding validated
    validated-Keeps (inl e) =
        validation_refused-Keeps codec disk correction attempt decision e d sound
    validated-Keeps (inr validation) = seal_plan-Keeps validation

    validate-Keeps : Keeps d (λ s.
        validated host codec disk correction attempt decision payload
          (validate host services s decision payload)
          s)
    validate-Keeps = record {
      run = λ store.
          (validated-Keeps
              (validate host services (record { core = d; store = store }) decision payload)).run
            store;
    }

  with_payload-then :
      (payload : Option String) (next : String → Step PlannerDecision)
      → ((p : String) → Keeps d (next p))
      → Keeps d (with_payload payload >>= next)
  unfolding with_payload
  with_payload-then none next h = fail-then IsSound sound no_payload next
  with_payload-then (some p) next h = finish-then IsSound p next (h p)

  prepare_experiment-Keeps :
      Keeps d (prepare_experiment host codec services disk correction attempt decision)
  unfolding prepare_experiment
  prepare_experiment-Keeps = get-then IsSound _ (
      ensure-then IsSound sound _ _ _ (λ fits.
        with_payload-then decision.payload_text _
          (λ payload. validate-Keeps payload (leb→le _ _ fits))))

  follow_action-Keeps :
      (action : ResearchAction)
      → Keeps d (follow_action host codec services disk correction attempt decision action)
  unfolding follow_action
  follow_action-Keeps Response.answer_ready =
      conclude-Keeps disk answer_ready decision d sound at (λ same. cc)
  follow_action-Keeps Response.unresolved_report =
      conclude-Keeps disk unresolved decision d sound at (λ same. cc)
  follow_action-Keeps Response.single_override = prepare_experiment-Keeps
  follow_action-Keeps Response.scalar_sweep = prepare_experiment-Keeps

judged-Keeps :
    (host : Host) (codec : Codec) (services : Services) (disk : Disk) (correction : Bool)
    (attempt : ℕ) (response : String) (r : Checked PlannerDecision) (d : Core)
    → IsSound d
    → d.state ≡ planning
    → attempt ≡ d.attempts_consumed + 1
    → Keeps d (judged host codec services disk correction attempt response r)
unfolding judged
judged-Keeps host codec services disk correction attempt response (rejected r) d sound at number =
    response_refused-Keeps codec disk correction attempt _ _ (response_rejected r) d sound
judged-Keeps host codec services disk correction attempt response (accepted decision) d sound at
      number =
    get-then IsSound _ (
      put-then IsSound _ _ (
        unfold follow_decision in
        follow_action-Keeps host codec services disk correction attempt decision
          (record d { correction_available = false })
          (flags-IsSound d d.correction_used false sound) at number decision.action))

-- What a claim may change.
abbrev Flagged : Core → Unit {0} → Core → Type 0
Flagged d _ c =
    (used : Bool) × (available : Bool) × (record d {
      correction_used = used;
      correction_available = available;
    }
      ≡ c)

claim_correction-Flagged :
    (correction : Bool) (d : Core)
    → IsSound d
    → Leads IsSound d (claim_correction correction) (Flagged d)
unfolding claim_correction
claim_correction-Flagged true d sound = get-then IsSound _ (
    ensure-then IsSound sound _ _ _ (λ _. put-Leads IsSound _ (true, d.correction_available, refl)))
claim_correction-Flagged false d sound =
    get-then IsSound _
      (ensure-Leads IsSound sound _ _ (λ _. (d.correction_used, d.correction_available, refl)))

is_planning→at : (state : SessionState) → is_planning state ≡ true → state ≡ planning
is_planning→at planning h = refl
is_planning→at plan_ready h = cc
is_planning→at SessionState.executing h = cc
is_planning→at SessionState.review_ready h = cc
is_planning→at ready_for_synthesis h = cc

-- What follows the guards.
abbrev respond :
    Host
    → Codec
    → Services
    → Disk
    → String
    → Bool
    → ℕ
    → ExperimentPermissions
    → Step PlannerDecision
respond host codec services disk response correction attempt permissions = do
  _ ← write_evidence disk (attempt_path attempt (response_name correction)) response
  judged host codec services disk correction attempt response
      (parse_authorized host permissions response)

respond-Keeps :
    (host : Host) (codec : Codec) (services : Services) (disk : Disk) (response : String)
    (correction : Bool) (attempt : ℕ) (permissions : ExperimentPermissions) (d : Core)
    → IsSound d
    → d.state ≡ planning
    → attempt ≡ d.attempts_consumed + 1
    → Keeps d (respond host codec services disk response correction attempt permissions)
respond-Keeps host codec services disk response correction attempt permissions d sound at number =
    write-then IsSound sound _ _ _ _
      (judged-Keeps host codec services disk correction attempt response _ d sound at number)

pub prepare-Leads :
    (host : Host) (codec : Codec) (services : Services) (disk : Disk) (response : String)
    (correction : Bool) (d : Core)
    → IsSound d
    → Leads IsSound d
        (prepare_planner_response host codec services disk response correction)
        (λ _ c. IsSound c)
unfolding prepare_planner_response
prepare-Leads host codec services disk response correction d sound = get-then IsSound _ (
    ensure-then IsSound sound _ _ _ (λ plans.
      let at = is_planning→at d.state plans in
      bind-Leads IsSound _ _ (Flagged d) (claim_correction-Flagged correction d sound)
        (λ _ c (used, available, same).
          subst
            (λ c. Keeps c (
              respond host codec services disk response correction (d.attempts_consumed + 1)
                d.brief.experiment_permissions))
            same
            (respond-Keeps host codec services disk response correction _ _ _
              (flags-IsSound d used available sound) at refl))))
