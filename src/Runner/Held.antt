-- ===== src/Runner/Held.antt =====
-- What a planner's response does to the attempts consumed, which a round counts by.
use cuda_fractal_engine_stat.Prelude.{
  ℕ, Bool, true, false, Option, none, some, String, ◌⊎◌, inl, inr, ◌≡◌, refl,
}
use cuda_fractal_engine_stat.Response
use cuda_fractal_engine_stat.Response.{
  ResearchAction, ReviewGate, continue_promote_result, continue_retain_base, complete_research,
  Host, Checked, accepted, rejected,
}
use cuda_fractal_engine_stat.Response.Planner.{PlannerDecision}
use cuda_fractal_engine_stat.Session.State.{
  ready_for_synthesis, SessionDisposition, answer_ready, unresolved, Validation, Core, SessionError,
  no_payload, response_rejected, Step, ◌>>=◌, Disk, Codec, Services,
}
use cuda_fractal_engine_stat.Session.Planning.{
  claim_correction, response_refused, validation_refused, conclude, seal_plan, validated,
  with_payload, prepare_experiment, follow_action, follow_decision, judged,
  prepare_planner_response,
}
use cuda_fractal_engine_stat.Session.Validation.{validate}
use cuda_fractal_engine_stat.Session.Hoare.{
  Leads, bind-Leads, get-then, put-then, put-Leads, ensure-Leads, finish-then, finish-Leads,
  fail-then, fail-Leads, write-then, record-then, ensure-then, checked-then,
}

-- The brief's rounds and the attempts consumed.
abbrev pub Held : ℕ → ℕ → Core → Type 0
Held m n c = (c.brief.maximum_experiment_rounds ≡ m) × (c.attempts_consumed ≡ n)

abbrev is_terminal : ResearchAction → Bool
is_terminal Response.answer_ready = true
is_terminal Response.unresolved_report = true
is_terminal _ = false

-- A decision that ends the research has made the session ready for its synthesis.
abbrev pub Settled : ℕ → ℕ → PlannerDecision → Core → Type 0
Settled m n decision c =
    Held m n c × (is_terminal decision.action ≡ true → c.state ≡ ready_for_synthesis)

module _ {m n : ℕ} where
  response_refused-Held :
      (codec : Codec) (disk : Disk) (correction : Bool) (attempt : ℕ) (path sha : String)
      (e : SessionError) (d : Core)
      → Held m n d
      → Leads (Held m n) d (response_refused codec disk correction attempt path sha e) (Settled m n)
  unfolding response_refused
  response_refused-Held codec disk correction attempt path sha e d held =
      get-then (Held m n) _ (
        put-then (Held m n) _ _
          (record-then (Held m n) held _ _ _ _ (fail-Leads (Held m n) held e)))

  validation_refused-Held :
      (codec : Codec) (disk : Disk) (correction : Bool) (attempt : ℕ) (decision : PlannerDecision)
      (e : SessionError) (d : Core)
      → Held m n d
      → Leads
          (Held m n)
          d
          (validation_refused codec disk correction attempt decision e)
          (Settled m n)
  unfolding validation_refused
  validation_refused-Held codec disk correction attempt decision e d held =
      get-then (Held m n) _ (
        put-then (Held m n) _ _
          (record-then (Held m n) held _ _ _ _ (fail-Leads (Held m n) held e)))

  conclude-Held :
      (disk : Disk) (disposition : SessionDisposition) (decision : PlannerDecision) (d : Core)
      → Held m n d
      → Leads (Held m n) d (conclude disk disposition decision) (Settled m n)
  unfolding conclude
  conclude-Held disk disposition decision d held = get-then (Held m n) _ (
      put-then (Held m n) _ _ (
        record-then (Held m n) held _ _ _ _
          (finish-Leads (Held m n) decision (held, λ terminal. refl))))

  module _ (host : Host) (codec : Codec) (services : Services) (disk : Disk) (correction : Bool)
      (attempt : ℕ) (decision : PlannerDecision) (d : Core) (held : Held m n d) where
    module _ (executes : is_terminal decision.action ≡ false) where
      seal_plan-Held :
          (payload : String) (validation : Validation)
          → Leads
              (Held m n)
              d
              (seal_plan host codec disk correction attempt decision payload validation)
              (Settled m n)
      unfolding seal_plan
      seal_plan-Held payload validation = get-then (Held m n) _ (
          checked-then (Held m n) held _ _ _ (λ document _. write-then (Held m n) held _ _ _ _ (
            write-then (Held m n) held _ _ _ _ (
              put-then (Held m n) _ _ (
                record-then (Held m n) held _ _ _ _
                  (finish-Leads (Held m n) decision (held, λ terminal. cc)))))))

      validated-Held :
          (payload : String) (found : SessionError ⊎ Validation)
          → Leads
              (Held m n)
              d
              (validated host codec disk correction attempt decision payload found)
              (Settled m n)
      unfolding validated
      validated-Held payload (inl e) =
          validation_refused-Held codec disk correction attempt decision e d held
      validated-Held payload (inr validation) = seal_plan-Held payload validation

      validate-Held :
          (payload : String)
          → Leads
              (Held m n)
              d
              (λ s.
                validated host codec disk correction attempt decision payload
                  (validate host services s decision payload)
                  s)
              (Settled m n)
      validate-Held payload = record {
        run = λ store.
            (validated-Held payload
                (validate host services (record { core = d; store = store }) decision payload)).run
              store;
      }

      with_payload-Held :
          (payload : Option String) (next : String → Step PlannerDecision)
          → ((p : String) → Leads (Held m n) d (next p) (Settled m n))
          → Leads (Held m n) d (with_payload payload >>= next) (Settled m n)
      unfolding with_payload
      with_payload-Held none next h = fail-then (Held m n) held no_payload next
      with_payload-Held (some p) next h = finish-then (Held m n) p next (h p)

      prepare_experiment-Held :
          Leads
            (Held m n)
            d
            (prepare_experiment host codec services disk correction attempt decision)
            (Settled m n)
      unfolding prepare_experiment
      prepare_experiment-Held = get-then (Held m n) _ (
          ensure-then (Held m n) held _ _ _
            (λ fits. with_payload-Held decision.payload_text _ validate-Held))

    follow_action-Held :
        (action : ResearchAction)
        → decision.action ≡ action
        → Leads
            (Held m n)
            d
            (follow_action host codec services disk correction attempt decision action)
            (Settled m n)
    unfolding follow_action
    follow_action-Held Response.answer_ready same = conclude-Held disk answer_ready decision d held
    follow_action-Held Response.unresolved_report same =
        conclude-Held disk unresolved decision d held
    follow_action-Held Response.single_override same = prepare_experiment-Held (rw same refl)
    follow_action-Held Response.scalar_sweep same = prepare_experiment-Held (rw same refl)

  judged-Held :
      (host : Host) (codec : Codec) (services : Services) (disk : Disk) (correction : Bool)
      (attempt : ℕ) (response : String) (r : Checked PlannerDecision) (d : Core)
      → Held m n d
      → Leads
          (Held m n)
          d
          (judged host codec services disk correction attempt response r)
          (Settled m n)
  unfolding judged
  judged-Held host codec services disk correction attempt response (rejected r) d held =
      response_refused-Held codec disk correction attempt _ _ (response_rejected r) d held
  judged-Held host codec services disk correction attempt response (accepted decision) d held =
      get-then (Held m n) _ (
        put-then (Held m n) _ _ (
          unfold follow_decision in
          follow_action-Held host codec services disk correction attempt decision
            (record d { correction_available = false }) held decision.action refl))

  claim_correction-Held :
      (correction : Bool) (d : Core)
      → Held m n d
      → Leads (Held m n) d (claim_correction correction) (λ _ c. Held m n c)
  unfolding claim_correction
  claim_correction-Held true d held =
      get-then (Held m n) _ (ensure-then (Held m n) held _ _ _ (λ _. put-Leads (Held m n) _ held))
  claim_correction-Held false d held =
      get-then (Held m n) _ (ensure-Leads (Held m n) held _ _ (λ _. held))

  -- A planner's response leaves the attempts as they are, whether it is accepted or refused.
  pub prepare-Held :
      (host : Host) (codec : Codec) (services : Services) (disk : Disk) (response : String)
      (correction : Bool) (d : Core)
      → Held m n d
      → Leads
          (Held m n)
          d
          (prepare_planner_response host codec services disk response correction)
          (Settled m n)
  unfolding prepare_planner_response
  prepare-Held host codec services disk response correction d held = get-then (Held m n) _ (
      ensure-then (Held m n) held _ _ _ (λ plans.
        bind-Leads (Held m n) _ _ (λ _ c. Held m n c) (claim_correction-Held correction d held)
          (λ _ c kept.
            write-then (Held m n) kept _ _ _ _
              (judged-Held host codec services disk correction _ response _ c kept))))
