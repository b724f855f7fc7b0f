-- ===== src/Runner/Consumed.antt =====
-- An execution consumes an attempt, and a review none.
use cuda_fractal_engine_stat.Prelude.{ℕ, ◌+◌, Option, none, some, String, ◌⊎◌, inl, inr, ◌≡◌, refl}
use cuda_fractal_engine_stat.Response
use cuda_fractal_engine_stat.Response.{
  ResearchAction, ReviewGate, continue_promote_result, continue_retain_base, complete_research,
  Host, Checked, accepted, rejected,
}
use cuda_fractal_engine_stat.Response.Review.{ReviewDecision}
use cuda_fractal_engine_stat.Session.State.{
  SessionState, planning, plan_ready, executing, review_ready, ready_for_synthesis,
  PreparedExperiment, ExecutionEvidence, Core, illegal_state, Step, ◌>>=◌, Disk, Codec, Services,
}
use cuda_fractal_engine_stat.Session.Execution.{execute_prepared, ready_experiment}
use cuda_fractal_engine_stat.Session.Review.{
  promote, retain, close_session, apply_gate, apply_action, apply_review,
}
use cuda_fractal_engine_stat.Session.Outcomes.{validate_outcomes}
use cuda_fractal_engine_stat.Session.Hoare.{
  Leads, bind-Leads, get-then, put-then, put-Leads, ensure-Leads, finish-then, finish-Leads,
  fail-then, write-then, record-then, ensure-then, checked-then, stays-then,
}
use cuda_fractal_engine_stat.Session.Hoare.Review.{
  reviewable-then, promoted_bundle-then, check_promotion-then,
}
use cuda_fractal_engine_stat.Runner.Held.{Held}

-- A raising operation ends the run, whatever it leaves.
abbrev pub AnyEnd : Core → Type 0
AnyEnd c = Unit

ready_experiment-any :
    {Y : Type 0} {R : Y → Core → Type 0} {d : Core} (state : SessionState)
    (prepared : Option PreparedExperiment) (next : PreparedExperiment → Step Y)
    → ((p : PreparedExperiment) → Leads AnyEnd d (next p) R)
    → Leads AnyEnd d (ready_experiment state prepared >>= next) R
unfolding ready_experiment
ready_experiment-any plan_ready (some p) next h = finish-then AnyEnd p next (h p)
ready_experiment-any plan_ready none next h = fail-then AnyEnd tt illegal_state next
ready_experiment-any planning prepared next h = fail-then AnyEnd tt illegal_state next
ready_experiment-any executing prepared next h = fail-then AnyEnd tt illegal_state next
ready_experiment-any review_ready prepared next h = fail-then AnyEnd tt illegal_state next
ready_experiment-any ready_for_synthesis prepared next h = fail-then AnyEnd tt illegal_state next

module _ {m n : ℕ} where
  -- An execution consumes one attempt.
  pub execute_prepared-Held :
      (codec : Codec) (services : Services) (disk : Disk) (d : Core)
      → Held m n d
      → Leads AnyEnd d (execute_prepared codec services disk) (λ e c. Held m (n + 1) c)
  unfolding execute_prepared
  execute_prepared-Held codec services disk d (rounds, attempts) = get-then AnyEnd _ (
      ready_experiment-any d.state d.prepared _ (λ p. put-then AnyEnd _ _ (
        record-then AnyEnd tt _ _ _ _ (
          write-then AnyEnd tt _ _ _ _ (
            get-then AnyEnd _ (
              put-then AnyEnd _ _ (
                record-then AnyEnd tt _ _ _ _
                  (finish-Leads AnyEnd _ (rounds, rw attempts refl)))))))))

-- The states in which a review leaves a session.
abbrev pub Turned : ℕ → ℕ → Core → Type 0
Turned m n c = Held m n c × ((c.state ≡ planning) ⊎ (c.state ≡ ready_for_synthesis))

validate_outcomes-any :
    (codec : Codec) (r : ReviewDecision) (e : ExecutionEvidence) (d : Core)
    → Leads AnyEnd d (validate_outcomes codec r e) (λ _ c. d ≡ c)
unfolding validate_outcomes
validate_outcomes-any codec r e d =
    ensure-then AnyEnd tt _ _ _ (λ _. ensure-Leads AnyEnd tt _ _ (λ _. refl))

module _ {m n : ℕ} where
  apply_action-Turned :
      (services : Services) (r : ReviewDecision) (e : ExecutionEvidence) (gate : ReviewGate)
      (d : Core)
      → Held m n d
      → Leads AnyEnd d (apply_action services r e gate) (λ _ c. Turned m n c)
  unfolding apply_action promote retain close_session
  apply_action-Turned services r e continue_promote_result d held = get-then AnyEnd _ (
      promoted_bundle-then AnyEnd tt _ _ (λ bundle found.
        put-then AnyEnd _ _
          (ensure-then AnyEnd tt _ _ _ (λ valid. put-Leads AnyEnd _ (held, inl refl)))))
  apply_action-Turned services r e continue_retain_base d held =
      get-then AnyEnd _ (put-Leads AnyEnd _ (held, inl refl))
  apply_action-Turned services r e complete_research d held =
      get-then AnyEnd _ (put-Leads AnyEnd _ (held, inr refl))
  apply_action-Turned services r e Response.unresolved d held =
      get-then AnyEnd _ (put-Leads AnyEnd _ (held, inr refl))

  -- A review leaves the attempts as they are.
  pub apply_review-Turned :
      (host : Host) (codec : Codec) (services : Services) (disk : Disk) (response : String)
      (d : Core)
      → Held m n d
      → Leads AnyEnd d (apply_review host codec services disk response) (λ r c. Turned m n c)
  unfolding apply_review
  apply_review-Turned host codec services disk response d held = get-then AnyEnd _ (
      reviewable-then AnyEnd tt d.state d.last_execution _ (λ e at last.
        checked-then AnyEnd tt _ _ _ (λ r _.
          stays-then AnyEnd tt _ _ (validate_outcomes-any codec r e d) (λ _.
            ensure-then AnyEnd tt _ _ _ (λ room.
              check_promotion-then AnyEnd tt r.gate r.selected_result e _ (λ chosen.
                write-then AnyEnd tt _ _ _ _ (
                  write-then AnyEnd tt _ _ _ _ (
                    bind-Leads AnyEnd _ _ (λ _ c. Turned m n c)
                      (unfold apply_gate in apply_action-Turned services r e r.gate d held)
                      (λ _ c turned. get-then AnyEnd _ (
                        put-then AnyEnd _ _
                          (record-then AnyEnd tt _ _ _ _ (finish-Leads AnyEnd r turned))))))))))))
