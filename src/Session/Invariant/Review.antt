-- ===== src/Session/Invariant/Review.antt =====
-- A review keeps the controller's invariant, whether it is accepted or refused.
use cuda_fractal_engine_stat.Prelude.{
  ◌+◌, ◌≤◌, true, not, ◌&&◌, some, ◌∷◌, String, leb, ◌≡◌, ◌≢◌, refl, arith,
}
use cuda_fractal_engine_stat.Response
use cuda_fractal_engine_stat.Response.{
  ReviewGate, continue_promote_result, continue_retain_base, complete_research, Host, Checked,
  accepted,
}
use cuda_fractal_engine_stat.Response.Review.{ReviewDecision, ResultSelection, continues}
use cuda_fractal_engine_stat.Session.State.{
  review_ready, SessionDisposition, running, review_complete, unresolved, ExecutionEvidence, Core,
  Step, Disk, Codec, Services,
}
use cuda_fractal_engine_stat.Session.Review.{
  promote, retain, close_session, apply_gate, apply_action, apply_review,
}
use cuda_fractal_engine_stat.Session.Outcomes.{validate_outcomes}
use cuda_fractal_engine_stat.Session.Hoare.{
  Leads, bind-Leads, get-then, put-then, put-Leads, ensure-Leads, finish-Leads, write-then,
  record-then, ensure-then, checked-then, stays-then,
}
use cuda_fractal_engine_stat.Session.Hoare.Review.{
  reviewable-then, promoted_bundle-then, check_promotion-then,
}
use cuda_fractal_engine_stat.Session.Invariant.{IsSound, Phase-at, bundle-IsSound}

-- A state whose gate has been applied and whose review is not yet recorded.
abbrev Gated : Core → Type 0
Gated c =
    (d : ReviewDecision)
    → IsSound (record c { last_review = some d; review_history = d ∷ c.review_history })

abbrev Gates : Core → Step (Unit {0}) → Type 0
Gates d m = Leads IsSound d m (λ _ c. Gated c)

module _ (d : Core) (sound : IsSound d) (at : d.state ≡ review_ready) where
  module _ (room : d.attempts_consumed + 1 ≤ d.brief.maximum_experiment_rounds) where
    promote-Gates :
        (services : Services) (selected : ResultSelection) (e : ExecutionEvidence)
        → Gates d (promote services selected e)
    unfolding promote
    promote-Gates services selected e =
        let (f, held, number, executed, reviewed, runs) = Phase-at d sound at in
        get-then IsSound _ (
          promoted_bundle-then IsSound sound _ _ (λ bundle _. put-then IsSound _ _ (
            ensure-then IsSound (bundle-IsSound d bundle sound) _ _ _ (λ valid.
              put-Leads IsSound _ (λ r. record {
                bounded = sound.bounded;
                based = (d.current_packet_lineage, refl);
                numbered = sound.numbered;
                phase = (omega (arith, room), executed, omega (arith, reviewed), runs);
              })))))

    retain-Gates : Gates d retain
    unfolding retain
    retain-Gates =
        let (e, held, number, executed, reviewed, runs) = Phase-at d sound at in
        get-then IsSound _ (
          put-Leads IsSound _ (λ r. record {
            bounded = sound.bounded;
            based = sound.based;
            numbered = sound.numbered;
            phase = (omega (arith, room), executed, omega (arith, reviewed), runs);
          }))

  close-Gates :
      (disposition : SessionDisposition)
      → disposition ≢ running
      → Gates d (close_session disposition)
  unfolding close_session
  close-Gates disposition ends =
      let (e, held, number, executed, reviewed, runs) = Phase-at d sound at in
      get-then IsSound _ (
        put-Leads IsSound _ (λ r. record {
          bounded = sound.bounded;
          based = sound.based;
          numbered = sound.numbered;
          phase = (executed, omega (arith, reviewed), ends);
        }))

  apply_action-Gates :
      (services : Services) (decision : ReviewDecision) (e : ExecutionEvidence) (gate : ReviewGate)
      → not (continues gate && leb d.brief.maximum_experiment_rounds d.attempts_consumed) ≡ true
      → Gates d (apply_action services decision e gate)
  unfolding apply_action
  apply_action-Gates services decision e continue_promote_result room =
      promote-Gates (ground arith) services _ e
  apply_action-Gates services decision e continue_retain_base room = retain-Gates (ground arith)
  apply_action-Gates services decision e complete_research room =
      close-Gates review_complete (λ same. cc)
  apply_action-Gates services decision e Response.unresolved room =
      close-Gates unresolved (λ same. cc)

  validate_outcomes-Stays :
      (codec : Codec) (decision : ReviewDecision) (e : ExecutionEvidence)
      → Leads IsSound d (validate_outcomes codec decision e) (λ _ c. d ≡ c)
  unfolding validate_outcomes
  validate_outcomes-Stays codec decision e =
      ensure-then IsSound sound _ _ _ (λ _. ensure-Leads IsSound sound _ _ (λ _. refl))

pub apply_review-Leads :
    (host : Host) (codec : Codec) (services : Services) (disk : Disk) (response : String) (d : Core)
    → IsSound d
    → Leads IsSound d (apply_review host codec services disk response) (λ _ c. IsSound c)
unfolding apply_review
apply_review-Leads host codec services disk response d sound = get-then IsSound _ (
    reviewable-then IsSound sound d.state d.last_execution _ (λ e at held.
      checked-then IsSound sound _ _ _ (λ decision _.
        stays-then IsSound sound _ _ (validate_outcomes-Stays d sound at codec decision e) (λ _.
          ensure-then IsSound sound _ _ _ (λ room.
            check_promotion-then IsSound sound decision.gate decision.selected_result e _ (λ _.
              write-then IsSound sound _ _ _ _ (
                write-then IsSound sound _ _ _ _ (
                  bind-Leads IsSound _ _ (λ _ c. Gated c)
                    (unfold apply_gate in
                      apply_action-Gates d sound at services decision e decision.gate room)
                    (λ _ c gated. get-then IsSound _ (
                      put-then IsSound _ _ (
                        record-then IsSound (gated decision) _ _ _ _
                          (finish-Leads IsSound decision (gated decision)))))))))))))
