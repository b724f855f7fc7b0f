-- ===== src/Session/Hoare/Review.antt =====
-- The rules for the steps that a review is made of.
use cuda_fractal_engine_stat.Prelude.{true, Option, none, some, ◌≡◌, refl}
use cuda_fractal_engine_stat.Response
use cuda_fractal_engine_stat.Response.{
  ReviewGate, continue_promote_result, continue_retain_base, complete_research,
}
use cuda_fractal_engine_stat.Response.Review.{ResultSelection}
use cuda_fractal_engine_stat.Session.State.{
  SessionState, planning, plan_ready, executing, review_ready, ready_for_synthesis, AgentBundle,
  ExecutionEvidence, Core, Step, ◌>>=◌, illegal_state, promotion_failed,
}
use cuda_fractal_engine_stat.Session.Review.{
  reviewable, promoted_bundle, check_promotion, selected_proven,
}
use cuda_fractal_engine_stat.Session.Hoare.{Leads, finish-then, fail-then, ensure-then}

-- What a promotion has checked of its result.
abbrev pub Chosen : ReviewGate → ResultSelection → ExecutionEvidence → Type 0
Chosen continue_promote_result selected e = selected_proven selected e ≡ true
Chosen _ selected e = Unit

module _ (I : Core → Type 0) {d : Core} (sound : I d) {Y : Type 0} {R : Y → Core → Type 0} where
  pub reviewable-then :
      (state : SessionState) (last : Option ExecutionEvidence) (next : ExecutionEvidence → Step Y)
      → ((e : ExecutionEvidence) → state ≡ review_ready → last ≡ some e → Leads I d (next e) R)
      → Leads I d (reviewable state last >>= next) R
  unfolding reviewable
  reviewable-then review_ready (some e) next h = finish-then I e next (h e refl refl)
  reviewable-then review_ready none next h = fail-then I sound illegal_state next
  reviewable-then planning last next h = fail-then I sound illegal_state next
  reviewable-then executing last next h = fail-then I sound illegal_state next
  reviewable-then plan_ready last next h = fail-then I sound illegal_state next
  reviewable-then ready_for_synthesis last next h = fail-then I sound illegal_state next

  pub promoted_bundle-then :
      (found : Option AgentBundle) (next : AgentBundle → Step Y)
      → ((bundle : AgentBundle) → found ≡ some bundle → Leads I d (next bundle) R)
      → Leads I d (promoted_bundle found >>= next) R
  unfolding promoted_bundle
  promoted_bundle-then none next h = fail-then I sound promotion_failed next
  promoted_bundle-then (some bundle) next h = finish-then I bundle next (h bundle refl)

  pub check_promotion-then :
      (gate : ReviewGate) (selected : ResultSelection) (e : ExecutionEvidence)
      (next : Unit {0} → Step Y)
      → (Chosen gate selected e → Leads I d (next tt) R)
      → Leads I d (check_promotion gate selected e >>= next) R
  unfolding check_promotion
  check_promotion-then continue_promote_result selected e next h = ensure-then I sound _ _ next h
  check_promotion-then continue_retain_base selected e next h = finish-then I tt next (h tt)
  check_promotion-then complete_research selected e next h = finish-then I tt next (h tt)
  check_promotion-then Response.unresolved selected e next h = finish-then I tt next (h tt)
