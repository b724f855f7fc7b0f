-- ===== src/Session/Promotion.antt =====
-- What an accepted review makes of the session: `apply_review` of
-- src/cuda_fractal_state_tool/research_session.py.
use mathlib.Core.Path.{subst}
use cuda_fractal_engine_stat.Prelude.{
  ℕ, ◌+◌, ◌≤◌, true, not, ◌&&◌, Option, none, some, ◌∷◌, String, str_eq, eq_iff, leb, ◌≡◌, refl,
  arith,
}
use cuda_fractal_engine_stat.Protocol.Round.{check_binding}
use cuda_fractal_engine_stat.Sweep.Run
use cuda_fractal_engine_stat.Sweep.Run.{Member, Proof, Status}
use cuda_fractal_engine_stat.Response
use cuda_fractal_engine_stat.Response.{
  ReviewGate, continue_promote_result, continue_retain_base, complete_research, Host,
}
use cuda_fractal_engine_stat.Response.Review.{
  ResultSelection, nothing, single, sweep_member, ReviewDecision, continues,
}
use cuda_fractal_engine_stat.Session.State.{
  planning, ready_for_synthesis, unresolved, review_complete, AgentBundle, binding_of, SweepResult,
  ExecutionEvidence, Core, Session, Outcome, done, raised, Disk, Codec, Services,
}
use cuda_fractal_engine_stat.Session.Execution.{status_text}
use cuda_fractal_engine_stat.Session.Review.{
  promote, retain, close_session, apply_gate, apply_action, apply_review, find_member,
  member_proven, proof_selected, member_selected, selected_proven,
}
use cuda_fractal_engine_stat.Session.Outcomes.{validate_outcomes}
use cuda_fractal_engine_stat.Session.Hoare.Review.{
  Chosen, reviewable-then, promoted_bundle-then, check_promotion-then,
}
use cuda_fractal_engine_stat.Session.Hoare.{
  Leads, Ends, bind-Leads, get-then, put-then, put-Leads, ensure-Leads, ensure-then, finish-Leads,
  checked-then, stays-then, write-then, record-then,
}

-- The result that is selected has been proven by a replay.
abbrev pub Proven : ResultSelection → ExecutionEvidence → Type 0
Proven nothing e = ⊥
Proven (single proof_id) e =
    (proof : Proof) × (e.proof ≡ some proof)
    × (proof.status ≡ "replay_proven")
    × (proof.proof_id ≡ proof_id)
Proven (sweep_member sweep_id index) e =
    (sweep : SweepResult) × (m : Member) × (e.sweep ≡ some sweep)
    × (sweep.sweep_id ≡ sweep_id)
    × (find_member index sweep.members ≡ some m)
    × (m.status ≡ Run.replay_proven)

proof_selected-Proven :
    (proof_id : String) (found : Option Proof)
    → proof_selected proof_id found ≡ true
    → (proof : Proof) × (found ≡ some proof)
      × (proof.status ≡ "replay_proven")
      × (proof.proof_id ≡ proof_id)
unfolding proof_selected
proof_selected-Proven proof_id none h = cc
proof_selected-Proven proof_id (some proof) h = (
  proof,
  refl,
  (eq_iff proof.status "replay_proven").0 (ground arith),
  (eq_iff proof.proof_id proof_id).0 (ground arith),
)

status_proven :
    (status : Status)
    → str_eq (status_text status) "REPLAY_PROVEN" ≡ true
    → status ≡ Run.replay_proven
unfolding status_text
status_proven Run.replay_proven h = refl
status_proven Run.proof_failed h = cc
status_proven Run.no_effect_engine_emitted_base h = cc
status_proven Run.cancelled_during_proof h = cc
status_proven Run.not_started_after_cancel h = cc
status_proven Run.not_started_after_authority_drift h = cc
status_proven Run.not_started_after_failure h = cc

member_proven-Proven :
    (found : Option Member)
    → member_proven found ≡ true
    → (m : Member) × (found ≡ some m) × (m.status ≡ Run.replay_proven)
unfolding member_proven
member_proven-Proven none h = cc
member_proven-Proven (some m) h = (m, refl, status_proven m.status (ground arith))

member_selected-Proven :
    (sweep_id : String) (index : ℕ) (found : Option SweepResult)
    → member_selected sweep_id index found ≡ true
    → (sweep : SweepResult) × (m : Member) × (found ≡ some sweep)
      × (sweep.sweep_id ≡ sweep_id)
      × (find_member index sweep.members ≡ some m)
      × (m.status ≡ Run.replay_proven)
unfolding member_selected
member_selected-Proven sweep_id index none h = cc
member_selected-Proven sweep_id index (some sweep) h =
    let (m, at, proven) = member_proven-Proven (find_member index sweep.members) (ground arith) in
    (sweep, m, refl, (eq_iff sweep.sweep_id sweep_id).0 (ground arith), at, proven)

selected_proven-Proven :
    (selected : ResultSelection) (e : ExecutionEvidence)
    → selected_proven selected e ≡ true
    → Proven selected e
unfolding selected_proven
selected_proven-Proven nothing e h = cc
selected_proven-Proven (single proof_id) e h = proof_selected-Proven proof_id e.proof h
selected_proven-Proven (sweep_member sweep_id index) e h =
    member_selected-Proven sweep_id index e.sweep h

-- The base of the session is what it was.
abbrev pub SameBase : Core → Core → Type 0
SameBase before after =
    (after.current_bundle ≡ before.current_bundle)
    × (after.current_packet ≡ before.current_packet)
    × (after.current_packet_lineage ≡ before.current_packet_lineage)

-- What each gate makes of the session.
abbrev pub Follows : Services → Core → ResultSelection → ReviewGate → Core → Type 0
Follows services before selected continue_promote_result after =
    (e : ExecutionEvidence) × (b : AgentBundle) × (before.last_execution ≡ some e)
    × Proven selected e
    × (services.promote before.current_bundle selected e ≡ some b)
    × (check_binding (binding_of b) ≡ true)
    × (after.current_bundle ≡ b)
    × (after.current_packet ≡ binding_of b)
    × (after.current_packet_lineage ≡ binding_of b ∷ before.current_packet_lineage)
    × (after.state ≡ planning)
    × (before.attempts_consumed + 1 ≤ before.brief.maximum_experiment_rounds)
Follows services before selected continue_retain_base after =
    SameBase before after
    × (after.state ≡ planning)
    × (before.attempts_consumed + 1 ≤ before.brief.maximum_experiment_rounds)
Follows services before selected complete_research after =
    SameBase before after
    × (after.state ≡ ready_for_synthesis)
    × (after.disposition ≡ review_complete)
Follows services before selected Response.unresolved after =
    SameBase before after × (after.state ≡ ready_for_synthesis) × (after.disposition ≡ unresolved)

-- The review's own fields are not among them.
Follows-reviewed :
    (services : Services) (before : Core) (selected : ResultSelection) (gate : ReviewGate)
    (c : Core) (r : ReviewDecision)
    → Follows services before selected gate c
    → Follows services before selected gate
        (record c { last_review = some r; review_history = r ∷ c.review_history })
Follows-reviewed services before selected continue_promote_result c r h = h
Follows-reviewed services before selected continue_retain_base c r h = h
Follows-reviewed services before selected complete_research c r h = h
Follows-reviewed services before selected Response.unresolved c r h = h

abbrev AnyEnd : Core → Type 0
AnyEnd c = Unit

module _ (services : Services) (d : Core) (e : ExecutionEvidence)
    (held : d.last_execution ≡ some e) where
  apply_action-Follows :
      (r : ReviewDecision) (gate : ReviewGate)
      → not (continues gate && leb d.brief.maximum_experiment_rounds d.attempts_consumed) ≡ true
      → Chosen gate r.selected_result e
      → Leads AnyEnd d
          (apply_action services r e gate)
          (λ _ c. Follows services d r.selected_result gate c)
  unfolding apply_action promote retain close_session
  apply_action-Follows r continue_promote_result room chosen = get-then AnyEnd _ (
      promoted_bundle-then AnyEnd tt _ _ (λ bundle found. put-then AnyEnd _ _ (
        ensure-then AnyEnd tt _ _ _ (λ valid. put-Leads AnyEnd _ (
          e,
          bundle,
          held,
          selected_proven-Proven r.selected_result e chosen,
          found,
          valid,
          refl,
          refl,
          refl,
          refl,
          ground arith,
        )))))
  apply_action-Follows r continue_retain_base room chosen =
      get-then AnyEnd _ (put-Leads AnyEnd _ ((refl, refl, refl), refl, ground arith))
  apply_action-Follows r complete_research room chosen =
      get-then AnyEnd _ (put-Leads AnyEnd _ ((refl, refl, refl), refl, refl))
  apply_action-Follows r Response.unresolved room chosen =
      get-then AnyEnd _ (put-Leads AnyEnd _ ((refl, refl, refl), refl, refl))

validate_outcomes-Stays :
    (codec : Codec) (r : ReviewDecision) (e : ExecutionEvidence) (d : Core)
    → Leads AnyEnd d (validate_outcomes codec r e) (λ _ c. d ≡ c)
unfolding validate_outcomes
validate_outcomes-Stays codec r e d =
    ensure-then AnyEnd tt _ _ _ (λ _. ensure-Leads AnyEnd tt _ _ (λ _. refl))

apply_review-Follows :
    (host : Host) (codec : Codec) (services : Services) (disk : Disk) (response : String) (d : Core)
    → Leads AnyEnd d
        (apply_review host codec services disk response)
        (λ r c. Follows services d r.selected_result r.gate c)
unfolding apply_review
apply_review-Follows host codec services disk response d = get-then AnyEnd _ (
    reviewable-then AnyEnd tt d.state d.last_execution _ (λ e at held.
      checked-then AnyEnd tt _ _ _ (λ r _.
        stays-then AnyEnd tt _ _ (validate_outcomes-Stays codec r e d) (λ _.
          ensure-then AnyEnd tt _ _ _ (λ room.
            check_promotion-then AnyEnd tt r.gate r.selected_result e _ (λ chosen.
              write-then AnyEnd tt _ _ _ _ (
                write-then AnyEnd tt _ _ _ _ (
                  bind-Leads AnyEnd _ _ (λ _ c. Follows services d r.selected_result r.gate c)
                    (unfold apply_gate in
                      apply_action-Follows services d e held r r.gate room chosen)
                    (λ _ c follows.
                      let reviewed =
                        Follows-reviewed services d r.selected_result r.gate c r follows in
                      get-then AnyEnd _ (
                        put-then AnyEnd _ _
                          (record-then AnyEnd tt _ _ _ _ (finish-Leads AnyEnd r reviewed))))))))))))

done-injective : {X : Type 0} {x y : X} → done x ≡ done y → x ≡ y
done-injective h = cc h

Ends-done :
    {X : Type 0} (Q : X → Core → Type 0) (out : Session × Outcome X) (x : X)
    → Ends AnyEnd Q out
    → out.1 ≡ done x
    → Q x out.0.core
Ends-done Q (s, done y) x h same = subst (λ z. Q z s.core) (done-injective same) h
Ends-done Q (s, raised e) x h same = cc

-- A review that is applied follows its gate. CONTINUE_PROMOTE_RESULT makes the bundle that the
-- promotion returned the new base, with a valid binding added to the lineage, and only for a selected
-- result of the last execution that a replay has proven: the proof with the selected id, or the
-- sweep's member with the selected index. The other gates keep the base. Both that continue leave the
-- session planning and are applied only while an attempt is left; COMPLETE_RESEARCH and UNRESOLVED
-- make it ready for synthesis with their disposition.
pub apply_review-done :
    (host : Host) (codec : Codec) (services : Services) (disk : Disk) (response : String)
    (s : Session) (r : ReviewDecision)
    → (apply_review host codec services disk response s).1 ≡ done r
    → Follows services s.core r.selected_result r.gate
        (apply_review host codec services disk response s).0.core
apply_review-done host codec services disk response s r applied =
    Ends-done (λ r c. Follows services s.core r.selected_result r.gate c)
      (apply_review host codec services disk response s) r
      ((apply_review-Follows host codec services disk response s.core).run s.store) applied
