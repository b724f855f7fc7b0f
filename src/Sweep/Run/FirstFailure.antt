-- ===== src/Sweep/Run/FirstFailure.antt =====
-- What the policy `stop_on_first_failure` makes of a sweep.
use mathlib.Core.Path.{subst}
use cuda_fractal_engine_stat.Prelude.{
  ℕ, suc, Bool, true, false, not, Option, none, some, List, [], ◌∷◌, ◌≡◌, refl, sym, ◌⊎◌, inl, inr,
  All, if_case, str_eq,
}
use cuda_fractal_engine_stat.Sweep.Run.{
  stop_on_first_failure, Status, replay_proven, proof_failed, Disposition, complete, Proof,
  ProofOutcome, returned, job_cancelled, raised, Observation, Planned, ScalarSweepPlan, Turn,
  is_failure, after_failure, after_member, proof_status, prove_member, run_member, run_members,
  execute,
}
use cuda_fractal_engine_stat.Sweep.Run.Halt.{statuses, is_started}

-- Nothing is started after the first member that is not replay-proven.
abbrev pub StopsAtFailure : List Status → Type 0
StopsAtFailure [] = Unit
StopsAtFailure (s ∷ ss) =
    ((s ≡ replay_proven) × StopsAtFailure ss) ⊎ All (λ t. is_started t ≡ false) ss

-- A stop status, if there is one, is a skipped member's.
abbrev Idle : Option Status → Type 0
Idle none = Unit
Idle (some s) = is_started s ≡ false

abbrev Stopped : Option Status → Type 0
Stopped none = ⊥
Stopped (some s) = is_started s ≡ false

abbrev StopsUnlessProven : Turn → Type 0
StopsUnlessProven t = ((t.0.status ≡ replay_proven) × Idle t.2) ⊎ Stopped t.2

abbrev IdleAfter : Disposition × Option Status → Type 0
IdleAfter t = Idle t.1

abbrev StoppedAfter : Disposition × Option Status → Type 0
StoppedAfter t = Stopped t.1

proven_idle :
    (plan : ScalarSweepPlan) (o : Observation) (d : Disposition)
    → IdleAfter (after_member plan o d replay_proven)
unfolding after_member
proven_idle plan o d =
    if_case IdleAfter o.cancelled_after _ _ (λ _. refl)
      (λ _. if_case IdleAfter (not o.authority_after) _ _ (λ _. refl) (λ _. tt))

failure_stopped :
    (plan : ScalarSweepPlan) (o : Observation) (d : Disposition) (s : Status)
    → plan.member_failure_policy ≡ stop_on_first_failure
    → is_failure s ≡ true
    → StoppedAfter (after_member plan o d s)
unfolding after_member
failure_stopped plan o d s policy failed =
    if_case StoppedAfter o.cancelled_after _ _ (λ _. refl)
      (λ _.
        if_case StoppedAfter (not o.authority_after) _ _ (λ _. refl)
          (λ _.
            if_case StoppedAfter (is_failure s) _ _
              (λ _. subst (λ p. StoppedAfter (after_failure p d)) (sym policy) refl)
              (λ fine. absurd (cc (sym failed, fine)))))

proof_status_cases :
    (proof : Proof) (emitted : Bool)
    → (proof_status proof emitted ≡ replay_proven)
      ⊎ (is_failure (proof_status proof emitted) ≡ true)
unfolding proof_status
proof_status_cases proof emitted =
    let P = λ (s : Status). (s ≡ replay_proven) ⊎ (is_failure s ≡ true) in
    if_case P (str_eq proof.status "replay_proven") _ _ (λ _. inl refl)
      (λ _. if_case P emitted _ _ (λ _. inr refl) (λ _. inr refl))

module _ (plan : ScalarSweepPlan)
    (policy : plan.member_failure_policy ≡ stop_on_first_failure) where
  prove_stops :
      (o : Observation) (i : ℕ) (x : Planned) (d : Disposition) (p : ProofOutcome)
      → StopsUnlessProven (prove_member plan o i x d p)
  unfolding prove_member
  prove_stops o i x d (returned proof) = elim (proof_status_cases proof o.emitted_base) [
    | inl proven ↦ inl (
      proven,
      subst (λ s. IdleAfter (after_member plan o d s)) (sym proven) (proven_idle plan o d),
    )
    | inr failed ↦ inr (failure_stopped plan o d (proof_status proof o.emitted_base) policy failed)
  ]
  prove_stops o i x d job_cancelled = inr refl
  prove_stops o i x d (raised message) = inr (failure_stopped plan o d proof_failed policy refl)

  turn-StopsUnlessProven :
      (o : Observation) (i : ℕ) (x : Planned) (d : Disposition)
      → StopsUnlessProven (run_member plan o i x d none)
  unfolding run_member
  turn-StopsUnlessProven o i x d =
      if_case StopsUnlessProven o.cancelled_before _ _ (λ _. inr refl)
        (λ _.
          if_case StopsUnlessProven (not o.authority_before) _ _ (λ _. inr refl)
            (λ _. prove_stops o i x d o.proof))

  module _ (observe : ℕ → Observation) where
    Skips : List Planned → ℕ → Disposition → Option Status → Type 0
    Skips xs i d stop =
        All (λ t. is_started t ≡ false) (statuses (run_members plan observe xs i d stop).0)

    skipped_all :
        (xs : List Planned) (i : ℕ) (d : Disposition) (s : Status)
        → is_started s ≡ false
        → Skips xs i d (some s)
    unfolding Skips run_members run_member
    skipped_all [] i d s idle = tt
    skipped_all (x ∷ rest) i d s idle = (idle, skipped_all rest (suc i) d s idle)

    after_stop :
        (rest : List Planned) (i : ℕ) (d : Disposition) (stop : Option Status)
        → Stopped stop
        → Skips rest i d stop
    after_stop rest i d none stopped = absurd stopped
    after_stop rest i d (some s) stopped = skipped_all rest i d s stopped

    run_members-StopsAtFailure :
        (xs : List Planned) (i : ℕ) (d : Disposition) (stop : Option Status)
        → Idle stop
        → StopsAtFailure (statuses (run_members plan observe xs i d stop).0)
    unfolding run_members
    run_members-StopsAtFailure [] i d stop idle = tt
    run_members-StopsAtFailure (x ∷ rest) i d (some s) idle =
        inr (unfold Skips in unfold run_member in skipped_all rest (suc i) d s idle)
    run_members-StopsAtFailure (x ∷ rest) i d none idle =
        let t = run_member plan (observe i) i x d none in
        elim (turn-StopsUnlessProven (observe i) i x d) [
          | inl (proven, idle') ↦
              inl (proven, run_members-StopsAtFailure rest (suc i) t.1 t.2 idle')
          | inr stopped ↦ inr (unfold Skips in after_stop rest (suc i) t.1 t.2 stopped)
        ]

-- Under `stop_on_first_failure`, no member is started after the first one that is not replay-proven,
-- whatever the environment answers.
pub execute-StopsAtFailure :
    (plan : ScalarSweepPlan) (observe : ℕ → Observation) (presented : Bool)
    → plan.member_failure_policy ≡ stop_on_first_failure
    → StopsAtFailure (statuses (execute plan observe presented).0)
unfolding execute
execute-StopsAtFailure plan observe presented policy =
    run_members-StopsAtFailure plan policy observe plan.planned 0 complete none tt
