-- ===== src/Sweep/Run/Complete.antt =====
-- What a complete sweep has proved, and where the policy stops one.
use mathlib.Core.Path.{subst₂}
use cuda_fractal_engine_stat.Prelude.{
  ℕ, suc, Bool, true, false, not, Option, none, some, List, [], ◌∷◌, ◌≡◌, refl, sym, ◌∙◌, ap, ◌↔◌,
  All, if_case, str_eq, arith,
}
use cuda_fractal_engine_stat.Sweep.Run.{
  Policy, continue_independent, stop_on_first_failure, Status, replay_proven, proof_failed,
  Disposition, complete, partial_member_failures, stopped_after_member_failure, cancelled,
  authority_drift, presentation_failed, Proof, ProofOutcome, returned, job_cancelled, raised,
  Observation, Planned, ScalarSweepPlan, Turn, is_failure, after_failure, after_member,
  proof_status, prove_member, run_member, run_members, execute,
}
use cuda_fractal_engine_stat.Sweep.Run.Halt.{statuses, skipped_as, turn_stops}

-- The environment shows neither a cancellation nor a drift at these indices.
abbrev pub IsCalm : Observation → Type 0
IsCalm o =
    (o.cancelled_before ≡ false)
    × (o.authority_before ≡ true)
    × (o.cancelled_after ≡ false)
    × (o.authority_after ≡ true)

abbrev pub Calm : (ℕ → Observation) → List Planned → ℕ → Type 0
Calm observe [] i = Unit
Calm observe (x ∷ rest) i = IsCalm (observe i) × Calm observe rest (suc i)

-- What a turn that leaves the sweep complete and running has seen.
abbrev Seen : Observation → Disposition → Turn → Type 0
Seen o d t = t.1 ≡ complete → t.2 ≡ none → (d ≡ complete) × (t.0.status ≡ replay_proven) × IsCalm o

-- The same of the checks after a member of some status.
abbrev AfterSeen : Observation → Disposition → Status → Disposition × Option Status → Type 0
AfterSeen o d s t =
    t.0 ≡ complete
    → t.1 ≡ none
    → (d ≡ complete)
      × (s ≡ replay_proven)
      × (o.cancelled_after ≡ false)
      × (o.authority_after ≡ true)

after_failure_seen : (p : Policy) (d : Disposition) → (after_failure p d).0 ≡ complete → ⊥
after_failure_seen stop_on_first_failure d h = cc
after_failure_seen continue_independent complete h = cc
after_failure_seen continue_independent partial_member_failures h = cc
after_failure_seen continue_independent stopped_after_member_failure h = cc
after_failure_seen continue_independent cancelled h = cc
after_failure_seen continue_independent authority_drift h = cc
after_failure_seen continue_independent presentation_failed h = cc

of_not : (b : Bool) → not b ≡ false → b ≡ true
of_not b h = ground arith

after_seen :
    (plan : ScalarSweepPlan) (o : Observation) (d : Disposition) (s : Status)
    → (is_failure s ≡ false → s ≡ replay_proven)
    → AfterSeen o d s (after_member plan o d s)
unfolding after_member
after_seen plan o d s h =
    if_case (AfterSeen o d s) o.cancelled_after _ _ (λ _ e _. absurd (cc e))
      (λ calm.
        if_case (AfterSeen o d s) (not o.authority_after) _ _ (λ _ e _. absurd (cc e))
          (λ holds.
            if_case (AfterSeen o d s) (is_failure s) _ _
              (λ _ e _. absurd (after_failure_seen plan.member_failure_policy d e))
              (λ fine e _. (e, h fine, calm, of_not _ holds))))

proof_status_fine :
    (proof : Proof) (emitted : Bool)
    → is_failure (proof_status proof emitted) ≡ false
    → proof_status proof emitted ≡ replay_proven
unfolding proof_status
proof_status_fine proof emitted =
    let P = λ (s : Status). is_failure s ≡ false → s ≡ replay_proven in
    if_case P (str_eq proof.status "replay_proven") _ _ (λ _ _. refl)
      (λ _. if_case P emitted _ _ (λ _ h. absurd (cc h)) (λ _ h. absurd (cc h)))

prove-Seen :
    (plan : ScalarSweepPlan) (o : Observation) (i : ℕ) (x : Planned) (d : Disposition)
    (p : ProofOutcome)
    → o.cancelled_before ≡ false
    → o.authority_before ≡ true
    → Seen o d (prove_member plan o i x d p)
unfolding prove_member
prove-Seen plan o i x d (returned proof) calm holds e f =
    let s = proof_status proof o.emitted_base in
    let (was, proven, c, a) = after_seen plan o d s (proof_status_fine proof o.emitted_base) e f in
    (was, proven, (calm, holds, c, a))
prove-Seen plan o i x d job_cancelled calm holds e f = absurd (cc e)
prove-Seen plan o i x d (raised message) calm holds e f =
    absurd (cc ((after_seen plan o d proof_failed (λ h. absurd (cc h)) e f).1))

turn-Seen :
    (plan : ScalarSweepPlan) (o : Observation) (i : ℕ) (x : Planned) (d : Disposition)
    → Seen o d (run_member plan o i x d none)
unfolding run_member
turn-Seen plan o i x d =
    if_case (Seen o d) o.cancelled_before _ _ (λ _ e _. absurd (cc e))
      (λ calm.
        if_case (Seen o d) (not o.authority_before) _ _ (λ _ e _. absurd (cc e))
          (λ holds. prove-Seen plan o i x d o.proof calm (of_not _ holds)))

-- What the calm turn of a proven member leaves of a complete sweep.
abbrev Keeps : Turn → Type 0
Keeps t = t.0.status ≡ replay_proven → (t.1 ≡ complete) × (t.2 ≡ none)

abbrev StaysComplete : Disposition × Option Status → Type 0
StaysComplete t = (t.0 ≡ complete) × (t.1 ≡ none)

after_member_keeps :
    (plan : ScalarSweepPlan) (o : Observation) (s : Status)
    → IsCalm o
    → s ≡ replay_proven
    → StaysComplete (after_member plan o complete s)
unfolding after_member
after_member_keeps plan o s c proven =
    if_case StaysComplete o.cancelled_after _ _ (λ e. absurd (cc (e, c.2)))
      (λ _.
        if_case StaysComplete (not o.authority_after) _ _ (λ e. absurd (cc (e, c.3)))
          (λ _.
            if_case StaysComplete (is_failure s) _ _
              (λ e. absurd (cc (sym (ap is_failure proven) ∙ e))) (λ _. (refl, refl))))

prove-Keeps :
    (plan : ScalarSweepPlan) (o : Observation) (i : ℕ) (x : Planned) (p : ProofOutcome)
    → IsCalm o
    → Keeps (prove_member plan o i x complete p)
unfolding prove_member
prove-Keeps plan o i x (returned proof) c proven =
    after_member_keeps plan o (proof_status proof o.emitted_base) c proven
prove-Keeps plan o i x job_cancelled c proven = absurd (cc proven)
prove-Keeps plan o i x (raised message) c proven = absurd (cc proven)

turn-Keeps :
    (plan : ScalarSweepPlan) (o : Observation) (i : ℕ) (x : Planned)
    → IsCalm o
    → Keeps (run_member plan o i x complete none)
unfolding run_member
turn-Keeps plan o i x c =
    if_case Keeps o.cancelled_before _ _ (λ _ e. absurd (cc e))
      (λ _.
        if_case Keeps (not o.authority_before) _ _ (λ _ e. absurd (cc e))
          (λ _. prove-Keeps plan o i x o.proof c))

not_stopped :
    (plan : ScalarSweepPlan) (o : Observation) (i : ℕ) (x : Planned) (d : Disposition) (s : Status)
    → skipped_as d ≡ some s
    → (run_member plan o i x d (some s)).1 ≡ complete
    → ⊥
unfolding run_member
not_stopped plan o i x d s h was = cc (sym h ∙ ap skipped_as was)

module _ (plan : ScalarSweepPlan) (observe : ℕ → Observation) where
  seen_complete :
      (xs : List Planned) (i : ℕ) (d : Disposition) (stop : Option Status)
      → skipped_as d ≡ stop
      → (run_members plan observe xs i d stop).1 ≡ complete
      → (d ≡ complete)
        × All (λ s. s ≡ replay_proven) (statuses (run_members plan observe xs i d stop).0)
        × Calm observe xs i
  unfolding run_members
  seen_complete [] i d stop h e = (e, tt, tt)
  seen_complete (x ∷ rest) i d (some s) h e =
      let t = run_member plan (observe i) i x d (some s) in
      let (was, _, _) =
        seen_complete rest (suc i) t.1 t.2 (turn_stops plan (observe i) i x d (some s) h) e in
      absurd (not_stopped plan (observe i) i x d s h was)
  seen_complete (x ∷ rest) i d none h e =
      let t = run_member plan (observe i) i x d none in
      let stops = turn_stops plan (observe i) i x d none h in
      let (was, proven, calm) = seen_complete rest (suc i) t.1 t.2 stops e in
      let (first, here, now) =
        turn-Seen plan (observe i) i x d was (sym stops ∙ ap skipped_as was) in
      (first, (here, proven), (now, calm))

  keeps_complete :
      (xs : List Planned) (i : ℕ)
      → All (λ s. s ≡ replay_proven) (statuses (run_members plan observe xs i complete none).0)
      → Calm observe xs i
      → (run_members plan observe xs i complete none).1 ≡ complete
  unfolding run_members
  keeps_complete [] i proven calm = refl
  keeps_complete (x ∷ rest) i proven calm =
      let (e, f) = turn-Keeps plan (observe i) i x calm.0 proven.0 in
      let others =
        subst₂
          (λ d stop.
            All (λ s. s ≡ replay_proven)
              (statuses (run_members plan observe rest (suc i) d stop).0))
          e f proven.1 in
      subst₂ (λ d stop. (run_members plan observe rest (suc i) d stop).1 ≡ complete) (sym e) (sym f)
        (keeps_complete rest (suc i) others calm.1)

-- Where the presentation succeeds, a sweep is COMPLETE exactly when every member is replay-proven and
-- no cancellation and no authority drift is seen before or after any member.
pub execute-complete :
    (plan : ScalarSweepPlan) (observe : ℕ → Observation)
    → ((execute plan observe true).1 ≡ complete) ↔ (
        All (λ s. s ≡ replay_proven) (statuses (execute plan observe true).0)
        × Calm observe plan.planned 0)
unfolding execute
execute-complete plan observe = (
  λ e.
      let (_, proven, calm) = seen_complete plan observe plan.planned 0 complete none refl e in
      (proven, calm),
  λ (proven, calm). keeps_complete plan observe plan.planned 0 proven calm,
)
