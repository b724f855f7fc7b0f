-- ===== src/Sweep/Run/Halt.antt =====
-- When a sweep stops, and what its disposition says of its members.
use mathlib.Core.Path.{subst}
use cuda_fractal_engine_stat.Prelude.{
  str_eq, ℕ, suc, Bool, true, false, not, Option, none, some, List, [], ◌∷◌, ◌≡◌, refl, sym, ◌∙◌,
  ◌⊎◌, inl, inr, All, if_case,
}
use cuda_fractal_engine_stat.Sweep.Run.{
  Policy, continue_independent, stop_on_first_failure, Status, replay_proven, proof_failed,
  no_effect_engine_emitted_base, cancelled_during_proof, not_started_after_cancel,
  not_started_after_authority_drift, not_started_after_failure, Disposition, complete,
  partial_member_failures, stopped_after_member_failure, cancelled, authority_drift, Proof,
  ProofOutcome, returned, job_cancelled, raised, Observation, Planned, ScalarSweepPlan, Member,
  Turn, is_failure, after_failure, after_member, proof_status, prove_member, run_member,
  run_members, execute,
}

abbrev pub statuses : List Member → List Status
statuses [] = []
statuses (m ∷ ms) = m.status ∷ statuses ms

abbrev pub is_started : Status → Bool
is_started replay_proven = true
is_started proof_failed = true
is_started no_effect_engine_emitted_base = true
is_started cancelled_during_proof = true
is_started _ = false

-- The status of the members that are not started under a disposition.
abbrev pub skipped_as : Disposition → Option Status
skipped_as stopped_after_member_failure = some not_started_after_failure
skipped_as cancelled = some not_started_after_cancel
skipped_as authority_drift = some not_started_after_authority_drift
skipped_as _ = none

-- Members are started until one is not; from there on all have the disposition's skipped status.
abbrev pub Halts : Disposition → List Status → Type 0
Halts d [] = Unit
Halts d (s ∷ ss) = ((is_started s ≡ true) × Halts d ss) ⊎ All (λ t. skipped_as d ≡ some t) (s ∷ ss)

-- What one turn leaves: a started member and a stop status that is the disposition's, or a skipped one.
abbrev Halting : Turn → Type 0
Halting t =
    ((is_started t.0.status ≡ true) × (skipped_as t.1 ≡ t.2))
    ⊎ ((skipped_as t.1 ≡ some t.0.status) × (t.2 ≡ some t.0.status))

Stops : Disposition × Option Status → Type 0
Stops t = skipped_as t.0 ≡ t.1

failure-Stops : (p : Policy) (d : Disposition) → skipped_as d ≡ none → Stops (after_failure p d)
unfolding Stops
failure-Stops stop_on_first_failure d h = refl
failure-Stops continue_independent complete h = refl
failure-Stops continue_independent partial_member_failures h = refl
failure-Stops continue_independent d h = h

after_member-Stops :
    (plan : ScalarSweepPlan) (o : Observation) (d : Disposition) (s : Status)
    → skipped_as d ≡ none
    → Stops (after_member plan o d s)
unfolding after_member
after_member-Stops plan o d s h =
    if_case Stops o.cancelled_after _ _ (λ _. unfold Stops in refl)
      (λ _.
        if_case Stops (not o.authority_after) _ _ (λ _. unfold Stops in refl)
          (λ _.
            if_case Stops (is_failure s) _ _ (λ _. failure-Stops plan.member_failure_policy d h)
              (λ _. unfold Stops in h)))

proof_status_started :
    (proof : Proof) (emitted : Bool) → is_started (proof_status proof emitted) ≡ true
unfolding proof_status
proof_status_started proof emitted =
    if_case (λ s. is_started s ≡ true) (str_eq proof.status "replay_proven") _ _ (λ _. refl)
      (λ _. if_case (λ s. is_started s ≡ true) emitted _ _ (λ _. refl) (λ _. refl))

prove_member-Halting :
    (plan : ScalarSweepPlan) (o : Observation) (i : ℕ) (x : Planned) (d : Disposition)
    (p : ProofOutcome)
    → skipped_as d ≡ none
    → Halting (prove_member plan o i x d p)
unfolding prove_member
prove_member-Halting plan o i x d (returned proof) h = inl (
  proof_status_started proof o.emitted_base,
  unfold Stops in after_member-Stops plan o d (proof_status proof o.emitted_base) h,
)
prove_member-Halting plan o i x d job_cancelled h = inl (refl, refl)
prove_member-Halting plan o i x d (raised message) h =
    inl (refl, unfold Stops in after_member-Stops plan o d proof_failed h)

turn-Halting :
    (plan : ScalarSweepPlan) (o : Observation) (i : ℕ) (x : Planned) (d : Disposition)
    (stop : Option Status)
    → skipped_as d ≡ stop
    → Halting (run_member plan o i x d stop)
unfolding run_member
turn-Halting plan o i x d (some status) h = inr (h, refl)
turn-Halting plan o i x d none h =
    if_case Halting o.cancelled_before _ _ (λ _. inr (refl, refl))
      (λ _.
        if_case Halting (not o.authority_before) _ _ (λ _. inr (refl, refl))
          (λ _. prove_member-Halting plan o i x d o.proof h))

-- A turn leaves the stop status that belongs to its disposition.
pub turn_stops :
    (plan : ScalarSweepPlan) (o : Observation) (i : ℕ) (x : Planned) (d : Disposition)
    (stop : Option Status)
    → skipped_as d ≡ stop
    → skipped_as (run_member plan o i x d stop).1 ≡ (run_member plan o i x d stop).2
turn_stops plan o i x d stop h = elim (turn-Halting plan o i x d stop h) [
  | inl (_, same) ↦ same
  | inr (skipped, halt) ↦ skipped ∙ sym halt
]

-- After a stop, the disposition stays and every member is skipped.
run_members_stopped :
    (plan : ScalarSweepPlan) (observe : ℕ → Observation) (xs : List Planned) (i : ℕ)
    (d : Disposition) (s : Status)
    → skipped_as d ≡ some s
    → (All (λ t. skipped_as d ≡ some t) (statuses (run_members plan observe xs i d (some s)).0))
      × ((run_members plan observe xs i d (some s)).1 ≡ d)
unfolding run_members run_member
run_members_stopped plan observe [] i d s h = (tt, refl)
run_members_stopped plan observe (x ∷ rest) i d s h =
    let (skipped, same) = run_members_stopped plan observe rest (suc i) d s h in
    ((h, skipped), same)

module _ (plan : ScalarSweepPlan) (observe : ℕ → Observation) where
  -- The rest of a sweep halts.
  RestHalts : List Planned → ℕ → Disposition → Option Status → Type 0
  RestHalts xs i d stop =
      Halts (run_members plan observe xs i d stop).1
        (statuses (run_members plan observe xs i d stop).0)

  after_turn :
      (rest : List Planned) (i : ℕ) (t : Turn)
      → Halting t
      → ((d : Disposition) (stop : Option Status) → skipped_as d ≡ stop → RestHalts rest i d stop)
      → let r = run_members plan observe rest i t.1 t.2 in Halts r.1 (t.0.status ∷ statuses r.0)
  unfolding RestHalts
  after_turn rest i (m, d, stop) (inl (started, same)) ih = inl (started, ih d stop same)
  after_turn rest i (m, d, stop) (inr (skipped, halt)) ih =
      let (others, last) = run_members_stopped plan observe rest i d m.status skipped in
      let skips = λ (e : Disposition).
        All (λ t. skipped_as e ≡ some t)
          (m.status ∷ statuses (run_members plan observe rest i d (some m.status)).0) in
      subst
        (λ q.
          Halts (run_members plan observe rest i d q).1
            (m.status ∷ statuses (run_members plan observe rest i d q).0))
        (sym halt) (inr (subst skips (sym last) (skipped, others)))

  run_members-Halts :
      (xs : List Planned) (i : ℕ) (d : Disposition) (stop : Option Status)
      → skipped_as d ≡ stop
      → RestHalts xs i d stop
  unfolding RestHalts run_members
  run_members-Halts [] i d stop h = tt
  run_members-Halts (x ∷ rest) i d stop h =
      after_turn rest (suc i) (run_member plan (observe i) i x d stop)
        (turn-Halting plan (observe i) i x d stop h)
        (λ d' stop' h'. run_members-Halts rest (suc i) d' stop' h')

-- In a sweep whose presentation succeeds, members are started until one is not; from there on no
-- member is started, and all of them have the one status that says why, which the disposition fixes.
pub execute-Halts :
    (plan : ScalarSweepPlan) (observe : ℕ → Observation)
    → Halts (execute plan observe true).1 (statuses (execute plan observe true).0)
unfolding execute
execute-Halts plan observe =
    unfold RestHalts in run_members-Halts plan observe plan.planned 0 complete none refl
