-- ===== src/Sweep/Run/Order.antt =====
-- The members of a sweep against the values of its plan.
use cuda_fractal_engine_stat.Prelude.{
  ℕ, suc, Bool, not, Option, none, some, List, [], ◌∷◌, String, ◌≡◌, refl, if_case,
}
use cuda_fractal_engine_stat.Json.Document.{Json}
use cuda_fractal_engine_stat.Sweep.Run.{
  ScalarSweepPlan, Status, Disposition, Observation, Planned, Member, Turn, ProofOutcome, returned,
  job_cancelled, raised, run_member, run_members, execute, complete, prove_member,
}

-- The index, value and override digest of each member.
abbrev pub identities : List Member → List (ℕ × Json × String)
identities [] = []
identities (m ∷ ms) = (m.index, m.value, m.override_sha256) ∷ identities ms

-- The plan's values with their positions.
abbrev pub numbered : List Planned → ℕ → List (ℕ × Json × String)
numbered [] index = []
numbered (x ∷ rest) index = (index, x.value, x.override_sha256) ∷ numbered rest (suc index)

-- A turn whose member is this value at this index.
abbrev IsTurnOf : ℕ → Planned → Turn → Type 0
IsTurnOf i x t = (t.0.index ≡ i) × (t.0.value ≡ x.value) × (t.0.override_sha256 ≡ x.override_sha256)

after_prove :
    (plan : ScalarSweepPlan) (o : Observation) (i : ℕ) (x : Planned) (d : Disposition)
    (p : ProofOutcome)
    → IsTurnOf i x (prove_member plan o i x d p)
unfolding prove_member
after_prove plan o i x d (returned proof) = (refl, refl, refl)
after_prove plan o i x d job_cancelled = (refl, refl, refl)
after_prove plan o i x d (raised message) = (refl, refl, refl)

identity_of :
    (plan : ScalarSweepPlan) (o : Observation) (i : ℕ) (x : Planned) (d : Disposition)
    (stop : Option Status)
    → IsTurnOf i x (run_member plan o i x d stop)
unfolding run_member
identity_of plan o i x d (some status) = (refl, refl, refl)
identity_of plan o i x d none =
    if_case (IsTurnOf i x) o.cancelled_before _ _ (λ _. (refl, refl, refl))
      (λ _.
        if_case (IsTurnOf i x) (not o.authority_before) _ _ (λ _. (refl, refl, refl))
          (λ _. after_prove plan o i x d o.proof))

run_members-numbered :
    (plan : ScalarSweepPlan) (observe : ℕ → Observation) (xs : List Planned) (i : ℕ)
    (d : Disposition) (stop : Option Status)
    → identities (run_members plan observe xs i d stop).0 ≡ numbered xs i
unfolding run_members
run_members-numbered plan observe [] i d stop = refl
run_members-numbered plan observe (x ∷ rest) i d stop =
    let (_, d', stop') = run_member plan (observe i) i x d stop in
    let (a, b, c) = identity_of plan (observe i) i x d stop in
    rw (a, b, c, run_members-numbered plan observe rest (suc i) d' stop') refl

-- Whatever the environment answers, a sweep has one member for each value of its plan, in the plan's
-- order, with the value's position and its override's digest.
pub execute-numbered :
    (plan : ScalarSweepPlan) (observe : ℕ → Observation) (presented : Bool)
    → identities (execute plan observe presented).0 ≡ numbered plan.planned 0
unfolding execute
execute-numbered plan observe presented =
    run_members-numbered plan observe plan.planned 0 complete none
