-- ===== src/Sweep/Run.antt =====
-- The member loop of `ScalarBracketSweepService.execute` of
-- src/cuda_fractal_state_tool/scalar_sweep.py. What the loop asks of its environment at each member
-- (the job's cancellation and the authority of the packet and the runtime, before and after the proof,
-- the proof, and whether the engine emitted the base value) is an observation; the files and the
-- progress events of a member are left out.
pub mod Order
pub mod Halt
pub mod Complete
pub mod FirstFailure
use Prim.Native.String.{◌++◌ as append}
use cuda_fractal_engine_stat.Prelude.{
  ℕ, suc, Bool, true, false, not, Option, none, some, List, [], ◌∷◌, ◌&&◌, String, str_eq,
  if◌then◌else◌,
}
use cuda_fractal_engine_stat.Json.Document.{Json}
use cuda_fractal_engine_stat.Json.Equality.{eq}

pub data Policy : Type 0 where
  continue_independent stop_on_first_failure : Policy

pub data Status : Type 0 where
  replay_proven proof_failed no_effect_engine_emitted_base cancelled_during_proof : Status
  not_started_after_cancel not_started_after_authority_drift not_started_after_failure : Status

pub data Disposition : Type 0 where
  complete partial_member_failures stopped_after_member_failure : Disposition
  cancelled authority_drift presentation_failed : Disposition

pub record Proof : Type 0 where
  pub status : String
  pub proof_id : String
  pub receipt_sha256 : String
  pub message : Option String

-- How a call of the proof ends.
pub data ProofOutcome : Type 0 where
  returned : Proof → ProofOutcome
  job_cancelled : ProofOutcome
  raised : String → ProofOutcome

pub record Observation : Type 0 where
  pub cancelled_before : Bool
  pub authority_before : Bool
  pub proof : ProofOutcome
  pub emitted_base : Bool
  pub cancelled_after : Bool
  pub authority_after : Bool

-- One value of the plan and the digest of its concrete override.
pub record Planned : Type 0 where
  pub value : Json
  pub override_sha256 : String

-- What the loop reads of a `ScalarSweepPlan`, with the overrides that the validation made of its
-- values.
pub record ScalarSweepPlan : Type 0 where
  pub axis_path : String
  pub member_failure_policy : Policy
  pub planned : List Planned

-- `ScalarSweepMemberResult`; the fields that it copies from the proof are the proof's.
pub record Member : Type 0 where
  pub index : ℕ
  pub value : Json
  pub status : Status
  pub override_sha256 : String
  pub message : Option String
  pub proof_result : Option Proof

abbrev pub member_of : ℕ → Planned → Status → Option String → Option Proof → Member
member_of index x status message proof = record {
  index = index;
  value = x.value;
  status = status;
  override_sha256 = x.override_sha256;
  message = message;
  proof_result = proof;
}

-- The status of a proof that has returned.
unfoldable pub proof_status : Proof → Bool → Status
proof_status proof emitted_base =
    if str_eq proof.status "replay_proven"
    then replay_proven
    else if emitted_base
    then no_effect_engine_emitted_base
    else proof_failed

-- `message`, which the collapse to the base value replaces.
unfoldable pub proof_message : String → Status → Option String → Option String
proof_message axis_path no_effect_engine_emitted_base message = some (
    append "Engine emitted the exact captured base value for "
      (append axis_path "; this member produced no distinct state effect."))
proof_message axis_path _ message = message

-- One turn of the loop: the member, the disposition and the stop status after it.
abbrev pub Turn : Type 0
Turn = Member × Disposition × Option Status

abbrev pub is_failure : Status → Bool
is_failure proof_failed = true
is_failure no_effect_engine_emitted_base = true
is_failure _ = false

-- The disposition and the stop status after a failed member, under each policy.
abbrev pub after_failure : Policy → Disposition → Disposition × Option Status
after_failure stop_on_first_failure disposition =
    (stopped_after_member_failure, some not_started_after_failure)
after_failure continue_independent complete = (partial_member_failures, none)
after_failure continue_independent disposition = (disposition, none)

-- The checks that follow a proof.
unfoldable pub after_member :
    ScalarSweepPlan → Observation → Disposition → Status → Disposition × Option Status
after_member plan o disposition status =
    if o.cancelled_after
    then (cancelled, some not_started_after_cancel)
    else if not o.authority_after
    then (authority_drift, some not_started_after_authority_drift)
    else if is_failure status
    then after_failure plan.member_failure_policy disposition
    else (disposition, none)

with_member : Member → Disposition × Option Status → Turn
with_member m (disposition, stop) = (m, disposition, stop)

unfoldable pub prove_member :
    ScalarSweepPlan → Observation → ℕ → Planned → Disposition → ProofOutcome → Turn
unfolding with_member
prove_member plan o index x disposition (returned proof) =
    let status = proof_status proof o.emitted_base in
    with_member
      (member_of index x status (proof_message plan.axis_path status proof.message) (some proof))
      (after_member plan o disposition status)
prove_member plan o index x disposition job_cancelled =
    (member_of index x cancelled_during_proof none none, cancelled, some not_started_after_cancel)
prove_member plan o index x disposition (raised message) =
    with_member (member_of index x proof_failed (some message) none)
      (after_member plan o disposition proof_failed)

unfoldable pub run_member :
    ScalarSweepPlan → Observation → ℕ → Planned → Disposition → Option Status → Turn
run_member plan o index x disposition (some status) =
    (member_of index x status none none, disposition, some status)
run_member plan o index x disposition none =
    if o.cancelled_before
    then (
      member_of index x not_started_after_cancel none none,
      cancelled,
      some not_started_after_cancel,
    )
    else if not o.authority_before
    then (
      member_of index x not_started_after_authority_drift none none,
      authority_drift,
      some not_started_after_authority_drift,
    )
    else prove_member plan o index x disposition o.proof

-- The loop from an index on; `observe` is what the environment answers at each index.
unfoldable pub run_members :
    ScalarSweepPlan
    → (ℕ → Observation)
    → List Planned
    → ℕ
    → Disposition
    → Option Status
    → List Member × Disposition
run_members plan observe [] index disposition stop = ([], disposition)
run_members plan observe (x ∷ rest) index disposition stop =
    let (m, disposition', stop') = run_member plan (observe index) index x disposition stop in
    let (ms, last) = run_members plan observe rest (suc index) disposition' stop' in (m ∷ ms, last)

-- The sweep up to the disposition that its receipt records; its presentation may fail.
unfoldable pub execute : ScalarSweepPlan → (ℕ → Observation) → Bool → List Member × Disposition
execute plan observe presented =
    let (members, disposition) = run_members plan observe plan.planned 0 complete none in
    (members, if presented then disposition else presentation_failed)

-- `_authority_matches`: the manifest's digest and the runtime's snapshot, each `none` where reading it
-- raises, against the validated ones.
unfoldable pub authority_matches : Option String → Option Json → String → Json → Bool
authority_matches (some manifest) (some runtime) manifest_sha256 runtime_snapshot =
    str_eq manifest manifest_sha256 && eq runtime runtime_snapshot
authority_matches _ _ manifest_sha256 runtime_snapshot = false
