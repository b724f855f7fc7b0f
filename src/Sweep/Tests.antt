-- ===== src/Sweep/Tests.antt =====
-- The sweep's theorems at a bracket of three values.
use cuda_fractal_engine_stat.Prelude.{
  ℕ, zero, suc, true, false, none, [], ◌∷◌, ◌≡◌, ◌↔◌, refl, String, All, pos,
}
use cuda_fractal_engine_stat.Json.Document.{int}
use cuda_fractal_engine_stat.Sweep.Run.{
  stop_on_first_failure, replay_proven, complete, ScalarSweepPlan, Planned, Observation, returned,
  execute,
}
use cuda_fractal_engine_stat.Sweep.Run.Order.{identities, numbered, execute-numbered}
use cuda_fractal_engine_stat.Sweep.Run.Halt.{statuses, Halts, execute-Halts}
use cuda_fractal_engine_stat.Sweep.Run.Complete.{Calm, execute-complete}
use cuda_fractal_engine_stat.Sweep.Run.FirstFailure.{StopsAtFailure, execute-StopsAtFailure}

abbrev planned : ℕ → Planned
planned n = record { value = int (pos n); override_sha256 = "digest" }

abbrev plan : ScalarSweepPlan
plan = record {
  axis_path = "params.iterations";
  member_failure_policy = stop_on_first_failure;
  planned = planned 50 ∷ planned 80 ∷ planned 200 ∷ [];
}

abbrev seen : String → Observation
seen status = record {
  cancelled_before = false;
  authority_before = true;
  proof =
      returned (record { status = status; proof_id = "p"; receipt_sha256 = "r"; message = none });
  emitted_base = false;
  cancelled_after = false;
  authority_after = true;
}

-- The second proof fails.
abbrev observe : ℕ → Observation
observe (suc zero) = seen "replay_failed"
observe _ = seen "replay_proven"

execute-numbered_example : identities (execute plan observe true).0 ≡ numbered plan.planned 0
execute-numbered_example = execute-numbered plan observe true

execute-Halts_example : Halts (execute plan observe true).1 (statuses (execute plan observe true).0)
execute-Halts_example = execute-Halts plan observe

execute-complete_example : ((execute plan observe true).1 ≡ complete) ↔ (
    All (λ s. s ≡ replay_proven) (statuses (execute plan observe true).0)
    × Calm observe plan.planned 0)
execute-complete_example = execute-complete plan observe

execute-StopsAtFailure_example : StopsAtFailure (statuses (execute plan observe true).0)
execute-StopsAtFailure_example = execute-StopsAtFailure plan observe true refl
