-- ===== src/Runner/Tests.antt =====
-- A run of two rounds at most, with a provider that answers each planner.
use cuda_fractal_engine_stat.Prelude.{◌+◌, ◌≤◌, false, List, [], ◌∷◌, length, arith}
use cuda_fractal_engine_stat.RunStore.{empty}
use cuda_fractal_engine_stat.Session.State.{Session}
use cuda_fractal_engine_stat.Session.Planning.{initial}
use cuda_fractal_engine_stat.Session.Tests.{brief, base_bundle, host, codec, services, disk}
use cuda_fractal_engine_stat.Runner.{World, ok, run_rounds}
use cuda_fractal_engine_stat.Runner.Rounds.{Reached, run_rounds-initial-Reached}

abbrev world : World
world = record {
  alternate_required = false;
  planner_context = λ c store. (store, ok tt);
  review_context = λ c e store. (store, ok tt);
  dispatch = λ request store. (store, ok "RESEARCH_ACTION: SINGLE_OVERRIDE");
  services = λ stage. services;
  disk = λ stage. disk;
  execution_services = services;
  execution_disk = disk;
}

abbrev worlds : List World
worlds = world ∷ world ∷ world ∷ []

abbrev new_session : Session
new_session = record { core = initial brief base_bundle; store = empty }

worlds_enough : brief.maximum_experiment_rounds + 1 ≤ length worlds
worlds_enough = omega arith

run_rounds-initial-Reached_example : Reached (run_rounds host codec worlds new_session)
run_rounds-initial-Reached_example =
    run_rounds-initial-Reached host codec brief base_bundle empty worlds worlds_enough
