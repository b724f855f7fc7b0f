-- ===== src/Session/Invariant/Execution.antt =====
-- An execution keeps the controller's invariant.
use cuda_fractal_engine_stat.Prelude.{◌+◌, Option, none, some, ◌∷◌, ◌≡◌, refl, ◌∙◌, arith}
use cuda_fractal_engine_stat.Session.State.{
  SessionState, planning, plan_ready, executing, review_ready, ready_for_synthesis,
  PreparedExperiment, ExecutionEvidence, Core, Step, ◌>>=◌, Disk, Codec, Services, illegal_state,
}
use cuda_fractal_engine_stat.Session.Execution.{
  execute_prepared, ready_experiment, run_prepared, run_prepared-attempt,
}
use cuda_fractal_engine_stat.Session.Hoare.{
  Leads, get-then, put-then, finish-then, finish-Leads, fail-then, write-then, record-then,
}
use cuda_fractal_engine_stat.Session.Invariant.{IsSound, AreNumbered, Phase-at}

ready_experiment-then :
    {Y : Type 0} {R : Y → Core → Type 0} {d : Core} (sound : IsSound d) (state : SessionState)
    (prepared : Option PreparedExperiment) (next : PreparedExperiment → Step Y)
    → ((p : PreparedExperiment)
        → state ≡ plan_ready
        → prepared ≡ some p
        → Leads IsSound d (next p) R)
    → Leads IsSound d (ready_experiment state prepared >>= next) R
unfolding ready_experiment
ready_experiment-then sound plan_ready (some p) next h = finish-then IsSound p next (h p refl refl)
ready_experiment-then sound plan_ready none next h = fail-then IsSound sound illegal_state next
ready_experiment-then sound planning prepared next h = fail-then IsSound sound illegal_state next
ready_experiment-then sound executing prepared next h = fail-then IsSound sound illegal_state next
ready_experiment-then sound review_ready prepared next h =
    fail-then IsSound sound illegal_state next
ready_experiment-then sound ready_for_synthesis prepared next h =
    fail-then IsSound sound illegal_state next

started-IsSound :
    (d : Core)
    → IsSound d
    → d.state ≡ plan_ready
    → IsSound (record d { attempts_consumed = d.attempts_consumed + 1; state = executing })
started-IsSound d sound ready =
    let (p, held, number, fits, executed, reviewed, runs) = Phase-at d sound ready in
    record {
      bounded = fits;
      based = sound.based;
      numbered = sound.numbered;
      phase = (omega (arith, executed), omega (arith, reviewed), runs);
    }

executed-IsSound :
    (d : Core) (e : ExecutionEvidence)
    → IsSound d
    → d.state ≡ executing
    → e.attempt_number ≡ d.attempts_consumed
    → IsSound (record d {
      last_execution = some e;
      execution_history = e ∷ d.execution_history;
      state = review_ready;
    })
unfolding AreNumbered
executed-IsSound d e sound runs_now number =
    let (executed, reviewed, runs) = Phase-at d sound runs_now in
    record {
      bounded = sound.bounded;
      based = sound.based;
      numbered = (omega (arith, executed, number), sound.numbered);
      phase = (e, refl, number, omega (arith, executed), reviewed, runs);
    }

pub execute_prepared-Leads :
    (codec : Codec) (services : Services) (disk : Disk) (d : Core)
    → IsSound d
    → Leads IsSound d (execute_prepared codec services disk) (λ e c. IsSound c)
unfolding execute_prepared
execute_prepared-Leads codec services disk d sound = get-then IsSound _ (
    ready_experiment-then sound d.state d.prepared _ (λ p ready held.
      let started = started-IsSound d sound ready in
      let (q, held', number, _, _, _, _) = Phase-at d sound ready in
      let e = run_prepared services d.current_bundle p in
      let numbered : e.attempt_number ≡ d.attempts_consumed + 1 =
        run_prepared-attempt services d.current_bundle p ∙ cc in
      let executed =
        executed-IsSound
          (record d { attempts_consumed = d.attempts_consumed + 1; state = executing }) e started
          refl numbered in
      put-then IsSound _ _ (
        record-then IsSound started _ _ _ _ (
          write-then IsSound started _ _ _ _ (
            get-then IsSound _ (
              put-then IsSound _ _
                (record-then IsSound executed _ _ _ _ (finish-Leads IsSound _ executed))))))))
