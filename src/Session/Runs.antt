-- ===== src/Session/Runs.antt =====
-- A session under any sequence of calls of its controller:
-- `ResearchSessionController` of src/cuda_fractal_state_tool/research_session.py.
use cuda_fractal_engine_stat.Prelude.{Bool, List, [], ◌∷◌, String, refl, arith}
use cuda_fractal_engine_stat.RunStore.{Store}
use cuda_fractal_engine_stat.Response.{Host}
use cuda_fractal_engine_stat.Session.State.{
  AgentBundle, Brief, Session, Outcome, done, raised, Disk, Codec, Services,
}
use cuda_fractal_engine_stat.Session.Planning.{initial, prepare_planner_response}
use cuda_fractal_engine_stat.Session.Execution.{execute_prepared}
use cuda_fractal_engine_stat.Session.Review.{apply_review}
use cuda_fractal_engine_stat.Session.Hoare.{Ends}
use cuda_fractal_engine_stat.Session.Invariant.{IsSound, AreNumbered}
use cuda_fractal_engine_stat.Session.Invariant.Planning.{prepare-Leads}
use cuda_fractal_engine_stat.Session.Invariant.Execution.{execute_prepared-Leads}
use cuda_fractal_engine_stat.Session.Invariant.Review.{apply_review-Leads}

-- A call, with what its services and its disk do.
pub data Call : Type 0 where
  plan : Services → Disk → String → Bool → Call
  execute : Services → Disk → Call
  review : Services → Disk → String → Call

unfoldable pub call : Host → Codec → Call → Session → Session
call host codec (plan services disk response correction) s =
    (prepare_planner_response host codec services disk response correction s).0
call host codec (execute services disk) s = (execute_prepared codec services disk s).0
call host codec (review services disk response) s =
    (apply_review host codec services disk response s).0

unfoldable pub call_all : Host → Codec → List Call → Session → Session
unfolding call
call_all host codec [] s = s
call_all host codec (c ∷ calls) s = call_all host codec calls (call host codec c s)

Ends-IsSound :
    {X : Type 0} (r : Session × Outcome X) → Ends IsSound (λ _ c. IsSound c) r → IsSound r.0.core
Ends-IsSound (s, done x) h = h
Ends-IsSound (s, raised e) h = h

call-IsSound :
    (host : Host) (codec : Codec) (c : Call) (s : Session)
    → IsSound s.core
    → IsSound (call host codec c s).core
unfolding call
call-IsSound host codec (plan services disk response correction) s sound =
    Ends-IsSound (prepare_planner_response host codec services disk response correction s)
      ((prepare-Leads host codec services disk response correction s.core sound).run s.store)
call-IsSound host codec (execute services disk) s sound =
    Ends-IsSound (execute_prepared codec services disk s)
      ((execute_prepared-Leads codec services disk s.core sound).run s.store)
call-IsSound host codec (review services disk response) s sound =
    Ends-IsSound (apply_review host codec services disk response s)
      ((apply_review-Leads host codec services disk response s.core sound).run s.store)

call_all-IsSound :
    (host : Host) (codec : Codec) (calls : List Call) (s : Session)
    → IsSound s.core
    → IsSound (call_all host codec calls s).core
unfolding call_all
call_all-IsSound host codec [] s sound = sound
call_all-IsSound host codec (c ∷ calls) s sound =
    call_all-IsSound host codec calls (call host codec c s) (call-IsSound host codec c s sound)

pub initial-IsSound : (brief : Brief) (bundle : AgentBundle) → IsSound (initial brief bundle)
unfolding initial AreNumbered
initial-IsSound brief bundle = record {
  bounded = omega arith;
  based = ([], refl);
  numbered = tt;
  phase = (omega arith, refl, refl, refl);
}

-- From a new session, after any calls in any order, whether they return or raise, and whatever their
-- services and their disk do: the attempts consumed are at most the brief's rounds; the packet lineage
-- ends in the current packet; the execution history holds evidence of each attempt that has finished,
-- by its attempt number, once and in order, and of nothing else; there are as many reviews as attempts
-- that are neither under way nor under review; a ready plan is for the next attempt and that attempt
-- is within the rounds; a planning session has an attempt left unless the rounds are zero; and the
-- disposition is RUNNING exactly until the session is ready for synthesis.
pub call_all-initial-IsSound :
    (host : Host) (codec : Codec) (brief : Brief) (bundle : AgentBundle) (store : Store)
    (calls : List Call)
    → IsSound
        (call_all host codec calls (record { core = initial brief bundle; store = store })).core
call_all-initial-IsSound host codec brief bundle store calls =
    call_all-IsSound host codec calls (record { core = initial brief bundle; store = store })
      (initial-IsSound brief bundle)
