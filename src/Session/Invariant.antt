-- ===== src/Session/Invariant.antt =====
-- The invariant of `ResearchSessionController` of src/cuda_fractal_state_tool/research_session.py.
pub mod Execution
pub mod Planning
pub mod Review
use mathlib.Core.Path.{subst}
use cuda_fractal_engine_stat.Prelude.{
  ℕ, suc, ◌+◌, ◌-◌, ◌≤◌, Bool, true, false, Option, none, some, List, [], ◌∷◌, String, length, ◌≡◌,
  ◌≢◌, refl, sym, arith, leb, leb→le,
}
use cuda_fractal_engine_stat.Protocol.Round.{PacketAuthorityBinding}
use cuda_fractal_engine_stat.Session.State.{
  SessionState, planning, plan_ready, executing, review_ready, ready_for_synthesis,
  SessionDisposition, running, AgentBundle, PreparedExperiment, ExecutionEvidence, Core, Session,
  Step, put, get_core, ◌>>=◌, Disk, Codec, Services,
}

-- The attempts that have been executed and reviewed, by the state.
abbrev pub Phase : SessionState → Core → Type 0
-- A session that plans has an attempt left, unless it has none at all.
Phase planning c =
    (c.attempts_consumed ≤ c.brief.maximum_experiment_rounds - 1)
    × (length c.execution_history ≡ c.attempts_consumed)
    × (length c.review_history ≡ c.attempts_consumed)
    × (c.disposition ≡ running)
Phase plan_ready c =
    (p : PreparedExperiment) × (c.prepared ≡ some p)
    × (p.attempt_number ≡ c.attempts_consumed + 1)
    × (c.attempts_consumed + 1 ≤ c.brief.maximum_experiment_rounds)
    × (length c.execution_history ≡ c.attempts_consumed)
    × (length c.review_history ≡ c.attempts_consumed)
    × (c.disposition ≡ running)
Phase executing c =
    (length c.execution_history + 1 ≡ c.attempts_consumed)
    × (length c.review_history + 1 ≡ c.attempts_consumed)
    × (c.disposition ≡ running)
Phase review_ready c =
    (e : ExecutionEvidence) × (c.last_execution ≡ some e)
    × (e.attempt_number ≡ c.attempts_consumed)
    × (length c.execution_history ≡ c.attempts_consumed)
    × (length c.review_history + 1 ≡ c.attempts_consumed)
    × (c.disposition ≡ running)
Phase ready_for_synthesis c =
    (length c.execution_history ≡ c.attempts_consumed)
    × (length c.review_history ≡ c.attempts_consumed)
    × (c.disposition ≢ running)

-- The attempts of a history are numbered from one on, each once.
unfoldable pub AreNumbered : List ExecutionEvidence → Type 0
AreNumbered [] = Unit
AreNumbered (e ∷ rest) = (e.attempt_number ≡ length rest + 1) × AreNumbered rest

pub record IsSound (c : Core) : Type 0 where
  pub bounded : c.attempts_consumed ≤ c.brief.maximum_experiment_rounds
  pub based :
      (earlier : List PacketAuthorityBinding) × (c.current_packet_lineage
        ≡ c.current_packet ∷ earlier)
  pub numbered : AreNumbered c.execution_history
  pub phase : Phase c.state c

Phase-flags :
    (state : SessionState) (d : Core) (used available : Bool)
    → Phase state d
    → Phase state (record d { correction_used = used; correction_available = available })
Phase-flags planning d used available h = h
Phase-flags plan_ready d used available h = h
Phase-flags executing d used available h = h
Phase-flags review_ready d used available h = h
Phase-flags ready_for_synthesis d used available h = h

-- The flags of the correction do not matter.
pub flags-IsSound :
    (d : Core) (used available : Bool)
    → IsSound d
    → IsSound (record d { correction_used = used; correction_available = available })
flags-IsSound d used available sound = record {
  bounded = sound.bounded;
  based = sound.based;
  numbered = sound.numbered;
  phase = Phase-flags d.state d used available sound.phase;
}

Phase-bundle :
    (state : SessionState) (d : Core) (bundle : AgentBundle)
    → Phase state d
    → Phase state (record d { current_bundle = bundle })
Phase-bundle planning d bundle h = h
Phase-bundle plan_ready d bundle h = h
Phase-bundle executing d bundle h = h
Phase-bundle review_ready d bundle h = h
Phase-bundle ready_for_synthesis d bundle h = h

-- Nor does the bundle, as long as the packet stays.
pub bundle-IsSound :
    (d : Core) (bundle : AgentBundle) → IsSound d → IsSound (record d { current_bundle = bundle })
bundle-IsSound d bundle sound = record {
  bounded = sound.bounded;
  based = sound.based;
  numbered = sound.numbered;
  phase = Phase-bundle d.state d bundle sound.phase;
}

-- What the invariant says where the state is known.
pub Phase-at : {state : SessionState} (d : Core) → IsSound d → d.state ≡ state → Phase state d
Phase-at d sound at = subst (λ state. Phase state d) at sound.phase
