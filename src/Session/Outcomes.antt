-- ===== src/Session/Outcomes.antt =====
-- The observation outcomes of a review against the results of its execution:
-- `_expected_observation_results` and `_validate_observation_outcomes` of
-- src/cuda_fractal_state_tool/research_session.py.
use Prim.Native.String.{◌++◌ as append}
use cuda_fractal_engine_stat.Prelude.{
  ℕ, suc, Bool, true, false, ◌&&◌, Option, none, some, List, [], ◌∷◌, String, str_eq, if◌then◌else◌,
  contains,
}
use cuda_fractal_engine_stat.Json.Paths.{decimal}
use cuda_fractal_engine_stat.Sweep.Run.{Member, Proof}
use cuda_fractal_engine_stat.Response
use cuda_fractal_engine_stat.Response.{
  ResearchAction, ReviewGate, complete_research, continue_retain_base, continue_promote_result,
  gate_text, NextActionClass, Classification, Host,
}
use cuda_fractal_engine_stat.Response.Review.{ObservationOutcome, ReviewDecision}
use cuda_fractal_engine_stat.Session.Execution.{status_text}
use cuda_fractal_engine_stat.Session.State.{
  ExecutionEvidence, outcomes_not_covered, outcome_misclassified, Step, ◌>>=◌, ensure, Codec,
}

-- A `dict` from identities to statuses.
abbrev pub Expected : Type 0
Expected = List (String × String)

put_status : String → String → Expected → Expected
put_status identity status [] = (identity, status) ∷ []
put_status identity status ((i, s) ∷ rest) =
    if str_eq i identity then (i, status) ∷ rest else (i, s) ∷ put_status identity status rest

-- f"sweep:{sweep_id}:{member.index}"
unfoldable pub member_identity : String → ℕ → String
unfolding decimal
member_identity sweep_id index =
    append "sweep:" (append sweep_id (append ":" (decimal (suc index) index)))

members_expected : String → List Member → Expected → Expected
unfolding put_status member_identity status_text
members_expected sweep_id [] expected = expected
members_expected sweep_id (m ∷ rest) expected =
    members_expected sweep_id rest
      (put_status (member_identity sweep_id m.index) (status_text m.status) expected)

-- `action.value.lower()`.
lower_action : ResearchAction → String
lower_action Response.answer_ready = "answer_ready"
lower_action Response.single_override = "single_override"
lower_action Response.scalar_sweep = "scalar_sweep"
lower_action Response.unresolved_report = "unresolved_report"

single_expected : Codec → ResearchAction → Option Proof → Expected
unfolding lower_action
single_expected codec action (some proof) =
    (append "single:" proof.proof_id, codec.upper proof.status) ∷ []
single_expected codec action none =
    (append (lower_action action) ":execution", "EXECUTION_FAILED") ∷ []

unfoldable pub expected_results : Codec → ExecutionEvidence → Expected
unfolding members_expected single_expected
expected_results codec e = elim e.sweep [
  | some sweep ↦ members_expected sweep.sweep_id sweep.members []
  | none ↦ single_expected codec e.action e.proof
]

identities_of : Expected → List String
identities_of [] = []
identities_of ((i, s) ∷ rest) = i ∷ identities_of rest

supplied_of : List ObservationOutcome → List String
supplied_of [] = []
supplied_of (o ∷ rest) = o.result_identity ∷ supplied_of rest

covers : List String → List String → Bool
covers xs [] = true
covers xs (y ∷ ys) = contains xs y && covers xs ys

-- The classifications that a status admits.
unfoldable pub admits : String → Classification → Bool
admits status c =
    if str_eq status "REPLAY_PROVEN"
    then elim c [ Response.execution_failed ↦ false | _ ↦ true ]
    else if str_eq status "EXECUTION_FAILED"
    then elim c [ Response.execution_failed ↦ true | _ ↦ false ]
    else if str_eq status "NO_EFFECT_ENGINE_EMITTED_BASE"
    then elim c [ Response.unobservable ↦ true | _ ↦ false ]
    else elim c [ Response.execution_failed ↦ true | Response.unobservable ↦ true | _ ↦ false ]

-- `supplied[identity].classification`; the identities of the outcomes are all different.
unfoldable pub classified : String → List ObservationOutcome → Option Classification
classified identity [] = none
classified identity (o ∷ rest) =
    if str_eq o.result_identity identity then some o.classification else classified identity rest

admits_optional : String → Option Classification → Bool
unfolding admits
admits_optional status none = false
admits_optional status (some c) = admits status c

unfoldable pub all_admitted : Expected → List ObservationOutcome → Bool
unfolding admits_optional classified
all_admitted [] outcomes = true
all_admitted ((identity, status) ∷ rest) outcomes =
    admits_optional status (classified identity outcomes) && all_admitted rest outcomes

unfoldable pub same_identities : Expected → List ObservationOutcome → Bool
unfolding identities_of supplied_of covers
same_identities expected outcomes =
    covers (identities_of expected) (supplied_of outcomes)
    && covers (supplied_of outcomes) (identities_of expected)

unfoldable pub validate_outcomes : Codec → ReviewDecision → ExecutionEvidence → Step (Unit {0})
unfolding same_identities all_admitted expected_results
validate_outcomes codec d e = do
  _ ←
      ensure (same_identities (expected_results codec e) d.observation_outcomes)
        outcomes_not_covered
  ensure (all_admitted (expected_results codec e) d.observation_outcomes) outcome_misclassified
