-- ===== src/Response/Review/Sound.antt =====
-- What an accepted review has passed: `parse_review_response` of
-- src/cuda_fractal_state_tool/research_protocol.py.
use cuda_fractal_engine_stat.Prelude.{
  Bool, true, false, not, ◌||◌, Option, none, some, List, [], ◌∷◌, String, str_eq, ◌≡◌, ◌≢◌, refl,
  sym, ap, inl, inr, Bool-cases, All, arith, contains,
}
use cuda_fractal_engine_stat.Json.Document.{
  Json, null, bool, int, float, text, arr, obj, Items, nil, cons, get,
}
use cuda_fractal_engine_stat.Override.Draft.Parameters.{has_exactly}
use cuda_fractal_engine_stat.Response.{
  ReviewGate, complete_research, continue_retain_base, continue_promote_result, unresolved,
  NextActionClass, accepted, demand, known, Host, Refusal, gate_of, gate_line_missing,
  gate_unsupported, code_block_forbidden, outcome_shape, identity_blank, identity_repeated,
  assessment_blank, classification_unsupported, continuation_without_experiment, bind_accepted,
  demand-accepted, accepted-injective,
}
use cuda_fractal_engine_stat.Response.Sections.{
  Sections, contains_fence, sections_before_fence, field_of, is_blank,
}
use cuda_fractal_engine_stat.Response.Planner.{first_word}
use cuda_fractal_engine_stat.Response.Review.{
  ResultSelection, nothing, single, sweep_member, ObservationOutcome, text_or, classification_from,
  parse_outcome, parse_outcomes, outcome_items, ReviewDecision, continues, check_selection,
  is_experiment, review_headings, outcomes_of, selection_of, class_of, decision_from, review_of,
  parse_review_response,
}

-- An outcome with an identity that is new and not blank.
abbrev pub Fresh : List String → ObservationOutcome → Type 0
Fresh identities o =
    (contains identities o.result_identity ≡ false) × (is_blank o.result_identity ≡ false)

-- No two outcomes have the same identity, and none has a blank one.
abbrev pub Distinct : List ObservationOutcome → Type 0
Distinct [] = Unit
Distinct (o ∷ rest) =
    (is_blank o.result_identity ≡ false)
    × All (λ p. str_eq o.result_identity p.result_identity ≡ false) rest
    × Distinct rest

text_or-filled :
    (r : Refusal) (v : Json) (s : String) → text_or r v ≡ accepted s → is_blank s ≡ false
unfolding text_or
text_or-filled r (text t) s h = elim (Bool-cases (is_blank t)) [
  | inl blank ↦ ground arith
  | inr filled ↦ ground arith
]
text_or-filled r null s h = cc
text_or-filled r (bool b) s h = cc
text_or-filled r (int i) s h = cc
text_or-filled r (float x) s h = cc
text_or-filled r (arr xs) s h = cc
text_or-filled r (obj fs) s h = cc

parse_outcome-Fresh :
    (identities : List String) (v : Json) (o : ObservationOutcome)
    → parse_outcome identities v ≡ accepted o
    → Fresh identities o
unfolding parse_outcome
parse_outcome-Fresh identities (obj item) o h =
    let (_, _, h1) =
      bind_accepted
        (demand (has_exactly item ("result_identity" ∷ "classification" ∷ "assessment" ∷ []))
          outcome_shape)
        _ h in
    let (identity, read, h2) =
      bind_accepted (text_or identity_blank (get "result_identity" item)) _ h1 in
    let (_, new, h3) =
      bind_accepted (demand (not (contains identities identity)) identity_repeated) _ h2 in
    let (assessment, _, h4) =
      bind_accepted (text_or assessment_blank (get "assessment" item)) _ h3 in
    let (classification, _, h5) =
      bind_accepted
        (known classification_unsupported (classification_from (get "classification" item))) _ h4 in
    let same : identity ≡ o.result_identity = ap (λ p. p.result_identity) (accepted-injective h5) in
    let absent : not (contains identities identity) ≡ true = demand-accepted _ _ new in
    let new' : contains identities identity ≡ false = ground arith in
    (rw (sym same) new', rw (sym same) (text_or-filled _ _ _ read))
parse_outcome-Fresh identities null o h = cc
parse_outcome-Fresh identities (bool b) o h = cc
parse_outcome-Fresh identities (int i) o h = cc
parse_outcome-Fresh identities (float x) o h = cc
parse_outcome-Fresh identities (text s) o h = cc
parse_outcome-Fresh identities (arr xs) o h = cc

-- What is new after a further identity differs from it and was new before.
Fresh-tail :
    (identity : String) (identities : List String) (os : List ObservationOutcome)
    → All (Fresh (identity ∷ identities)) os
    → All (Fresh identities) os × All (λ p. str_eq identity p.result_identity ≡ false) os
Fresh-tail identity identities [] all = (tt, tt)
Fresh-tail identity identities (o ∷ os) all =
    let (fresh, differ) = Fresh-tail identity identities os all.1 in
    let (new, filled) = all.0 in
    let earlier : contains identities o.result_identity ≡ false = ground arith in
    let other : str_eq identity o.result_identity ≡ false = ground arith in
    (((earlier, filled), fresh), (other, differ))

parse_outcomes-Distinct :
    (identities : List String) (items : Items) (os : List ObservationOutcome)
    → parse_outcomes identities items ≡ accepted os
    → All (Fresh identities) os × Distinct os
unfolding parse_outcomes
parse_outcomes-Distinct identities nil os h = rw (sym (accepted-injective h)) (tt, tt)
parse_outcomes-Distinct identities (cons item rest) os h =
    let (o, first, h1) = bind_accepted (parse_outcome identities item) _ h in
    let (later, others, h2) =
      bind_accepted (parse_outcomes (o.result_identity ∷ identities) rest) _ h1 in
    let fresh = parse_outcome-Fresh identities item o first in
    let (all, distinct) =
      parse_outcomes-Distinct (o.result_identity ∷ identities) rest later others in
    let (new, differ) = Fresh-tail o.result_identity identities later all in
    rw (sym (accepted-injective h2)) ((fresh, new), (fresh.1, differ, distinct))

outcome_items-cons :
    (v : Option Json) (items : Items)
    → outcome_items v ≡ accepted items
    → (item : Json) × (rest : Items) × (items ≡ cons item rest)
unfolding outcome_items
outcome_items-cons (some (arr (cons item rest))) items h = (item, rest, sym (accepted-injective h))
outcome_items-cons (some (arr nil)) items h = cc
outcome_items-cons (some null) items h = cc
outcome_items-cons (some (bool b)) items h = cc
outcome_items-cons (some (int i)) items h = cc
outcome_items-cons (some (float x)) items h = cc
outcome_items-cons (some (text s)) items h = cc
outcome_items-cons (some (obj fs)) items h = cc
outcome_items-cons none items h = cc

parse_outcomes-cons_ne :
    (item : Json) (rest : Items) (os : List ObservationOutcome)
    → parse_outcomes [] (cons item rest) ≡ accepted os
    → os ≢ []
unfolding parse_outcomes
parse_outcomes-cons_ne item rest os h same =
    let (o, _, h1) = bind_accepted (parse_outcome [] item) _ h in
    let (later, _, h2) = bind_accepted (parse_outcomes (o.result_identity ∷ []) rest) _ h1 in cc

parse_outcomes-ne :
    (v : Option Json) (items : Items) (os : List ObservationOutcome)
    → outcome_items v ≡ accepted items
    → parse_outcomes [] items ≡ accepted os
    → os ≢ []
parse_outcomes-ne v items os read h =
    let (item, rest, same) = outcome_items-cons v items read in
    parse_outcomes-cons_ne item rest os (rw (sym same) h)

abbrev pub promotes : ReviewGate → Bool
promotes continue_promote_result = true
promotes _ = false

abbrev pub selects : ResultSelection → Bool
selects nothing = false
selects _ = true

check_selection-promotes :
    (gate : ReviewGate) (selected : ResultSelection) {x : Unit {0}}
    → check_selection gate selected ≡ accepted x
    → promotes gate ≡ selects selected
unfolding check_selection
check_selection-promotes continue_promote_result nothing h = cc
check_selection-promotes continue_promote_result (single p) h = refl
check_selection-promotes continue_promote_result (sweep_member q n) h = refl
check_selection-promotes complete_research nothing h = refl
check_selection-promotes complete_research (single p) h = cc
check_selection-promotes complete_research (sweep_member q n) h = cc
check_selection-promotes continue_retain_base nothing h = refl
check_selection-promotes continue_retain_base (single p) h = cc
check_selection-promotes continue_retain_base (sweep_member q n) h = cc
check_selection-promotes unresolved nothing h = refl
check_selection-promotes unresolved (single p) h = cc
check_selection-promotes unresolved (sweep_member q n) h = cc

outcomes_of-Distinct :
    (host : Host) (fields : Sections) (os : List ObservationOutcome)
    → outcomes_of host fields ≡ accepted os
    → (os ≢ []) × Distinct os
unfolding outcomes_of
outcomes_of-Distinct host fields os h =
    let (raw, _, h1) = bind_accepted (field_of "Observation outcomes" fields) _ h in
    let (items, read, parsed) = bind_accepted (outcome_items (host.decode raw)) _ h1 in
    (parse_outcomes-ne _ items os read parsed, (parse_outcomes-Distinct [] items os parsed).1)

-- What a decision copies.
pub record Copies (gate : ReviewGate) (outcomes : List ObservationOutcome)
    (selection : ResultSelection) (next : NextActionClass) (d : ReviewDecision) : Type 0 where
  gates : gate ≡ d.gate
  outcomes_seen : outcomes ≡ d.observation_outcomes
  results : selection ≡ d.selected_result
  classes : next ≡ d.next_action_class

decision_from-Copies :
    (host : Host) (s : String) (gate : ReviewGate) (fields : Sections)
    (outcomes : List ObservationOutcome) (selection : ResultSelection) (next : NextActionClass)
    (d : ReviewDecision)
    → decision_from host s gate fields outcomes selection next ≡ accepted d
    → Copies gate outcomes selection next d
unfolding decision_from
decision_from-Copies host s gate fields outcomes selection next d h =
    let (_, _, h1) = bind_accepted (field_of "Prediction outcome" fields) _ h in
    let (_, _, h2) = bind_accepted (field_of "Evidence assessment" fields) _ h1 in
    let (_, _, h3) = bind_accepted (field_of "Next research step" fields) _ h2 in
    let (_, _, h4) = bind_accepted (field_of "Hostile self-review conclusion" fields) _ h3 in
    let same = accepted-injective h4 in
    record {
      gates = ap (λ r. r.gate) same;
      outcomes_seen = ap (λ r. r.observation_outcomes) same;
      results = ap (λ r. r.selected_result) same;
      classes = ap (λ r. r.next_action_class) same;
    }

-- What the fields of an accepted review have passed.
review_of-passed :
    (host : Host) (s : String) (gate : ReviewGate) (fields : Sections) (d : ReviewDecision)
    → review_of host s gate fields ≡ accepted d
    → (d.observation_outcomes ≢ [])
      × Distinct d.observation_outcomes
      × (promotes d.gate ≡ selects d.selected_result)
      × ((not (continues d.gate) || is_experiment d.next_action_class) ≡ true)
unfolding review_of
review_of-passed host s gate fields d h =
    let (outcomes, parsed, h1) = bind_accepted (outcomes_of host fields) _ h in
    let (selection, _, h2) = bind_accepted (selection_of host fields) _ h1 in
    let (next, _, h3) = bind_accepted (class_of fields) _ h2 in
    let (_, matched, h4) = bind_accepted (check_selection gate selection) _ h3 in
    let (_, continued, h5) =
      bind_accepted
        (demand (not (continues gate) || is_experiment next) continuation_without_experiment) _
        h4 in
    let c = decision_from-Copies host s gate fields outcomes selection next d h5 in
    let (some_outcome, distinct) = outcomes_of-Distinct host fields outcomes parsed in
    (
      rw (sym c.outcomes_seen) some_outcome,
      rw (sym c.outcomes_seen) distinct,
      rw (sym c.gates, sym c.results) (check_selection-promotes gate selection matched),
      rw (sym c.gates, sym c.classes) (demand-accepted _ _ continued),
    )

-- A review that is accepted has at least one observation outcome, the identities of its outcomes are
-- not blank and all different, it selects a result exactly where its gate promotes one, and a gate that
-- continues names a state experiment as the next action.
pub parse_review_response-passed :
    (host : Host) (s : String) (d : ReviewDecision)
    → parse_review_response host s ≡ accepted d
    → (d.observation_outcomes ≢ [])
      × Distinct d.observation_outcomes
      × (promotes d.gate ≡ selects d.selected_result)
      × ((not (continues d.gate) || is_experiment d.next_action_class) ≡ true)
unfolding parse_review_response
parse_review_response-passed host s d h =
    let (_, _, h1) = bind_accepted (demand (not (contains_fence s)) code_block_forbidden) _ h in
    let (word, _, h2) =
      bind_accepted (known gate_line_missing (first_word "RESEARCH_GATE: " s)) _ h1 in
    let (gate, _, h3) = bind_accepted (known gate_unsupported (gate_of word)) _ h2 in
    let (fields, _, h4) = bind_accepted (sections_before_fence s review_headings) _ h3 in
    review_of-passed host s gate fields d h4
