-- ===== src/Response/Review.antt =====
-- The reviewer's response: `ResearchResultSelection.parse` and `parse_review_response` of
-- src/cuda_fractal_state_tool/research_protocol.py.
pub mod Sound
use Prim.Native.Char.{Char, code}
use cuda_fractal_engine_stat.Prelude.{
  ℕ, ℤ, pos, negsuc, Bool, true, false, not, ◌&&◌, ◌||◌, Option, none, some, List, [], ◌∷◌, String,
  str_eq, ◌==◌, if◌then◌else◌, is_empty_text, strip, contains,
}
use cuda_fractal_engine_stat.Json.Document.{Json, text, arr, obj, Items, nil, cons, Fields, get}
use cuda_fractal_engine_stat.Override.Draft.Parameters.{has_exactly}
use cuda_fractal_engine_stat.Response.{
  ReviewGate, complete_research, continue_retain_base, continue_promote_result, unresolved, gate_of,
  NextActionClass, state_experiment, next_action_of, Classification, classification_of, Checked,
  accepted, rejected, ◌>>=◌, demand, known, Host, Refusal, gate_line_missing, gate_unsupported,
  outcomes_not_array, outcome_shape, identity_blank, identity_repeated, assessment_blank,
  classification_unsupported, selection_invalid, selection_index_invalid, selection_index_negative,
  next_action_unsupported, promotion_without_result, result_without_promotion,
  continuation_without_experiment, code_block_forbidden,
}
use cuda_fractal_engine_stat.Response.Sections.{
  Sections, contains_fence, sections_before_fence, field_of, is_blank,
}
use cuda_fractal_engine_stat.Response.Planner.{first_word}

-- The kinds of `ResearchResultSelection` that its parser makes.
pub data ResultSelection : Type 0 where
  nothing : ResultSelection
  single : String → ResultSelection
  sweep_member : String → ℕ → ResultSelection

abbrev on_first_part : Char → List String → List String
on_first_part c [] = []
on_first_part c (part ∷ parts) = String.◌∷◌ c part ∷ parts

-- `value.split(":")`.
split_colons : String → List String
split_colons String.[] = "" ∷ []
split_colons (String.◌∷◌ c s) =
    let rest = split_colons s in if code c == b':' then "" ∷ rest else on_first_part c rest

member_at : String → Option ℤ → Checked ResultSelection
member_at sweep_id none = rejected selection_index_invalid
member_at sweep_id (some (pos n)) = accepted (sweep_member sweep_id n)
member_at sweep_id (some (negsuc n)) = rejected selection_index_negative

selection_parts : Host → List String → Checked ResultSelection
unfolding member_at
selection_parts host (kind ∷ name ∷ []) =
    if str_eq kind "single" && not (is_empty_text name)
    then accepted (single name)
    else rejected selection_invalid
selection_parts host (kind ∷ name ∷ index ∷ []) =
    if str_eq kind "sweep" && not (is_empty_text name)
    then member_at name (host.parse_int index)
    else rejected selection_invalid
selection_parts host _ = rejected selection_invalid

unfoldable pub parse_selection : Host → String → Checked ResultSelection
unfolding split_colons selection_parts
parse_selection host value =
    if str_eq value "none" then accepted nothing else selection_parts host (split_colons value)

pub record ObservationOutcome : Type 0 where
  pub result_identity : String
  pub classification : Classification
  pub assessment : String

text_or : Refusal → Json → Checked String
text_or r (text s) = if is_blank s then rejected r else accepted s
text_or r _ = rejected r

classification_from : Json → Option Classification
classification_from (text s) = classification_of s
classification_from _ = none

-- One item of the array, after the identities of the ones before it.
parse_outcome : List String → Json → Checked ObservationOutcome
unfolding text_or classification_from
parse_outcome identities (obj item) = do
  _ ←
      demand (has_exactly item ("result_identity" ∷ "classification" ∷ "assessment" ∷ []))
        outcome_shape
  identity ← text_or identity_blank (get "result_identity" item)
  _ ← demand (not (contains identities identity)) identity_repeated
  assessment ← text_or assessment_blank (get "assessment" item)
  classification ←
      known classification_unsupported (classification_from (get "classification" item))
  accepted (record {
    result_identity = identity;
    classification = classification;
    assessment = strip assessment;
  })
parse_outcome identities _ = rejected outcome_shape

unfoldable pub parse_outcomes : List String → Items → Checked (List ObservationOutcome)
unfolding parse_outcome
parse_outcomes identities nil = accepted []
parse_outcomes identities (cons item rest) = do
  outcome ← parse_outcome identities item
  outcomes ← parse_outcomes (outcome.result_identity ∷ identities) rest
  accepted (outcome ∷ outcomes)

outcome_items : Option Json → Checked Items
outcome_items (some (arr (cons item rest))) = accepted (cons item rest)
outcome_items _ = rejected outcomes_not_array

pub record ReviewDecision : Type 0 where
  pub gate : ReviewGate
  pub source_text : String
  pub source_response_sha256 : String
  pub prediction_outcome : String
  pub evidence_assessment : String
  pub observation_outcomes : List ObservationOutcome
  pub selected_result : ResultSelection
  pub next_action_class : NextActionClass
  pub next_research_step : String
  pub hostile_self_review_conclusion : String

abbrev pub continues : ReviewGate → Bool
continues continue_promote_result = true
continues continue_retain_base = true
continues _ = false

-- The selected result that a gate needs.
check_selection : ReviewGate → ResultSelection → Checked (Unit {0})
check_selection continue_promote_result nothing = rejected promotion_without_result
check_selection continue_promote_result selected = accepted tt
check_selection gate nothing = accepted tt
check_selection gate selected = rejected result_without_promotion

abbrev pub is_experiment : NextActionClass → Bool
is_experiment state_experiment = true
is_experiment _ = false

abbrev review_headings : List String
review_headings =
    "Prediction outcome" ∷ "Evidence assessment" ∷ "Observation outcomes" ∷ "Selected result"
    ∷ "Next action class" ∷ "Next research step" ∷ "Hostile self-review conclusion" ∷ []

outcomes_of : Host → Sections → Checked (List ObservationOutcome)
unfolding outcome_items
outcomes_of host fields = do
  raw ← field_of "Observation outcomes" fields
  items ← outcome_items (host.decode raw)
  parse_outcomes [] items

selection_of : Host → Sections → Checked ResultSelection
unfolding parse_selection
selection_of host fields = do raw ← field_of "Selected result" fields; parse_selection host raw

class_of : Sections → Checked NextActionClass
class_of fields = do
  raw ← field_of "Next action class" fields
  known next_action_unsupported (next_action_of raw)

-- The decision, with the texts that it copies.
decision_from :
    Host
    → String
    → ReviewGate
    → Sections
    → List ObservationOutcome
    → ResultSelection
    → NextActionClass
    → Checked ReviewDecision
decision_from host s gate fields outcomes selection next_class = do
  prediction ← field_of "Prediction outcome" fields
  assessment ← field_of "Evidence assessment" fields
  next_step ← field_of "Next research step" fields
  conclusion ← field_of "Hostile self-review conclusion" fields
  accepted (record {
    gate = gate;
    source_text = s;
    source_response_sha256 = host.sha256 s;
    prediction_outcome = prediction;
    evidence_assessment = assessment;
    observation_outcomes = outcomes;
    selected_result = selection;
    next_action_class = next_class;
    next_research_step = next_step;
    hostile_self_review_conclusion = conclusion;
  })

unfoldable pub review_of : Host → String → ReviewGate → Sections → Checked ReviewDecision
unfolding check_selection outcomes_of selection_of class_of decision_from
review_of host s gate fields = do
  outcomes ← outcomes_of host fields
  selection ← selection_of host fields
  next_class ← class_of fields
  _ ← check_selection gate selection
  _ ← demand (not (continues gate) || is_experiment next_class) continuation_without_experiment
  decision_from host s gate fields outcomes selection next_class

unfoldable pub parse_review_response : Host → String → Checked ReviewDecision
parse_review_response host s = do
  _ ← demand (not (contains_fence s)) code_block_forbidden
  word ← known gate_line_missing (first_word "RESEARCH_GATE: " s)
  gate ← known gate_unsupported (gate_of word)
  fields ← sections_before_fence s review_headings
  review_of host s gate fields
