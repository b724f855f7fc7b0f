-- ===== src/Response/Planner.antt =====
-- The planner's response: `parse_planner_response` and `round_plan_document` of
-- src/cuda_fractal_state_tool/research_protocol.py.
use Prim.Native.Char.{Char, code}
use cuda_fractal_engine_stat.Prelude.{
  ℕ, zero, suc, ◌+◌, ◌-◌, pos, Bool, true, false, not, ◌&&◌, ◌||◌, Option, none, some, List, [],
  ◌∷◌, ◌++◌, String, leb, ◌==◌, if◌then◌else◌, strip, split_lines,
}
use cuda_fractal_engine_stat.Json.Document.{
  Json, int, float, text, arr, Items, nil, cons, Fields, end, field,
}
use cuda_fractal_engine_stat.Sweep.Plan.{repeats, parse_scalar_sweep_plan}
use cuda_fractal_engine_stat.Override.Parse.{parse_state_override}
use cuda_fractal_engine_stat.Response.{
  ResearchAction, answer_ready, single_override, scalar_sweep, unresolved_report, action_of,
  UnresolvedReason, reason_of, Checked, accepted, rejected, ◌>>=◌, demand, known, Host,
  action_line_missing, action_unsupported, fence_count, fence_language, payload_invalid,
  controls_not_array, control_not_number, control_repeated, code_block_forbidden,
  reason_unsupported, not_this_action,
}
use cuda_fractal_engine_stat.Response.Permissions.{
  ExperimentPermissions, starts_with, from_override, from_plan, authorize_single_override,
  authorize_scalar_sweep,
}
use cuda_fractal_engine_stat.Response.Sections.{
  Sections, fence, contains_fence, before_fence, after_colon, skip_blank, sections_before_fence,
  field_of,
}

pub record PlannerDecision : Type 0 where
  pub action : ResearchAction
  pub source_text : String
  pub source_response_sha256 : String
  pub fields : Sections
  pub payload_text : Option String
  pub payload_sha256 : Option String
  pub unresolved_reason : Option UnresolvedReason

unfoldable pub headings_for : ResearchAction → List String
headings_for single_override =
    "Chosen experiment" ∷ "Why this experiment" ∷ "Locked prediction" ∷ "Observation channel"
    ∷ "Disconfirmation condition" ∷ "Camera and fixed-state policy"
    ∷ "Hostile self-review conclusion" ∷ []
headings_for scalar_sweep =
    "Selected bracket" ∷ "Why this bracket" ∷ "Locked trend prediction" ∷ "Observation channel"
    ∷ "Disconfirmation condition" ∷ "Fixed-state and camera policy" ∷ "Replication controls"
    ∷ "Hostile self-review conclusion" ∷ []
headings_for answer_ready =
    "Proposed answer" ∷ "Evidence basis" ∷ "Uncertainty" ∷ "Hostile self-review conclusion" ∷ []
headings_for unresolved_report =
    "Unresolved reason" ∷ "What is missing" ∷ "Why current authority cannot answer"
    ∷ "Best next step" ∷ "Hostile self-review conclusion" ∷ []

-- `text.count("```")`; the number is what is left of a fence that has been counted.
count_fences : ℕ → String → ℕ
count_fences skip String.[] = 0
count_fences (suc skip) (String.◌∷◌ c s) = count_fences skip s
count_fences zero (String.◌∷◌ c s) =
    let hit = starts_with fence (String.◌∷◌ c s) in
    let rest = count_fences (if hit then 2 else 0) s in if hit then suc rest else rest

-- What follows a prefix.
after_prefix : String → String → Option String
after_prefix String.[] s = some s
after_prefix (String.◌∷◌ c prefix) String.[] = none
after_prefix (String.◌∷◌ c prefix) (String.◌∷◌ d s) =
    let rest = after_prefix prefix s in if code c == code d then rest else none

size_of : String → ℕ
size_of String.[] = 0
size_of (String.◌∷◌ c s) = suc (size_of s)

-- `[^\r\n`]*` and what follows it.
info_of : String → String × String
info_of String.[] = (String.[], String.[])
info_of (String.◌∷◌ c s) =
    let (info, rest) = info_of s in
    if code c == 13 || code c == 10 || code c == b'`'
    then (String.[], String.◌∷◌ c s)
    else (String.◌∷◌ c info, rest)

-- `\r?\n`: what follows it, and its size.
after_line_end : String → Option (String × ℕ)
after_line_end String.[] = none
after_line_end (String.◌∷◌ c String.[]) = if code c == 10 then some (String.[], 1) else none
after_line_end (String.◌∷◌ c (String.◌∷◌ d s)) =
    if code c == 10
    then some (String.◌∷◌ d s, 1)
    else if code c == 13 && (code d == 10)
    then some (s, 2)
    else none

-- The language and the payload of a code block, and the size of the match.
pub record Block : Type 0 where
  pub language : String
  pub payload : String
  pub size : ℕ

block_body : String → Option (String × ℕ) → Option Block
unfolding size_of
block_body language none = none
block_body language (some (s, line_end)) =
    if contains_fence s
    then some (record {
      language = language;
      payload = before_fence s;
      size = 3 + size_of language + line_end + size_of (before_fence s) + 3;
    })
    else none

block_after : Option String → Option Block
unfolding info_of after_line_end block_body
block_after none = none
block_after (some s) = let (language, rest) = info_of s in block_body language (after_line_end rest)

-- `_JSON_FENCE` at the start of the text.
match_block : String → Option Block
unfolding after_prefix block_after
match_block s = block_after (after_prefix fence s)

skip_of : Option Block → ℕ
skip_of none = 0
skip_of (some b) = b.size - 1

with_block : Option Block → List Block → List Block
with_block none rest = rest
with_block (some b) rest = b ∷ rest

-- `_JSON_FENCE.findall(text)`; the number is what is left of the last match.
find_blocks : ℕ → String → List Block
unfolding match_block skip_of with_block
find_blocks skip String.[] = []
find_blocks (suc skip) (String.◌∷◌ c s) = find_blocks skip s
find_blocks zero (String.◌∷◌ c s) =
    let found = match_block (String.◌∷◌ c s) in with_block found (find_blocks (skip_of found) s)

lower_code : Char → ℕ
lower_code c = if leb b'A' (code c) && leb (code c) b'Z' then code c + 32 else code c

-- `s.lower() == word` for a word of the letters of "json" and "none", which no other character lowers
-- to.
lowers_to : String → String → Bool
unfolding lower_code
lowers_to String.[] String.[] = true
lowers_to (String.◌∷◌ c s) (String.◌∷◌ d word) = (lower_code c == code d) && lowers_to s word
lowers_to _ _ = false

only_block : List Block → Option Block
only_block (b ∷ []) = some b
only_block _ = none

unfoldable pub single_json_payload : String → Checked String
unfolding find_blocks count_fences only_block lowers_to
single_json_payload s = do
  block ← known fence_count (only_block (find_blocks 0 s))
  _ ← demand (count_fences 0 s == 2) fence_count
  _ ← demand (lowers_to (strip block.language) "json") fence_language
  accepted block.payload

-- The word after the label of the first line that is not blank.
labelled_by : String → List String → Option String
labelled_by label [] = none
labelled_by label (line ∷ rest) =
    if starts_with label (strip line) then some (strip (after_colon (strip line))) else none

unfoldable pub first_word : String → String → Option String
unfolding labelled_by
first_word label s = labelled_by label (skip_blank (split_lines s))

number_items : Items → List Json → Checked (List Json)
number_items nil controls = accepted controls
number_items (cons (int i) rest) controls =
    let later = number_items rest (controls ++ int i ∷ []) in
    if repeats (int i) controls then rejected control_repeated else later
number_items (cons (float x) rest) controls =
    let later = number_items rest (controls ++ float x ∷ []) in
    if repeats (float x) controls then rejected control_repeated else later
number_items (cons _ rest) controls = rejected control_not_number

controls_of : Option Json → Checked (List Json)
unfolding number_items
controls_of (some (arr items)) = number_items items []
controls_of _ = rejected controls_not_array

unfoldable pub replication_controls_from_text : Host → String → Checked (List Json)
unfolding controls_of lowers_to
replication_controls_from_text host raw =
    if lowers_to (strip raw) "none"
    then accepted []
    else controls_of (host.decode_loosely (strip raw))

unfoldable pub replication_controls : Host → PlannerDecision → Checked (List Json)
unfolding replication_controls_from_text
replication_controls host decision = elim decision.action [
  | scalar_sweep ↦ do
    raw ← field_of "Replication controls" decision.fields
    replication_controls_from_text host raw
  | _ ↦ accepted []
]

unfoldable pub decision_of :
    Host
    → String
    → ResearchAction
    → Sections
    → Option String
    → Option UnresolvedReason
    → PlannerDecision
decision_of host s action fields payload reason = record {
  action = action;
  source_text = s;
  source_response_sha256 = host.sha256 s;
  fields = fields;
  payload_text = payload;
  payload_sha256 = elim payload [ none ↦ none | some p ↦ some (host.sha256 p) ];
  unresolved_reason = reason;
}

-- The response after its first line, for each action.
parse_action : Host → String → ResearchAction → Checked PlannerDecision
unfolding replication_controls_from_text headings_for
parse_action host s single_override = do
  fields ← sections_before_fence s (headings_for single_override)
  payload ← single_json_payload s
  document ← known payload_invalid (host.decode payload)
  _ ← from_override (parse_state_override document)
  accepted (decision_of host s single_override fields (some payload) none)
parse_action host s scalar_sweep = do
  fields ← sections_before_fence s (headings_for scalar_sweep)
  payload ← single_json_payload s
  document ← known payload_invalid (host.decode payload)
  _ ← from_plan (parse_scalar_sweep_plan document)
  raw ← field_of "Replication controls" fields
  _ ← replication_controls_from_text host raw
  accepted (decision_of host s scalar_sweep fields (some payload) none)
parse_action host s answer_ready = do
  _ ← demand (not (contains_fence s)) code_block_forbidden
  fields ← sections_before_fence s (headings_for answer_ready)
  accepted (decision_of host s answer_ready fields none none)
parse_action host s unresolved_report = do
  _ ← demand (not (contains_fence s)) code_block_forbidden
  fields ← sections_before_fence s (headings_for unresolved_report)
  raw ← field_of "Unresolved reason" fields
  reason ← known reason_unsupported (reason_of raw)
  accepted (decision_of host s unresolved_report fields none (some reason))

unfoldable pub parse_planner_response : Host → String → Checked PlannerDecision
unfolding parse_action first_word
parse_planner_response host s = do
  word ← known action_line_missing (first_word "RESEARCH_ACTION: " s)
  action ← known action_unsupported (action_of word)
  parse_action host s action

abbrev array_of : List Json → Items
array_of [] = nil
array_of (v ∷ rest) = cons v (array_of rest)

-- `decision.fields[name]` as a value.
field_text : String → PlannerDecision → Checked Json
field_text name decision = do body ← field_of name decision.fields; accepted (text body)

-- The words that an action uses in the plan: its value, and the headings of the experiment, the
-- rationale, the prediction and the camera policy.
pub record PlanWords : Type 0 where
  action_value : String
  experiment : String
  rationale : String
  prediction : String
  camera : String

plan_words : ResearchAction → Option PlanWords
plan_words single_override = some (record {
  action_value = "SINGLE_OVERRIDE";
  experiment = "Chosen experiment";
  rationale = "Why this experiment";
  prediction = "Locked prediction";
  camera = "Camera and fixed-state policy";
})
plan_words scalar_sweep = some (record {
  action_value = "SCALAR_SWEEP";
  experiment = "Selected bracket";
  rationale = "Why this bracket";
  prediction = "Locked trend prediction";
  camera = "Fixed-state and camera policy";
})
plan_words _ = none

unfoldable pub round_plan_document : Host → PlannerDecision → ℕ → Checked Fields
unfolding plan_words field_text replication_controls
round_plan_document host decision attempt_number = do
  words ← known not_this_action (plan_words decision.action)
  _ ← demand (leb 1 attempt_number) not_this_action
  payload_sha ← known not_this_action decision.payload_sha256
  experiment ← field_text words.experiment decision
  rationale ← field_text words.rationale decision
  prediction ← field_text words.prediction decision
  channel ← field_text "Observation channel" decision
  disconfirmation ← field_text "Disconfirmation condition" decision
  camera ← field_text words.camera decision
  controls ← replication_controls host decision
  conclusion ← field_text "Hostile self-review conclusion" decision
  accepted (
      field "round_plan_version" (int (pos 1)) (
        field "round_plan_canonicalization_version" (int (pos 1)) (
          field "attempt_number" (int (pos attempt_number)) (
            field "action" (text words.action_value) (
              field "experiment" experiment (
                field "rationale" rationale (
                  field "prediction" prediction (
                    field "observation_channel" channel (
                      field "disconfirmation_condition" disconfirmation (
                        field "camera_policy" camera (
                          field "replication_controls" (arr (array_of controls)) (
                            field "hostile_self_review_conclusion" conclusion (
                              field "payload_sha256" (text payload_sha) (
                                field "source_response_sha256"
                                  (text decision.source_response_sha256) end))))))))))))))

-- `authorize_single_override` or `authorize_scalar_sweep` of a decoded payload, where the action has
-- one.
authorized_payload : ExperimentPermissions → ResearchAction → Option Json → Checked (Unit {0})
authorized_payload p single_override payload = do
  document ← known payload_invalid payload
  _ ← authorize_single_override document p
  accepted tt
authorized_payload p scalar_sweep payload = do
  document ← known payload_invalid payload
  _ ← authorize_scalar_sweep document p
  accepted tt
authorized_payload p _ payload = accepted tt

decoded : Host → Option String → Option Json
decoded host none = none
decoded host (some payload) = host.decode payload

-- The parse of a response and the authorisation of its payload.
unfoldable pub parse_authorized : Host → ExperimentPermissions → String → Checked PlannerDecision
unfolding authorized_payload decoded
parse_authorized host p s = do
  decision ← parse_planner_response host s
  _ ← authorized_payload p decision.action (decoded host decision.payload_text)
  accepted decision
