-- ===== src/Response.antt =====
-- The words of a planner's and a reviewer's response: the enumerations of
-- src/cuda_fractal_state_tool/research_protocol.py, and the refusals of its parsers.
pub mod Permissions
pub mod Sections
pub mod Planner
pub mod Review
pub mod Tests
use cuda_fractal_engine_stat.Prelude.{
  Bool, true, false, Option, none, some, List, [], ◌∷◌, String, str_eq, if◌then◌else◌, ◌≡◌, refl, ℤ,
}
use cuda_fractal_engine_stat.Json.Document.{Json}

pub data ResearchAction : Type 0 where
  answer_ready single_override scalar_sweep unresolved_report : ResearchAction

-- `ResearchAction(value)`; `none` is its `ValueError`, as in the enumerations below.
unfoldable pub action_of : String → Option ResearchAction
action_of s =
    if str_eq s "ANSWER_READY"
    then some answer_ready
    else if str_eq s "SINGLE_OVERRIDE"
    then some single_override
    else if str_eq s "SCALAR_SWEEP"
    then some scalar_sweep
    else if str_eq s "UNRESOLVED_REPORT"
    then some unresolved_report
    else none

-- `action.value`.
unfoldable pub action_text : ResearchAction → String
action_text answer_ready = "ANSWER_READY"
action_text single_override = "SINGLE_OVERRIDE"
action_text scalar_sweep = "SCALAR_SWEEP"
action_text unresolved_report = "UNRESOLVED_REPORT"

pub data ReviewGate : Type 0 where
  complete_research continue_retain_base continue_promote_result unresolved : ReviewGate

unfoldable pub gate_of : String → Option ReviewGate
gate_of s =
    if str_eq s "COMPLETE_RESEARCH"
    then some complete_research
    else if str_eq s "CONTINUE_RETAIN_BASE"
    then some continue_retain_base
    else if str_eq s "CONTINUE_PROMOTE_RESULT"
    then some continue_promote_result
    else if str_eq s "UNRESOLVED"
    then some unresolved
    else none

-- `gate.value`.
unfoldable pub gate_text : ReviewGate → String
gate_text complete_research = "COMPLETE_RESEARCH"
gate_text continue_retain_base = "CONTINUE_RETAIN_BASE"
gate_text continue_promote_result = "CONTINUE_PROMOTE_RESULT"
gate_text unresolved = "UNRESOLVED"

pub data NextActionClass : Type 0 where
  state_experiment analysis_only answer_ready unavailable : NextActionClass

unfoldable pub next_action_of : String → Option NextActionClass
next_action_of s =
    if str_eq s "STATE_EXPERIMENT"
    then some state_experiment
    else if str_eq s "ANALYSIS_ONLY"
    then some analysis_only
    else if str_eq s "ANSWER_READY"
    then some NextActionClass.answer_ready
    else if str_eq s "UNAVAILABLE"
    then some unavailable
    else none

pub data Classification : Type 0 where
  supported contradicted censored_out_of_frame unobservable execution_failed : Classification

unfoldable pub classification_of : String → Option Classification
classification_of s =
    if str_eq s "SUPPORTED"
    then some supported
    else if str_eq s "CONTRADICTED"
    then some contradicted
    else if str_eq s "CENSORED_OUT_OF_FRAME"
    then some censored_out_of_frame
    else if str_eq s "UNOBSERVABLE"
    then some unobservable
    else if str_eq s "EXECUTION_FAILED"
    then some execution_failed
    else none

pub data UnresolvedReason : Type 0 where
  brief_insufficient authority_insufficient capability_unavailable question_out_of_scope :
      UnresolvedReason

unfoldable pub reason_of : String → Option UnresolvedReason
reason_of s =
    if str_eq s "BRIEF_INSUFFICIENT"
    then some brief_insufficient
    else if str_eq s "AUTHORITY_INSUFFICIENT"
    then some authority_insufficient
    else if str_eq s "CAPABILITY_UNAVAILABLE"
    then some capability_unavailable
    else if str_eq s "QUESTION_OUT_OF_SCOPE"
    then some question_out_of_scope
    else none

-- One constructor for each message.
pub data Refusal : Type 0 where
  -- ExperimentPermissions
  permissions_shape domains_invalid paths_not_unique path_invalid path_outside_domains : Refusal
  sweep_flag_not_boolean : Refusal
  -- the sections
  response_empty : Refusal
  section_missing section_relabelled section_empty : String → Refusal
  text_outside_sections : Refusal
  field_missing : String → Refusal
  -- the planner's response
  action_line_missing action_unsupported fence_count fence_language : Refusal
  payload_invalid controls_not_array control_not_number control_repeated : Refusal
  code_block_forbidden reason_unsupported : Refusal
  -- the review
  gate_line_missing gate_unsupported : Refusal
  outcomes_not_array outcome_shape identity_blank identity_repeated : Refusal
  assessment_blank classification_unsupported : Refusal
  selection_invalid selection_index_invalid selection_index_negative : Refusal
  next_action_unsupported promotion_without_result result_without_promotion : Refusal
  continuation_without_experiment : Refusal
  -- the authorisation of a payload
  not_this_action no_effect path_denied sweep_not_permitted : Refusal

pub data Checked {ℓ} (X : Type ℓ) : Type ℓ where
  accepted : X → Checked X
  rejected : Refusal → Checked X

infixl 5 ◌>>=◌
abbrev pub ◌>>=◌ {ℓ κ} : {X : Type ℓ} {Y : Type κ} → Checked X → (X → Checked Y) → Checked Y
rejected r >>= rest = rejected r
accepted x >>= rest = rest x

-- The refusal unless the test holds.
abbrev pub demand : Bool → Refusal → Checked (Unit {0})
demand false r = rejected r
demand true r = accepted tt

abbrev pub known {ℓ} : {X : Type ℓ} → Refusal → Option X → Checked X
known r none = rejected r
known r (some x) = accepted x

-- A bind that is accepted: its first part was accepted, and so was the rest.
pub bind_accepted {ℓ κ} :
    {X : Type ℓ} {Y : Type κ} (m : Checked X) (rest : X → Checked Y) {y : Y}
    → (m >>= rest) ≡ accepted y
    → (x : X) × (m ≡ accepted x) × (rest x ≡ accepted y)
bind_accepted (accepted x) rest h = (x, refl, h)
bind_accepted (rejected r) rest h = cc

pub demand-accepted : (b : Bool) (r : Refusal) {x : Unit {0}} → demand b r ≡ accepted x → b ≡ true
demand-accepted true r h = refl
demand-accepted false r h = cc

pub known-accepted {ℓ} :
    {X : Type ℓ} (r : Refusal) (o : Option X) {x : X} → known r o ≡ accepted x → o ≡ some x
known-accepted r (some x) h = cc
known-accepted r none h = cc

pub accepted-injective {ℓ} : {X : Type ℓ} {x y : X} → accepted x ≡ accepted y → x ≡ y
accepted-injective h = cc h

-- What the parsers call that is not the tool's own: `loads_strict_no_duplicates`, `json.loads` without
-- non-finite constants (`none` where they raise), a text's SHA-256 and `int` of a text.
pub record Host : Type 0 where
  pub decode : String → Option Json
  pub decode_loosely : String → Option Json
  pub sha256 : String → String
  pub parse_int : String → Option ℤ
