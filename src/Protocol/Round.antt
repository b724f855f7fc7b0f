-- ===== src/Protocol/Round.antt =====
-- The packet that the next round works on and the effect of an override, of
-- src/cuda_fractal_state_tool/automated_protocol.py.
use Prim.Native.Char.{Char, code}
use cuda_fractal_engine_stat.Prelude.{
  ℕ, suc, Bool, true, Option, none, some, String, str_eq, ltb, leb, ◌==◌, if◌then◌else◌, ◌||◌, ◌&&◌,
  not,
}

pub data ModelGateProposal : Type 0 where
  round_advance round_revise session_pass session_fail manual_review_required : ModelGateProposal

-- `parse_model_gate_proposal`; `none` is its exception.
unfoldable pub parse_model_gate_proposal : String → Option ModelGateProposal
parse_model_gate_proposal value =
    if str_eq value "ROUND_ADVANCE"
    then some round_advance
    else if str_eq value "ROUND_REVISE"
    then some round_revise
    else if str_eq value "SESSION_PASS"
    then some session_pass
    else if str_eq value "SESSION_FAIL"
    then some session_fail
    else if str_eq value "MANUAL_REVIEW_REQUIRED"
    then some manual_review_required
    else none

pub record PacketAuthorityBinding : Type 0 where
  pub packet_id : String
  pub manifest_sha256 : String
  pub finding_id : String

-- `character in "0123456789abcdef"`.
is_hex : Char → Bool
is_hex c = (leb b'0' (code c) && leb (code c) b'9') || (leb b'a' (code c) && leb (code c) b'f')

all_hex : String → Bool
unfolding is_hex
all_hex String.[] = true
all_hex (String.◌∷◌ c s) = is_hex c && all_hex s

text_length : String → ℕ
text_length String.[] = 0
text_length (String.◌∷◌ c s) = suc (text_length s)

-- `PacketAuthorityBinding.__post_init__`: whether it accepts the binding.
unfoldable pub check_binding : PacketAuthorityBinding → Bool
unfolding all_hex text_length
check_binding b =
    not (str_eq b.packet_id "" || str_eq b.finding_id "")
    && (text_length b.manifest_sha256 == 64)
    && all_hex b.manifest_sha256

pub data RoundError : Type 0 where
  advance_requires_derived no_round_authority : RoundError

pub data RoundResult : Type 0 where
  authority : PacketAuthorityBinding → RoundResult
  refused : RoundError → RoundResult

unfoldable pub resolve_round_authority :
    ModelGateProposal → PacketAuthorityBinding → Option PacketAuthorityBinding → RoundResult
resolve_round_authority round_advance preceding none = refused advance_requires_derived
resolve_round_authority round_advance preceding (some derived) = authority derived
resolve_round_authority round_revise preceding derived = authority preceding
resolve_round_authority session_pass preceding derived = refused no_round_authority
resolve_round_authority session_fail preceding derived = refused no_round_authority
resolve_round_authority manual_review_required preceding derived = refused no_round_authority

pub data OverrideEffect : Type 0 where
  authorized_change exact_base_replay unintended_no_effect no_effect : OverrideEffect

-- A negative count, which the source refuses, is not among the arguments.
unfoldable pub classify_override_effect : ℕ → Bool → Bool → OverrideEffect
classify_override_effect changed_path_count empty_override_byte_exact explicit_unchanged_requested =
    if ltb 0 changed_path_count
    then authorized_change
    else if empty_override_byte_exact && explicit_unchanged_requested
    then exact_base_replay
    else if empty_override_byte_exact
    then unintended_no_effect
    else no_effect

-- How a controller's session stands.
pub data ControllerDisposition : Type 0 where
  running session_passed session_failed review_required budget_exhausted : ControllerDisposition
  cancelled proof_failed transport_failed run_store_failed runtime_failed : ControllerDisposition
