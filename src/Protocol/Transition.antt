-- ===== src/Protocol/Transition.antt =====
-- The states of the agent session protocol and its legal transitions, of
-- src/cuda_fractal_state_tool/automated_protocol.py.
use cuda_fractal_engine_stat.Prelude.{
  ℕ, suc, ◌≤◌, ◌<◌, Bool, true, false, ◌||◌, ◌&&◌, Option, none, some, List, [], ◌∷◌, ◌≡◌, ◌⊎◌, inl,
  inr, arith, ◌==◌, if◌then◌else◌, Bool-cases,
}

pub data ProtocolState : Type 0 where
  observe explore select_experiment lock_prediction request_override : ProtocolState
  validate_override prove_candidate promote_derived_finding refresh_packet : ProtocolState
  review_result self_audit gate_decision : ProtocolState

-- The position of a state in the declaration of the enumeration, `_LINEAR_STATES`.
abbrev pub position : ProtocolState → ℕ
position observe = 0
position explore = 1
position select_experiment = 2
position lock_prediction = 3
position request_override = 4
position validate_override = 5
position prove_candidate = 6
position promote_derived_finding = 7
position refresh_packet = 8
position review_result = 9
position self_audit = 10
position gate_decision = 11

abbrev pub is_state : ProtocolState → ProtocolState → Bool
is_state a b = position a == position b

-- `(current, target) in _ALLOWED_TRANSITIONS`: the next linear state, or one of the two added pairs.
unfoldable pub allowed_transition : ProtocolState → ProtocolState → Bool
allowed_transition current target =
    suc (position current) == position target
    || (is_state current validate_override && is_state target request_override)
    || (is_state current gate_decision && is_state target observe)

-- `validate_protocol_transition`, with the target as the state that the session is in afterwards;
-- `none` is the `ValueError`.
unfoldable pub validate_protocol_transition : ProtocolState → ProtocolState → Option ProtocolState
validate_protocol_transition current target =
    if allowed_transition current target then some target else none

-- A session that asks for these targets one after the other.
unfoldable pub follow : ProtocolState → List ProtocolState → Option ProtocolState
follow s [] = some s
follow s (t ∷ ts) = elim (validate_protocol_transition s t) [ none ↦ none | some s' ↦ follow s' ts ]

-- Whether a state is in the list.
abbrev pub visited : ProtocolState → List ProtocolState → Bool
visited p [] = false
visited p (t ∷ ts) = is_state t p || visited p ts

-- One legal step raises the position by one or lowers it.
transition_position :
    (s t s' : ProtocolState)
    → validate_protocol_transition s t ≡ some s'
    → (s' ≡ t) × ((position t ≡ suc (position s)) ⊎ (position t < position s))
unfolding validate_protocol_transition allowed_transition
transition_position s t s' h = ground arith

-- The states that have been seen include every state up to the current one.
abbrev Covers : ProtocolState → List ProtocolState → Type 0
Covers s seen = (p : ProtocolState) → position p ≤ position s → visited p seen ≡ true

Covers-step :
    (s t : ProtocolState) (seen : List ProtocolState)
    → (position t ≡ suc (position s)) ⊎ (position t < position s)
    → Covers s seen
    → Covers t (t ∷ seen)
Covers-step s t seen h c p le = elim (Bool-cases (is_state t p)) [
  | inl same ↦ ground arith
  | inr differ ↦ ground (arith, c p)
]

validate_cases :
    (s t : ProtocolState)
    → (validate_protocol_transition s t ≡ some t) ⊎ (validate_protocol_transition s t ≡ none)
unfolding validate_protocol_transition
validate_cases s t = ground arith

follow-cons :
    (s t : ProtocolState) (ts : List ProtocolState) (e : ProtocolState)
    → follow s (t ∷ ts) ≡ some e
    → (validate_protocol_transition s t ≡ some t) × (follow t ts ≡ some e)
unfolding follow
follow-cons s t ts e h = ground (arith, validate_cases s t)

Covers-observe : Covers observe (observe ∷ [])
Covers-observe p le = ground arith

follow-Covers :
    (s : ProtocolState) (ts seen : List ProtocolState) (e : ProtocolState)
    → Covers s seen
    → follow s ts ≡ some e
    → (p : ProtocolState) → position p ≤ position e
    → (visited p ts || visited p seen) ≡ true
unfolding follow
follow-Covers s [] seen e c h p le = ground (arith, c p)
follow-Covers s (t ∷ ts) seen e c h p le =
    let (legal, rest) = follow-cons s t ts e h in
    let moved = transition_position s t t legal in
    let ih = follow-Covers t ts (t ∷ seen) e (Covers-step s t seen moved.1 c) rest p le in
    ground (arith, ih)

-- After any session of legal transitions from OBSERVE, every state that stands no later than the
-- current one in the protocol's order has been visited.
pub follow_in_order :
    (ts : List ProtocolState) (s p : ProtocolState)
    → follow observe ts ≡ some s
    → position p ≤ position s
    → visited p (observe ∷ ts) ≡ true
follow_in_order ts s p h le =
    ground (arith, follow-Covers observe ts (observe ∷ []) s Covers-observe h p le)
