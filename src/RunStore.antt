-- ===== src/RunStore.antt =====
-- `DurableRunStore` of src/cuda_fractal_state_tool/automated_run_store.py: a run's event log, its
-- active-turn projection and its evidence. The texts that appends have written are kept one by one;
-- `json.dumps`, `json.loads`, the time and whether an atomic write succeeds are arguments.
pub mod Sorted
pub mod Log
pub mod Recovery
pub mod Unreadable
pub mod Evidence
pub mod Tests
use cuda_fractal_engine_stat.Prelude.{
  ℕ, suc, ◌+◌, ℤ, pos, ltb_ℤ, Bool, true, false, not, ◌||◌, ◌&&◌, Option, none, some, List, [], ◌∷◌,
  ◌++◌, String, str_eq, if◌then◌else◌, length, is_empty_text, strip, split_lines,
}
use Prim.Native.String.{◌++◌ as append}
use cuda_fractal_engine_stat.Json.Document.{
  Json, null, bool, int, text, obj, Fields, end, field, lookup, get,
}
use cuda_fractal_engine_stat.Json.Equality.{eq}
use cuda_fractal_engine_stat.RunStore.Sorted.{sort_keys}

pub data StoreError : Type 0 where
  line_malformed line_not_an_object version_unsupported sequence_gap no_projection : ℕ → StoreError
  event_type_required projection_write_failed : StoreError
  active_malformed active_version_unsupported : StoreError
  no_events active_without_sequence active_ahead active_disagrees : StoreError
  evidence_differs evidence_write_failed : StoreError

pub data Result (X : Type 0) : Type 0 where
  ok : X → Result X
  err : StoreError → Result X

infixl 5 ◌>>=◌
abbrev pub ◌>>=◌ : {X Y : Type 0} → Result X → (X → Result Y) → Result Y
err e >>= next = err e
ok x >>= next = next x

-- `json.dumps` of an event with `sort_keys` as one compact text, and `json.loads`, `none` where it
-- raises.
pub record Encoding : Type 0 where
  pub print : Fields → String
  pub decode : String → Option Json

-- The event file is the event lines, each with a line feed. `active` is `none` for no file; its
-- document is `none` where the file does not decode.
pub record Store : Type 0 where
  pub event_lines : List String
  pub active : Option (Option Json)
  pub evidence : List (String × String)

abbrev pub empty : Store
empty = record { event_lines = []; active = none; evidence = [] }

abbrev is_object : Json → Bool
is_object (obj fs) = true
is_object _ = false

pub check_line : Option Json → ℕ → Result Fields
check_line none number = err (line_malformed number)
check_line (some (obj event)) number =
    if not (eq (get "event_version" event) (int (pos 1)))
    then err (version_unsupported number)
    else if not (eq (get "sequence" event) (int (pos number)))
    then err (sequence_gap number)
    else if not (is_object (get "projection" event))
    then err (no_projection number)
    else ok event
check_line (some _) number = err (line_not_an_object number)

pub check_lines : List (Option Json) → ℕ → Result (List Fields)
unfolding check_line
check_lines [] number = ok []
check_lines (line ∷ rest) number = do
  event ← check_line line number
  events ← check_lines rest (suc number)
  ok (event ∷ events)

unfoldable pub decode_lines : Encoding → List String → List (Option Json)
decode_lines encoding [] = []
decode_lines encoding (line ∷ lines) = encoding.decode line ∷ decode_lines encoding lines

-- An event's text with its line feed, through `str.splitlines` and `json.loads`.
unfoldable pub decoded_text : Encoding → String → List (Option Json)
unfolding decode_lines
decoded_text encoding written = decode_lines encoding (split_lines (append written "\n"))

pub decoded_log : Encoding → List String → List (Option Json)
unfolding decoded_text
decoded_log encoding [] = []
decoded_log encoding (written ∷ texts) = decoded_text encoding written ++ decoded_log encoding texts

unfoldable pub read_events : Encoding → Store → Result (List Fields)
unfolding check_lines decoded_log
read_events encoding s = check_lines (decoded_log encoding s.event_lines) 1

-- The document of one event.
unfoldable pub event_of : ℕ → String → String → Json → Json → Fields
event_of sequence recorded_at event_type payload projection = field "event_version" (int (pos 1)) (
    field "sequence" (int (pos sequence)) (
      field "recorded_at_utc" (text recorded_at) (
        field "event_type" (text event_type)
          (field "payload" payload (field "projection" projection end)))))

-- `_write_active_turn`, with the document as it is read again; a failed atomic write leaves the file
-- as it was.
unfoldable pub active_of : ℕ → Json → Json
active_of sequence projection = obj (
    field "active_turn_version" (int (pos 1))
      (field "last_event_sequence" (int (pos sequence)) (field "projection" projection end)))

unfoldable pub write_active_turn : Bool → ℕ → Json → Store → Store × Result (Unit {0})
write_active_turn true sequence projection s =
    (record s { active = some (some (sort_keys (active_of sequence projection))) }, ok tt)
write_active_turn false sequence projection s = (s, err projection_write_failed)

-- The event is appended before the projection is written, and stays where that write fails.
append_event : Encoding → Bool → Fields → ℕ → Json → Store → Store × Result Fields
append_event encoding written event sequence projection s =
    let (s', outcome) =
      write_active_turn written sequence projection
        (record s { event_lines = s.event_lines ++ (encoding.print event ∷ []) }) in
    (s', outcome >>= λ _. ok event)

unfoldable pub record_transition :
    Encoding → String → String → Json → Json → Bool → Store → Store × Result Fields
unfolding append_event
record_transition encoding recorded_at event_type payload projection written s =
    if is_empty_text (strip event_type)
    then (s, err event_type_required)
    else elim (read_events encoding s) [
      | err e ↦ (s, err e)
      | ok events ↦
          let sequence = length events + 1 in
          append_event encoding written
            (event_of sequence recorded_at event_type payload projection) sequence projection s
    ]

-- `_load_object`, and the version's check.
unfoldable pub load_active_turn : Option Json → Result Fields
load_active_turn (some (obj active)) =
    if eq (get "active_turn_version" active) (int (pos 1))
    then ok active
    else err active_version_unsupported
load_active_turn _ = err active_malformed

-- `isinstance(value, int)`.
abbrev int_of : Json → Option ℤ
int_of (int i) = some i
int_of (bool true) = some (pos 1)
int_of (bool false) = some (pos 0)
int_of _ = none

abbrev pub last_of : Fields → List Fields → Fields
last_of e [] = e
last_of e (f ∷ rest) = last_of f rest

-- The projection that has been written again.
rewritten : Bool → ℕ → Json → Store → Store × Result Json
rewritten written sequence projection s =
    let (s', outcome) = write_active_turn written sequence projection s in
    (s', outcome >>= λ _. ok projection)

-- The active turn against the latest event.
compare_active : Bool → ℕ → Json → Option ℤ → Json → Store → Store × Result Json
unfolding rewritten
compare_active written sequence projection none held s = (s, err active_without_sequence)
compare_active written sequence projection (some active) held s =
    if ltb_ℤ (pos sequence) active
    then (s, err active_ahead)
    else if ltb_ℤ active (pos sequence)
    then rewritten written sequence projection s
    else if not (eq held projection)
    then (s, err active_disagrees)
    else (s, ok projection)

reconcile : Bool → ℕ → Json → Result Fields → Store → Store × Result Json
unfolding compare_active
reconcile written sequence projection (err e) s = (s, err e)
reconcile written sequence projection (ok active) s =
    compare_active written sequence projection (int_of (get "last_event_sequence" active))
      (get "projection" active) s

-- The sequence of the latest event is its line's number, since the events have been read.
recover_from : Bool → Result (List Fields) → Option (Option Json) → Store → Store × Result Json
unfolding rewritten reconcile
recover_from written (err e) active s = (s, err e)
recover_from written (ok []) active s = (s, err no_events)
recover_from written (ok (e ∷ rest)) none s =
    rewritten written (length (e ∷ rest)) (get "projection" (last_of e rest)) s
recover_from written (ok (e ∷ rest)) (some file) s =
    reconcile written (length (e ∷ rest)) (get "projection" (last_of e rest))
      (load_active_turn file) s

unfoldable pub recover_active_turn : Encoding → Bool → Store → Store × Result Json
unfolding recover_from
recover_active_turn encoding written s = recover_from written (read_events encoding s) s.active s

unfoldable pub find_evidence : String → List (String × String) → Option String
find_evidence path [] = none
find_evidence path ((p, payload) ∷ rest) =
    if str_eq p path then some payload else find_evidence path rest

-- `write_evidence_bytes` and, with encoded bytes, `write_evidence_json`, at a safe path: what was
-- there is replaced.
unfoldable pub write_evidence_bytes : Bool → String → String → Store → Store × Result (Unit {0})
write_evidence_bytes true path payload s =
    (record s { evidence = (path, payload) ∷ s.evidence }, ok tt)
write_evidence_bytes false path payload s = (s, err evidence_write_failed)

-- `write_evidence_once_bytes` at a safe path.
write_once : Bool → String → String → Option String → Store → Store × Result (Unit {0})
write_once written path payload (some held) s =
    if str_eq held payload then (s, ok tt) else (s, err evidence_differs)
write_once true path payload none s = (record s { evidence = (path, payload) ∷ s.evidence }, ok tt)
write_once false path payload none s = (s, err evidence_write_failed)

unfoldable pub write_evidence_once : Bool → String → String → Store → Store × Result (Unit {0})
unfolding write_once
write_evidence_once written path payload s =
    write_once written path payload (find_evidence path s.evidence) s
