-- ===== src/RunStore/Tests.antt =====
-- The run store's theorems at a short run whose second projection write fails.
use Prim.Native.String.{◌++◌ as append}
use cuda_fractal_engine_stat.Prelude.{
  ◌+◌, ◌≡◌, ◌<◌, refl, true, false, List, [], ◌∷◌, ◌++◌, some, none, length, arith, is_empty_text,
  String, split_lines, strip, if◌then◌else◌, str_eq,
}
use cuda_fractal_engine_stat.Json.Document.{
  Json, null, text, obj, Fields, end, field, IsStrict, lookup, get,
}
use cuda_fractal_engine_stat.Json.Equality.{eq, eq_number, number}
use cuda_fractal_engine_stat.RunStore.{
  Encoding, Store, line_malformed, empty, ok, err, evidence_differs, projection_write_failed,
  read_events, write_active_turn, load_active_turn, event_of, active_of, record_transition,
  recover_active_turn, find_evidence, write_evidence_once, write_evidence_bytes,
}
use cuda_fractal_engine_stat.RunStore.Sorted.{before, insert_field, sort_keys, sort_fields}
use cuda_fractal_engine_stat.RunStore.Log.{Prints, record_transition-reads}
use cuda_fractal_engine_stat.RunStore.Recovery.{
  Transition, event_at, ArePrinted, apply, apply_all, recorded, last_of_log, recover-recorded,
}
use cuda_fractal_engine_stat.RunStore.Unreadable.{record_transition-malformed}
use cuda_fractal_engine_stat.RunStore.Evidence.{
  once, replacing, Write, apply_write, write_all, write_all-keeps, write_evidence_once-settles,
}

abbrev planning : Fields
planning = field "state" (text "PLANNING") end

abbrev executing : Fields
executing = field "state" (text "EXECUTING") end

abbrev started : Transition
started = record {
  recorded_at = "t0";
  event_type = "started";
  payload = null;
  projection = planning;
  written = true;
}

abbrev blank : Transition
blank = record {
  recorded_at = "t1";
  event_type = "  ";
  payload = null;
  projection = executing;
  written = true;
}

abbrev attempted : Transition
attempted = record {
  recorded_at = "t2";
  event_type = "attempted";
  payload = null;
  projection = executing;
  written = false;
}

abbrev transitions : List Transition
transitions = started ∷ blank ∷ attempted ∷ []

-- Each event is known by its time.
abbrev text_of : Json → String
text_of (text s) = s
text_of _ = ""

abbrev encoding : Encoding
encoding = record {
  print = λ event. text_of (get "recorded_at_utc" event);
  decode = λ line.
      if str_eq line "t0"
      then some (obj (sort_fields (event_at 1 started)))
      else if str_eq line "t1"
      then some (obj (sort_fields (event_at 2 blank)))
      else if str_eq line "t2"
      then some (obj (sort_fields (event_at 2 attempted)))
      else none;
}

transitions-ArePrinted : ArePrinted encoding 0 transitions
unfolding get lookup event_of split_lines strip
transitions-ArePrinted = (
  record { one_line = refl; decodes = refl },
  (record { one_line = refl; decodes = refl }, (record { one_line = refl; decodes = refl }, tt)),
)

abbrev first_encoding : Encoding
first_encoding = record {
  print = λ event. "first";
  decode = λ line. some (obj (sort_fields (event_at 1 attempted)));
}

attempted-Prints : Prints first_encoding (event_at 1 attempted)
unfolding get lookup event_of split_lines
attempted-Prints = record { one_line = refl; decodes = refl }

-- A text with a line separator is not one line.
abbrev broken_encoding : Encoding
broken_encoding = record { print = λ event. "{\u{2028}}"; decode = λ line. none }

one_event : 0 < length (recorded transitions [])
unfolding recorded strip
one_event = omega arith

last-IsStrict : IsStrict (last_of_log (recorded transitions []))
unfolding recorded strip last_of_log IsStrict lookup sort_keys insert_field
last-IsStrict = (refl, tt, tt)

recover-recorded_example :
    let log = recorded transitions [] in
    let before = apply_all encoding transitions empty in
    let out = recover_active_turn encoding true before in
    (out.1 ≡ ok (last_of_log log))
    × (out.0.active ≡ some (some (active_of (length log) (last_of_log log))))
    × (out.0.event_lines ≡ before.event_lines)
recover-recorded_example =
    recover-recorded encoding transitions transitions-ArePrinted one_event last-IsStrict

-- The write that failed is made again by the recovery.
recovers_executing :
    (recover_active_turn encoding true (apply_all encoding transitions empty)).1
    ≡ ok (obj executing)
unfolding sort_keys insert_field before recover_active_turn apply_all apply record_transition
    read_events strip write_active_turn eq get lookup event_of eq_number number load_active_turn
    active_of split_lines
recovers_executing = refl

empty_reads : read_events first_encoding empty ≡ ok []
unfolding read_events
empty_reads = refl

attempted_named : is_empty_text (strip "attempted") ≡ false
unfolding strip
attempted_named = refl

record_transition-reads_example :
    let event = event_of (length {A = Fields} [] + 1) "t2" "attempted" null (obj executing) in
    let s' =
      (record_transition first_encoding "t2" "attempted" null (obj executing) false empty).0 in
    (read_events first_encoding s' ≡ ok ([] ++ sort_fields event ∷ []))
    × (s'.evidence ≡ empty.evidence)
    × (s'.active ≡ (
        if false
        then some (some (active_of (length {A = Fields} [] + 1) (sort_keys (obj executing))))
        else empty.active))
    × ((record_transition first_encoding "t2" "attempted" null (obj executing) false empty).1
        ≡ (if false then ok event else err projection_write_failed))
record_transition-reads_example =
    record_transition-reads first_encoding "t2" "attempted" null executing false empty []
      empty_reads attempted-Prints attempted_named

started_named : is_empty_text (strip "started") ≡ false
unfolding strip
started_named = refl

abbrev with_plan : Store
with_plan = record empty { evidence = ("attempts/001/payload.json", "{}") ∷ [] }

plan_held : find_evidence "attempts/001/payload.json" with_plan.evidence ≡ some "{}"
unfolding find_evidence
plan_held = refl

-- Another plan, refused, and the report of the run, written twice.
abbrev later_writes : List Write
later_writes =
    once true "attempts/001/payload.json" "[]"
    ∷ replacing true "report.json" "1"
    ∷ replacing true "report.json" "2"
    ∷ []

write_all-keeps_example :
    find_evidence "attempts/001/payload.json" (write_all later_writes with_plan).evidence
    ≡ some "{}"
write_all-keeps_example =
    write_all-keeps later_writes with_plan "attempts/001/payload.json" "{}"
      (refl, (refl, (refl, tt))) plan_held

report_replaced : find_evidence "report.json" (write_all later_writes with_plan).evidence ≡ some "2"
unfolding write_all apply_write write_evidence_once write_evidence_bytes find_evidence
report_replaced = refl

plan_written_again :
    (write_evidence_once false "attempts/001/payload.json" "{}" with_plan).1 ≡ ok tt
unfolding write_evidence_once find_evidence
plan_written_again = refl

write_evidence_once-settles_example :
    let s' =
      write_all later_writes
        (write_evidence_once false "attempts/001/payload.json" "{}" with_plan).0 in
    (find_evidence "attempts/001/payload.json" s'.evidence ≡ some "{}")
    × (write_evidence_once true "attempts/001/payload.json" "[]" s'
        ≡ (if str_eq "{}" "[]" then (s', ok tt) else (s', err evidence_differs)))
write_evidence_once-settles_example =
    write_evidence_once-settles false true "attempts/001/payload.json" "{}" "[]" later_writes
      with_plan plan_written_again (refl, (refl, (refl, tt)))

broken_splits :
    split_lines (
      append
        (broken_encoding.print
          (event_of (length {A = Fields} [] + 1) "t0" "started" null (obj planning)))
        "\n")
    ≡ "{" ∷ "}" ∷ []
unfolding split_lines
broken_splits = refl

broken_reads : read_events broken_encoding empty ≡ ok []
unfolding read_events
broken_reads = refl

record_transition-malformed_example :
    let event = event_of (length {A = Fields} [] + 1) "t0" "started" null (obj planning) in
    let out = record_transition broken_encoding "t0" "started" null (obj planning) true empty in
    (out.1 ≡ ok event)
    × (record_transition broken_encoding "t2" "attempted" null (obj executing) true out.0
        ≡ (out.0, err (line_malformed (length {A = Fields} [] + 1))))
    × (recover_active_turn broken_encoding true out.0
        ≡ (out.0, err (line_malformed (length {A = Fields} [] + 1))))
record_transition-malformed_example =
    record_transition-malformed broken_encoding "t0" "started" "{" ("}" ∷ []) null (obj planning)
      empty [] "t2" "attempted" null (obj executing) true broken_reads started_named attempted_named
      broken_splits refl
