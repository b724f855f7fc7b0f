-- ===== src/RunStore/Unreadable.antt =====
-- An event whose text is not one line: `record_transition` and `read_events` of
-- src/cuda_fractal_state_tool/automated_run_store.py.
use Prim.Native.String.{◌++◌ as append}
use cuda_fractal_engine_stat.Prelude.{
  ℕ, suc, ◌+◌, Bool, true, false, Option, none, List, [], ◌∷◌, ◌++◌, String, length, is_empty_text,
  strip, split_lines, ◌≡◌, refl, ap, ◌∙◌, arith,
}
use cuda_fractal_engine_stat.Json.Document.{Json, Fields}
use cuda_fractal_engine_stat.RunStore.{
  Encoding, Store, ok, err, line_malformed, check_line, check_lines, decode_lines, decoded_text,
  decoded_log, read_events, event_of, write_active_turn, append_event, record_transition,
  recover_from, recover_active_turn,
}
use cuda_fractal_engine_stat.RunStore.Log.{check_lines-cons, decoded_log-append}

check_lines-malformed :
    (lines : List (Option Json)) (n : ℕ) (rest : List (Option Json)) (events : List Fields)
    → check_lines lines n ≡ ok events
    → check_lines (lines ++ none ∷ rest) n ≡ err (line_malformed (n + length events))
unfolding check_lines check_line
check_lines-malformed [] n rest [] h = ap (λ k. err (line_malformed k)) (omega arith)
check_lines-malformed [] n rest (x ∷ xs) h = cc
check_lines-malformed (l ∷ lines) n rest events h =
    let (x, others, first, later, same) = check_lines-cons l lines n h in
    rw (first, check_lines-malformed lines (suc n) rest others later, same)
      (ap (λ k. err (line_malformed k)) (omega arith))

decoded_text-broken :
    (encoding : Encoding) (written piece : String) (pieces : List String)
    → split_lines (append written "\n") ≡ piece ∷ pieces
    → encoding.decode piece ≡ none
    → decoded_text encoding written ≡ none ∷ decode_lines encoding pieces
unfolding decoded_text decode_lines
decoded_text-broken encoding written piece pieces split broken = rw (split, broken) refl

appended_malformed :
    (encoding : Encoding) (texts : List String) (events : List Fields) (written piece : String)
    (pieces : List String)
    → check_lines (decoded_log encoding texts) 1 ≡ ok events
    → split_lines (append written "\n") ≡ piece ∷ pieces
    → encoding.decode piece ≡ none
    → check_lines (decoded_log encoding (texts ++ written ∷ [])) 1
      ≡ err (line_malformed (length events + 1))
appended_malformed encoding texts events written piece pieces reads split broken =
    rw
      (
        decoded_log-append encoding texts written,
        decoded_text-broken encoding written piece pieces split broken,
      )
      (check_lines-malformed (decoded_log encoding texts) 1 (decode_lines encoding pieces) events
          reads
        ∙ ap (λ k. err (line_malformed k)) (omega arith))

record_unreadable :
    (encoding : Encoding) (at kind : String) (payload projection : Json) (written : Bool)
    (s : Store) (n : ℕ)
    → read_events encoding s ≡ err (line_malformed n)
    → is_empty_text (strip kind) ≡ false
    → record_transition encoding at kind payload projection written s ≡ (s, err (line_malformed n))
unfolding record_transition
record_unreadable encoding at kind payload projection written s n h named = rw (named, h) refl

recover_unreadable :
    (encoding : Encoding) (written : Bool) (s : Store) (n : ℕ)
    → read_events encoding s ≡ err (line_malformed n)
    → recover_active_turn encoding written s ≡ (s, err (line_malformed n))
unfolding recover_active_turn recover_from
recover_unreadable encoding written s n h = rw h refl

recorded_unreadable :
    (encoding : Encoding) (at kind piece : String) (pieces : List String)
    (payload projection : Json) (s : Store) (events : List Fields)
    → read_events encoding s ≡ ok events
    → is_empty_text (strip kind) ≡ false
    → split_lines
        (append (encoding.print (event_of (length events + 1) at kind payload projection)) "\n")
      ≡ piece ∷ pieces
    → encoding.decode piece ≡ none
    → let out = record_transition encoding at kind payload projection true s in
      (out.1 ≡ ok (event_of (length events + 1) at kind payload projection))
      × (read_events encoding out.0 ≡ err (line_malformed (length events + 1)))
unfolding record_transition read_events append_event write_active_turn
recorded_unreadable encoding at kind piece pieces payload projection s events reads named split
      broken =
    rw (named, reads)
      (refl, appended_malformed encoding s.event_lines events _ piece pieces reads split broken)

-- On a log that can be read, a call with an event type whose event's text falls into lines of which
-- the first does not decode returns the event, and after it the log cannot be read: every later call
-- with an event type and every recovery raises for that line and leaves the store as it is.
pub record_transition-malformed :
    (encoding : Encoding) (at kind piece : String) (pieces : List String)
    (payload projection : Json) (s : Store) (events : List Fields) (later_at later_kind : String)
    (later_payload later_projection : Json) (later_written : Bool)
    → read_events encoding s ≡ ok events
    → is_empty_text (strip kind) ≡ false
    → is_empty_text (strip later_kind) ≡ false
    → split_lines
        (append (encoding.print (event_of (length events + 1) at kind payload projection)) "\n")
      ≡ piece ∷ pieces
    → encoding.decode piece ≡ none
    → let event = event_of (length events + 1) at kind payload projection in
      let out = record_transition encoding at kind payload projection true s in
      (out.1 ≡ ok event)
      × (record_transition encoding later_at later_kind later_payload later_projection later_written
            out.0
          ≡ (out.0, err (line_malformed (length events + 1))))
      × (recover_active_turn encoding later_written out.0
          ≡ (out.0, err (line_malformed (length events + 1))))
record_transition-malformed encoding at kind piece pieces payload projection s events later_at
      later_kind later_payload later_projection later_written reads named later_named split broken =
    let (returned, unreadable) =
      recorded_unreadable encoding at kind piece pieces payload projection s events reads named
        split broken in
    (
      returned,
      record_unreadable encoding later_at later_kind later_payload later_projection later_written _
          _ unreadable later_named,
      recover_unreadable encoding later_written _ _ unreadable,
    )
