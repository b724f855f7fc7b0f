-- ===== src/RunStore/Log.antt =====
-- The event log of a run store: what `record_transition` of
-- src/cuda_fractal_state_tool/automated_run_store.py appends can be read.
use Prim.Native.String.{◌++◌ as append}
use mathlib.Core.List.{append-nil, append_assoc}
use cuda_fractal_engine_stat.Prelude.{
  ℕ, suc, ◌+◌, pos, Bool, true, false, Option, some, List, [], ◌∷◌, ◌++◌, String, if◌then◌else◌,
  length, is_empty_text, strip, split_lines, ◌≡◌, refl, sym, ap, arith,
}
use cuda_fractal_engine_stat.Json.Document.{Json, int, obj, Fields, get, lookup, IsStrict}
use cuda_fractal_engine_stat.Json.Equality.{eq}
use cuda_fractal_engine_stat.Json.Equality.Reflexive.{eq_refl}
use cuda_fractal_engine_stat.RunStore.Sorted.{before, insert_field, sort_keys, sort_fields}
use cuda_fractal_engine_stat.RunStore.{
  Encoding, decode_lines, decoded_text, decoded_log, Store, Result, ok, err, ◌>>=◌,
  projection_write_failed, check_line, check_lines, read_events, event_of, active_of,
  write_active_turn, append_event, record_transition,
}

pub int_eq : (n : ℕ) → eq (int (pos n)) (int (pos n)) ≡ true
unfolding IsStrict
int_eq n = eq_refl (int (pos n)) tt

event_of-check_line :
    (n : ℕ) (at kind : String) (payload : Json) (p : Fields)
    → check_line (some (obj (sort_fields (event_of n at kind payload (obj p))))) n
      ≡ ok (sort_fields (event_of n at kind payload (obj p)))
unfolding check_line event_of get lookup sort_keys insert_field before
event_of-check_line n at kind payload p = rw (int_eq n, int_eq 1)

bind_ok :
    {X Y : Type 0} (m : Result X) (next : X → Result Y) {y : Y}
    → (m >>= next) ≡ ok y
    → (x : X) × (m ≡ ok x) × (next x ≡ ok y)
bind_ok (err e) next h = cc
bind_ok (ok x) next h = (x, refl, h)

-- The events that a log with a first line reads to.
pub check_lines-cons :
    (l : Option Json) (lines : List (Option Json)) (n : ℕ) {events : List Fields}
    → check_lines (l ∷ lines) n ≡ ok events
    → (x : Fields) × (rest : List Fields) × (check_line l n ≡ ok x)
      × (check_lines lines (suc n) ≡ ok rest)
      × (events ≡ x ∷ rest)
unfolding check_lines
check_lines-cons l lines n h =
    let (x, first, h') = bind_ok (check_line l n) _ h in
    let (rest, others, same) = bind_ok (check_lines lines (suc n)) _ h' in
    (x, rest, first, others, cc)

-- A further line that is checked at its number.
check_lines-append :
    (lines : List (Option Json)) (n : ℕ) (line : Option Json) (events : List Fields)
    (event : Fields)
    → check_lines lines n ≡ ok events
    → (k : ℕ) → k ≡ n + length events
    → check_line line k ≡ ok event
    → check_lines (lines ++ line ∷ []) n ≡ ok (events ++ event ∷ [])
unfolding check_lines
check_lines-append [] n line [] event h k at e =
    let same : k ≡ n = omega (arith, at) in rw (sym same, e) refl
check_lines-append [] n line (x ∷ xs) event h k at e = cc
check_lines-append (l ∷ lines) n line events event h k at e =
    let (x, rest, first, others, same) = check_lines-cons l lines n h in
    let later =
      check_lines-append lines (suc n) line rest event others k (omega (arith, at, ap length same))
        e in
    rw (first, later, same) refl

-- An event that is written as one line, and read from it with its keys sorted.
pub record Prints (encoding : Encoding) (event : Fields) : Type 0 where
  pub one_line : split_lines (append (encoding.print event) "\n") ≡ encoding.print event ∷ []
  pub decodes : encoding.decode (encoding.print event) ≡ some (obj (sort_fields event))

pub decoded_log-append :
    (encoding : Encoding) (texts : List String) (written : String)
    → decoded_log encoding (texts ++ written ∷ [])
      ≡ decoded_log encoding texts ++ decoded_text encoding written
unfolding decoded_log
decoded_log-append encoding [] written = append-nil (decoded_text encoding written)
decoded_log-append encoding (t ∷ texts) written = rw (decoded_log-append encoding texts written) (
    sym (
      append_assoc (decoded_text encoding t) (decoded_log encoding texts)
        (decoded_text encoding written)))

decoded_text-Prints :
    (encoding : Encoding) (event : Fields)
    → Prints encoding event
    → decoded_text encoding (encoding.print event) ≡ some (obj (sort_fields event)) ∷ []
unfolding decoded_text decode_lines
decoded_text-Prints encoding event p = rw (p.one_line, p.decodes) refl

appended_reads :
    (encoding : Encoding) (texts : List String) (events : List Fields) (event : Fields)
    → Prints encoding event
    → check_lines (decoded_log encoding texts) 1 ≡ ok events
    → check_line (some (obj (sort_fields event))) (length events + 1) ≡ ok (sort_fields event)
    → check_lines (decoded_log encoding (texts ++ encoding.print event ∷ [])) 1
      ≡ ok (events ++ sort_fields event ∷ [])
appended_reads encoding texts events event p reads fits =
    rw
      (
        decoded_log-append encoding texts (encoding.print event),
        decoded_text-Prints encoding event p,
      )
      (check_lines-append (decoded_log encoding texts) 1 (some (obj (sort_fields event))) events
        (sort_fields event) reads (length events + 1) (omega arith) fits)

-- On a log that can be read, a call with an event type whose event is written as one line, and read
-- from it with its keys sorted, adds that event to what is read and leaves the evidence alone. Where
-- the projection is written, it returns the event, and the active turn is the projection, its keys
-- sorted, under the event's number; where the write fails, it raises and the active turn is as it was.
pub record_transition-reads :
    (encoding : Encoding) (at kind : String) (payload : Json) (p : Fields) (written : Bool)
    (s : Store) (events : List Fields)
    → read_events encoding s ≡ ok events
    → Prints encoding (event_of (length events + 1) at kind payload (obj p))
    → is_empty_text (strip kind) ≡ false
    → let event = event_of (length events + 1) at kind payload (obj p) in
      let s' = (record_transition encoding at kind payload (obj p) written s).0 in
      (read_events encoding s' ≡ ok (events ++ sort_fields event ∷ []))
      × (s'.evidence ≡ s.evidence)
      × (s'.active ≡ (
          if written
          then some (some (active_of (length events + 1) (sort_keys (obj p))))
          else s.active))
      × ((record_transition encoding at kind payload (obj p) written s).1
          ≡ (if written then ok event else err projection_write_failed))
unfolding record_transition read_events append_event write_active_turn active_of sort_keys
    insert_field before
record_transition-reads encoding at kind payload p true s events reads prints named =
    rw (named, reads)
      (
        appended_reads encoding s.event_lines events _ prints reads
            (event_of-check_line _ at kind payload p),
        refl,
        refl,
        refl,
      )
record_transition-reads encoding at kind payload p false s events reads prints named =
    rw (named, reads)
      (
        appended_reads encoding s.event_lines events _ prints reads
            (event_of-check_line _ at kind payload p),
        refl,
        refl,
        refl,
      )
