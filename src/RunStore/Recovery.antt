-- ===== src/RunStore/Recovery.antt =====
-- What a run's transitions leave in its store, and what recovery reads from it:
-- `record_transition` and `recover_active_turn` of src/cuda_fractal_state_tool/automated_run_store.py.
use mathlib.Core.Path.{subst}
use cuda_fractal_engine_stat.Prelude.{
  ℕ, ◌+◌, ◌≤◌, ◌<◌, pos, ltb_ℤ, Bool, true, false, Option, none, some, List, [], ◌∷◌, ◌++◌, String,
  if◌then◌else◌, length, length-append, is_empty_text, strip, ◌≡◌, refl, sym, ap, ◌∙◌, inl, inr,
  Bool-cases, arith,
}
use cuda_fractal_engine_stat.Json.Document.{Json, obj, Fields, get, lookup, IsStrict}
use cuda_fractal_engine_stat.Json.Equality.Reflexive.{eq_refl}
use cuda_fractal_engine_stat.RunStore.Log.{int_eq, Prints, record_transition-reads}
use cuda_fractal_engine_stat.RunStore.Sorted.{
  before, insert_field, sort_keys, sort_fields, sort_keys_idem,
}
use cuda_fractal_engine_stat.RunStore.{
  Encoding, Store, empty, Result, ok, check_lines, read_events, event_of, active_of,
  write_active_turn, record_transition, recover_active_turn, recover_from, last_of, reconcile,
  compare_active, load_active_turn, rewritten,
}

-- The arguments of one call, with its time and whether its atomic write succeeds.
pub record Transition : Type 0 where
  pub recorded_at : String
  pub event_type : String
  pub payload : Json
  pub projection : Fields
  pub written : Bool

unfoldable pub apply : Encoding → Transition → Store → Store × Result Fields
apply encoding t s =
    record_transition encoding t.recorded_at t.event_type t.payload (obj t.projection) t.written s

unfoldable pub apply_all : Encoding → List Transition → Store → Store
unfolding apply
apply_all encoding [] s = s
apply_all encoding (t ∷ ts) s = apply_all encoding ts (apply encoding t s).0

-- The event of a call under a number.
abbrev pub event_at : ℕ → Transition → Fields
event_at n t = event_of n t.recorded_at t.event_type t.payload (obj t.projection)

-- After so many events, each call's event is written as one line and read from it.
abbrev pub ArePrinted : Encoding → ℕ → List Transition → Type 0
ArePrinted encoding n [] = Unit
ArePrinted encoding n (t ∷ ts) =
    Prints encoding (event_at (n + 1) t)
    × ArePrinted encoding (if is_empty_text (strip t.event_type) then n else n + 1) ts

-- The abstract view of a run: the projections that it has recorded, in order, and the latest one.
unfoldable pub last_of_log : List Json → Json
last_of_log [] = Json.null
last_of_log (p ∷ []) = p
last_of_log (p ∷ q ∷ log) = last_of_log (q ∷ log)

last_of_log-append : (log : List Json) (p : Json) → last_of_log (log ++ p ∷ []) ≡ p
unfolding last_of_log
last_of_log-append [] p = refl
last_of_log-append (q ∷ []) p = refl
last_of_log-append (q ∷ r ∷ log) p = last_of_log-append (r ∷ log) p

-- What the calls record, as it is read again with its keys sorted: a call with a blank event type
-- records nothing.
unfoldable pub recorded : List Transition → List Json → List Json
recorded [] log = log
recorded (t ∷ ts) log =
    recorded ts
      (if is_empty_text (strip t.event_type) then log else log ++ sort_keys (obj t.projection) ∷ [])

projections : List Fields → List Json
projections [] = []
projections (e ∷ es) = get "projection" e ∷ projections es

projections-append :
    (es : List Fields) (e : Fields)
    → projections (es ++ e ∷ []) ≡ projections es ++ get "projection" e ∷ []
unfolding projections
projections-append [] e = refl
projections-append (x ∷ es) e = rw (projections-append es e) refl

length-projections : (es : List Fields) → length (projections es) ≡ length es
unfolding projections
length-projections [] = refl
length-projections (e ∷ es) = omega (arith, length-projections es)

last_of_log-projections :
    (e : Fields) (es : List Fields)
    → last_of_log (projections (e ∷ es)) ≡ get "projection" (last_of e es)
unfolding projections last_of_log
last_of_log-projections e [] = refl
last_of_log-projections e (f ∷ es) = last_of_log-projections f es

-- The active turn is absent, or a projection that is not ahead of the log, the latest where it is
-- level.
ActiveWithin : Option (Option Json) → List Json → Type 0
ActiveWithin none log = Unit
ActiveWithin (some file) log =
    (k : ℕ) × (p : Json) × (file ≡ some (active_of k p))
    × (k ≤ length log)
    × (k ≡ length log → p ≡ last_of_log log)

pub record Represents (encoding : Encoding) (s : Store) (log : List Json) : Type 0 where
  events : List Fields
  reads : read_events encoding s ≡ ok events
  logged : projections events ≡ log
  held : ActiveWithin s.active log
  sorted : sort_keys (last_of_log log) ≡ last_of_log log

sort-active_of : (n : ℕ) (v : Json) → sort_keys v ≡ v → sort_keys (active_of n v) ≡ active_of n v
unfolding sort_keys insert_field before active_of
sort-active_of n v sorted = rw sorted refl

compare_level :
    (n k : ℕ) (v p : Json) (s : Store)
    → s.active ≡ some (some (active_of k p))
    → IsStrict v
    → sort_keys v ≡ v
    → k ≤ n
    → (k ≡ n → p ≡ v)
    → ((compare_active true n v (some (pos k)) p s).1 ≡ ok v)
      × ((compare_active true n v (some (pos k)) p s).0.active ≡ some (some (active_of n v)))
      × ((compare_active true n v (some (pos k)) p s).0.event_lines ≡ s.event_lines)
unfolding compare_active rewritten write_active_turn
compare_level n k v p s file u sorted le level =
    let not_ahead : ltb_ℤ (pos n) (pos k) ≡ false = ground arith in
    elim (Bool-cases (ltb_ℤ (pos k) (pos n))) [
      | inl behind ↦
          rw (not_ahead, behind) (refl, ap some (ap some (sort-active_of n v sorted)), refl)
      | inr not_behind ↦
          let same : k ≡ n = ground arith in
          rw (not_ahead, not_behind, level same, eq_refl v u)
            (refl, file ∙ rw (same, level same) refl, refl)
    ]

empty-Represents : (encoding : Encoding) → Represents encoding empty []
unfolding read_events check_lines projections ActiveWithin last_of_log sort_keys
empty-Represents encoding = record {
  events = [];
  reads = refl;
  logged = refl;
  held = tt;
  sorted = refl;
}

get-event_of :
    (n : ℕ) (at kind : String) (payload projection : Json)
    → get "projection" (sort_fields (event_of n at kind payload projection)) ≡ sort_keys projection
unfolding get lookup event_of sort_keys insert_field before
get-event_of n at kind payload projection = refl

-- The file stays within a log that has grown.
ActiveWithin-append :
    (file : Option (Option Json)) (log : List Json) (p : Json)
    → ActiveWithin file log
    → ActiveWithin file (log ++ p ∷ [])
unfolding ActiveWithin
ActiveWithin-append none log p h = tt
ActiveWithin-append (some file) log p (k, q, held, le, level) = (
  k,
  q,
  held,
  omega (arith, length-append log (p ∷ [])),
  λ same. absurd (omega (arith, length-append log (p ∷ []))),
)

ActiveWithin-written :
    (log : List Json) (n : ℕ) (p : Json)
    → length log ≡ n
    → ActiveWithin (some (some (active_of (n + 1) p))) (log ++ p ∷ [])
unfolding ActiveWithin
ActiveWithin-written log n p h =
    (n + 1, p, refl, omega (arith, length-append log (p ∷ [])), λ _. sym (last_of_log-append log p))

ActiveWithin-if :
    (written : Bool) (file : Option (Option Json)) (log : List Json) (n : ℕ) (p : Json)
    → length log ≡ n
    → ActiveWithin file log
    → ActiveWithin (if written then some (some (active_of (n + 1) p)) else file) (log ++ p ∷ [])
ActiveWithin-if true file log n p same h = ActiveWithin-written log n p same
ActiveWithin-if false file log n p same h = ActiveWithin-append file log p h

-- A call with an event type represents the log with its projection, written or not.
apply-Represents :
    (encoding : Encoding) (t : Transition) (s : Store) (log : List Json)
    → Prints encoding (event_at (length log + 1) t)
    → is_empty_text (strip t.event_type) ≡ false
    → Represents encoding s log
    → Represents encoding (apply encoding t s).0 (log ++ sort_keys (obj t.projection) ∷ [])
unfolding apply
apply-Represents encoding t s log printed named r =
    let size : length log ≡ length r.events =
      sym (ap length r.logged) ∙ length-projections r.events in
    let event =
      event_of (length r.events + 1) t.recorded_at t.event_type t.payload (obj t.projection) in
    let (reads, _, active, _) =
      record_transition-reads encoding t.recorded_at t.event_type t.payload t.projection t.written s
        r.events r.reads (subst (λ n. Prints encoding (event_at (n + 1) t)) size printed) named in
    record {
      events = r.events ++ sort_fields event ∷ [];
      reads = reads;
      logged = projections-append r.events (sort_fields event) ∙ rw (get-event_of, r.logged) refl;
      held =
          rw active
            (ActiveWithin-if t.written s.active log _ (sort_keys (obj t.projection)) size r.held);
      sorted =
          rw (last_of_log-append log (sort_keys (obj t.projection)))
            (sort_keys_idem (obj t.projection));
    }

blank_keeps :
    (encoding : Encoding) (t : Transition) (s : Store)
    → is_empty_text (strip t.event_type) ≡ true
    → (apply encoding t s).0 ≡ s
unfolding apply record_transition
blank_keeps encoding t s blank = rw blank refl

-- Where a store represents a log, it represents what a list of calls with printed events records on it,
-- whichever of their projection writes fail and whichever of the calls have a blank event type.
pub apply_all-Represents :
    (encoding : Encoding) (ts : List Transition) (s : Store) (log : List Json) (n : ℕ)
    → n ≡ length log
    → ArePrinted encoding n ts
    → Represents encoding s log
    → Represents encoding (apply_all encoding ts s) (recorded ts log)
unfolding apply_all recorded
apply_all-Represents encoding [] s log n size printed r = r
apply_all-Represents encoding (t ∷ ts) s log n size printed r =
    elim (Bool-cases (is_empty_text (strip t.event_type))) [
      | inl blank ↦
          let later : ArePrinted encoding n ts =
            subst (λ b. ArePrinted encoding (if b then n else n + 1) ts) blank printed.1 in
          rw (blank, blank_keeps encoding t s blank)
            (apply_all-Represents encoding ts s log n size later r)
      | inr named ↦
          let later : ArePrinted encoding (n + 1) ts =
            subst (λ b. ArePrinted encoding (if b then n else n + 1) ts) named printed.1 in
          let here = subst (λ k. Prints encoding (event_at (k + 1) t)) size printed.0 in
          rw named (
            apply_all-Represents encoding ts (apply encoding t s).0
              (log ++ sort_keys (obj t.projection) ∷ []) (n + 1)
              (omega (arith, size, length-append log (sort_keys (obj t.projection) ∷ []))) later
              (apply-Represents encoding t s log here named r))
    ]

reconcile-active_of :
    (n k : ℕ) (v p : Json) (s : Store)
    → reconcile true n v (load_active_turn (some (active_of k p))) s
      ≡ compare_active true n v (some (pos k)) p s
unfolding reconcile load_active_turn get lookup active_of
reconcile-active_of n k v p s = rw (int_eq 1) refl

recover_represented :
    (file : Option (Option Json)) (s : Store) (e : Fields) (es : List Fields)
    → s.active ≡ file
    → IsStrict (get "projection" (last_of e es))
    → (sort_keys (get "projection" (last_of e es)) ≡ get "projection" (last_of e es))
    → ActiveWithin file (projections (e ∷ es))
    → let v = get "projection" (last_of e es) in
      let out = recover_from true (ok (e ∷ es)) file s in
      (out.1 ≡ ok v)
      × (out.0.active ≡ some (some (active_of (length (e ∷ es)) v)))
      × (out.0.event_lines ≡ s.event_lines)
unfolding recover_from rewritten write_active_turn ActiveWithin
recover_represented none s e es at u sorted held =
    (refl, ap some (ap some (sort-active_of _ _ sorted)), refl)
recover_represented (some file) s e es at u sorted (k, p, same, le, level) =
    let v = get "projection" (last_of e es) in
    let size = length-projections (e ∷ es) in
    rw (same, reconcile-active_of (length (e ∷ es)) k v p s)
      (compare_level (length (e ∷ es)) k v p s (at ∙ ap some same) u sorted
        (omega (arith, le, size))
        (λ level_k. level (level_k ∙ sym size) ∙ last_of_log-projections e es))

recover_read :
    (encoding : Encoding) (s : Store) (es : List Fields)
    → read_events encoding s ≡ ok es
    → 0 < length es
    → IsStrict (last_of_log (projections es))
    → sort_keys (last_of_log (projections es)) ≡ last_of_log (projections es)
    → ActiveWithin s.active (projections es)
    → let log = projections es in
      let out = recover_active_turn encoding true s in
      (out.1 ≡ ok (last_of_log log))
      × (out.0.active ≡ some (some (active_of (length log) (last_of_log log))))
      × (out.0.event_lines ≡ s.event_lines)
unfolding recover_active_turn
recover_read encoding s [] reads some_event u sorted held = absurd (omega arith)
recover_read encoding s (e ∷ es) reads some_event u sorted held =
    rw (reads, last_of_log-projections e es, length-projections (e ∷ es))
      (recover_represented s.active s e es refl (rw (sym (last_of_log-projections e es)) u)
        (rw (sym (last_of_log-projections e es)) sorted) held)

-- A store that represents a log with an event recovers its latest projection.
Represents-recover :
    (encoding : Encoding) (s : Store) (log : List Json)
    → Represents encoding s log
    → 0 < length log
    → IsStrict (last_of_log log)
    → let out = recover_active_turn encoding true s in
      (out.1 ≡ ok (last_of_log log))
      × (out.0.active ≡ some (some (active_of (length log) (last_of_log log))))
      × (out.0.event_lines ≡ s.event_lines)
Represents-recover encoding s log r some_event u =
    let size : length log ≡ length r.events =
      sym (ap length r.logged) ∙ length-projections r.events in
    rw (sym r.logged) (
      recover_read encoding s r.events r.reads (omega (arith, size)) (rw r.logged u)
        (rw r.logged r.sorted) (rw r.logged r.held))

-- Where calls on an empty store record at least one event, their events are written as one line each
-- and read from it with their keys sorted, and the latest projection repeats no key and holds no NaN,
-- then whichever of their projection writes fail and whichever have a blank event type, a recovery
-- whose own write succeeds returns the latest projection, its keys sorted, leaves it as the active
-- turn under the number of the latest event, and leaves the event log as it was.
pub recover-recorded :
    (encoding : Encoding) (ts : List Transition)
    → ArePrinted encoding 0 ts
    → 0 < length (recorded ts [])
    → IsStrict (last_of_log (recorded ts []))
    → let log = recorded ts [] in
      let before = apply_all encoding ts empty in
      let out = recover_active_turn encoding true before in
      (out.1 ≡ ok (last_of_log log))
      × (out.0.active ≡ some (some (active_of (length log) (last_of_log log))))
      × (out.0.event_lines ≡ before.event_lines)
recover-recorded encoding ts printed some_event u =
    Represents-recover encoding (apply_all encoding ts empty) (recorded ts [])
      (apply_all-Represents encoding ts empty [] 0 refl printed (empty-Represents encoding))
      some_event u
