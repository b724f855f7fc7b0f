-- ===== src/Override/Topology/Fixed.antt =====
-- What the topology check leaves free: the functions and the parameter values of existing rows.
use cuda_fractal_engine_stat.Prelude.{
  ℕ, suc, Bool, true, false, ◌&&◌, ◌||◌, ◌≡◌, some, List, String, str_eq, arith, ◌==◌, contains,
  Bool-cases, eq_of_test, eq_iff, inl, inr,
}
use cuda_fractal_engine_stat.Override.Error.{
  OverrideError, Result, ok, ◌>>◌, require, bind_ok, next_row_id_changed, lane_count_changed,
  lane_keys_changed, row_count_changed, lane_changed, row_keys_changed, row_changed,
}
use cuda_fractal_engine_stat.Json.Document.{
  Json, arr, obj, Items, nil, cons, Fields, end, field, lookup, get, count_items, lookup_end,
  field_self, field_other,
}
use cuda_fractal_engine_stat.Json.Equality.{eq}
use cuda_fractal_engine_stat.Override.Topology.{
  keys_within, check_values, row_exempt, lane_exempt, check_row, check_rows, check_row_lists,
  check_lane, check_lanes, check_draft_lanes, validate_fixed_pipeline_topology,
}

-- Two objects with the same keys, equal under each key that is not exempt.
pub record SameBut (exempt : List String) (base candidate : Fields) : Type 0 where
  pub kept :
      (k : String) (v : Json)
      → lookup k base ≡ some v
      → contains exempt k ≡ false
      → eq (get k candidate) v ≡ true
  pub no_key_lost : keys_within base candidate ≡ true
  pub no_key_gained : keys_within candidate base ≡ true

-- Rows, one by one.
abbrev pub SameRows : Items → Items → Type 0
SameRows nil nil = Unit
SameRows (cons (obj b) bs) (cons (obj c) cs) = SameBut row_exempt b c × SameRows bs cs
SameRows _ _ = ⊥

abbrev pub SameRowLists : Json → Json → Type 0
SameRowLists (arr bs) (arr cs) = SameRows bs cs
SameRowLists _ _ = ⊥

abbrev pub SameLanes : Items → Items → Type 0
SameLanes nil nil = Unit
SameLanes (cons (obj b) bs) (cons (obj c) cs) =
    SameBut lane_exempt b c × SameRowLists (get "rows" b) (get "rows" c) × SameLanes bs cs
SameLanes _ _ = ⊥

abbrev pub SameDraftLanes : Json → Json → Type 0
SameDraftLanes (arr bs) (arr cs) = SameLanes bs cs
SameDraftLanes _ _ = ⊥

guarded :
    (b : Bool) (e : OverrideError) (m : Result (Unit {0}))
    → (require b e >> m) ≡ ok tt
    → (b ≡ true) × (m ≡ ok tt)
guarded b e m h = ground arith

check_values_sound :
    (exempt : List String) (changed : String → OverrideError) (base candidate : Fields)
    → check_values exempt changed base candidate ≡ ok tt
    → (k : String) (v : Json) → lookup k base ≡ some v
    → contains exempt k ≡ false
    → eq (get k candidate) v ≡ true
unfolding check_values
check_values_sound exempt changed end candidate h k v found free = absurd (lookup_end k v found)
check_values_sound exempt changed (field j x rest) candidate h k v found free =
    let (here, others) = guarded (contains exempt j || eq (get j candidate) x) (changed j) _ h in
    elim (Bool-cases (str_eq j k)) [
      | inl same ↦
          let e : j ≡ k = (eq_iff j k).0 same in
          let is_v : x ≡ v = field_self j x rest k v same found in
          held k v (rw (e, is_v) at here) free
      | inr differ ↦
          check_values_sound exempt changed rest candidate others k v
            (field_other j x rest k v differ found) free
    ]
  where
    held :
        (k : String) (v : Json)
        → (contains exempt k || eq (get k candidate) v) ≡ true
        → contains exempt k ≡ false
        → eq (get k candidate) v ≡ true
    held k v h free = ground arith

both : (a b : Bool) → (a && b) ≡ true → (a ≡ true) × (b ≡ true)
both a b h = ground arith

same_but :
    (exempt : List String) (changed : String → OverrideError) (base candidate : Fields)
    → (keys_within base candidate && keys_within candidate base) ≡ true
    → check_values exempt changed base candidate ≡ ok tt
    → SameBut exempt base candidate
same_but exempt changed base candidate keys values =
    let (lost, gained) = both (keys_within base candidate) _ keys in
    record {
      kept = check_values_sound exempt changed base candidate values;
      no_key_lost = lost;
      no_key_gained = gained;
    }

check_row_sound :
    (lane row : ℕ) (b c : Json) (bs cs : Items)
    → check_row lane row b c ≡ ok tt
    → SameRows bs cs
    → SameRows (cons b bs) (cons c cs)
unfolding check_row
check_row_sound lane row (obj b) (obj c) bs cs h rest =
    let (keys, values) =
      guarded (keys_within b c && keys_within c b) (row_keys_changed lane row) _ h in
    (same_but row_exempt (row_changed lane row) b c keys values, rest)
check_row_sound lane row _ _ bs cs h rest = absurd (cc h)

check_rows_sound :
    (lane row : ℕ) (bs cs : Items)
    → count_items bs ≡ count_items cs
    → check_rows lane row bs cs ≡ ok tt
    → SameRows bs cs
unfolding check_rows count_items
check_rows_sound lane row nil nil e h = tt
check_rows_sound lane row (cons b bs) (cons c cs) e h =
    let (_, here, others) = bind_ok (check_row lane row b c) _ h in
    check_row_sound lane row b c bs cs here
      (check_rows_sound lane (suc row) bs cs (omega arith) others)
check_rows_sound lane row _ _ e h = absurd (omega arith)

check_row_lists_sound :
    (lane : ℕ) (b c : Json) → check_row_lists lane b c ≡ ok tt → SameRowLists b c
unfolding check_row_lists
check_row_lists_sound lane (arr bs) (arr cs) h =
    let (counts, rows) = guarded (count_items bs == count_items cs) (row_count_changed lane) _ h in
    check_rows_sound lane 0 bs cs (eq_of_test _ _ counts) rows
check_row_lists_sound lane _ _ h = absurd (cc h)

check_lane_sound :
    (lane : ℕ) (b c : Json) (bs cs : Items)
    → check_lane lane b c ≡ ok tt
    → SameLanes bs cs
    → SameLanes (cons b bs) (cons c cs)
unfolding check_lane
check_lane_sound lane (obj b) (obj c) bs cs h rest =
    let (keys, h1) = guarded (keys_within b c && keys_within c b) (lane_keys_changed lane) _ h in
    let (_, values, rows) = bind_ok (check_values lane_exempt (lane_changed lane) b c) _ h1 in
    (
      same_but lane_exempt (lane_changed lane) b c keys values,
      check_row_lists_sound lane (get "rows" b) (get "rows" c) rows,
      rest,
    )
check_lane_sound lane _ _ bs cs h rest = absurd (cc h)

check_lanes_sound :
    (lane : ℕ) (bs cs : Items)
    → count_items bs ≡ count_items cs
    → check_lanes lane bs cs ≡ ok tt
    → SameLanes bs cs
unfolding check_lanes count_items
check_lanes_sound lane nil nil e h = tt
check_lanes_sound lane (cons b bs) (cons c cs) e h =
    let (_, here, others) = bind_ok (check_lane lane b c) _ h in
    check_lane_sound lane b c bs cs here (check_lanes_sound (suc lane) bs cs (omega arith) others)
check_lanes_sound lane _ _ e h = absurd (omega arith)

check_draft_lanes_sound :
    (base candidate : Fields) (b c : Json)
    → check_draft_lanes base candidate b c ≡ ok tt
    → SameDraftLanes b c × (eq (get "next_row_id" base) (get "next_row_id" candidate) ≡ true)
unfolding check_draft_lanes
check_draft_lanes_sound base candidate (arr bs) (arr cs) h =
    let (same_id, h1) =
      guarded (eq (get "next_row_id" base) (get "next_row_id" candidate)) next_row_id_changed _ h in
    let (counts, lanes) = guarded (count_items bs == count_items cs) lane_count_changed _ h1 in
    (check_lanes_sound 0 bs cs (eq_of_test _ _ counts) lanes, same_id)
check_draft_lanes_sound base candidate _ _ h = absurd (cc h)

-- A draft that passes has the base's `next_row_id`, the base's lanes one for one with their rows one
-- for one, no key more or less in any of them, and equal values under every key but a lane's `rows`
-- and a row's `function_id` and `parameter_values`.
pub topology-SameLanes :
    (base candidate : Fields)
    → validate_fixed_pipeline_topology base candidate ≡ ok tt
    → SameDraftLanes (get "lanes" base) (get "lanes" candidate)
      × (eq (get "next_row_id" base) (get "next_row_id" candidate) ≡ true)
unfolding validate_fixed_pipeline_topology
topology-SameLanes base candidate h =
    check_draft_lanes_sound base candidate (get "lanes" base) (get "lanes" candidate) h
