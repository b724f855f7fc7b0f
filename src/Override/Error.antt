-- ===== src/Override/Error.antt =====
-- The exceptions of src/cuda_fractal_state_tool/state_override.py, one constructor for each message.
use cuda_fractal_engine_stat.Prelude.{ℕ, Bool, true, false, String, List, ◌≡◌, refl}

pub data OverrideError : Type 0 where
  -- parse_state_override
  not_an_object : OverrideError
  unsupported_domains : List String → OverrideError
  domain_not_an_object : String → OverrideError
  null_at : String → OverrideError
  non_finite_at : String → OverrideError
  -- the authoring surface
  surface_without_entries surface_entry_invalid surface_without_rules rule_invalid : OverrideError
  surface_repeats_path : String → OverrideError
  -- values
  not_a_finite_number not_an_integer not_a_boolean not_an_option unsupported_type :
      String → OverrideError
  below_minimum above_maximum not_authorable companion_not_finite companion_disagrees :
      String → OverrideError
  base_without_domain : String → OverrideError
  camera_incomplete : String → String → OverrideError
  zoom_not_positive : OverrideError
  -- the color pipeline
  pipeline_not_lanes_only base_without_draft pipeline_unchanged : OverrideError
  lanes_incomplete next_row_id_changed lane_count_changed : OverrideError
  lane_invalid lane_keys_changed row_topology_invalid row_count_changed : ℕ → OverrideError
  lane_changed : ℕ → String → OverrideError
  row_invalid row_keys_changed : ℕ → ℕ → OverrideError
  row_changed : ℕ → ℕ → String → OverrideError
  draft_invalid contract_invalid : OverrideError
  -- materialization
  output_inside_packet not_json_compliant : OverrideError
  -- raised by Python itself
  type_error overflow_error : OverrideError
  -- shape and merge
  path_absent : String → OverrideError
  object_conflicts_scalar : String → OverrideError
  merge_into_scalar : String → OverrideError
  key_error : String → OverrideError

pub data Result {ℓ} (A : Type ℓ) : Type ℓ where
  ok : A → Result A
  err : OverrideError → Result A

infixl 5 ◌>>=◌ ◌>>◌
-- The first error of a chain of checks stands for its exception.
abbrev pub ◌>>=◌ {ℓ κ} : {X : Type ℓ} {Y : Type κ} → Result X → (X → Result Y) → Result Y
err raised >>= next = err raised
ok x >>= next = next x

abbrev pub ◌>>◌ {ℓ} : {X : Type ℓ} → Result (Unit {0}) → Result X → Result X
check >> rest = check >>= λ _. rest

abbrev pub require : Bool → OverrideError → Result (Unit {0})
require true e = ok tt
require false e = err e

-- A bind that succeeds: its first part succeeded, and so did the rest.
pub bind_ok {ℓ κ} :
    {X : Type ℓ} {Y : Type κ} (first : Result X) (next : X → Result Y) {y : Y}
    → (first >>= next) ≡ ok y
    → (x : X) × (first ≡ ok x) × (next x ≡ ok y)
bind_ok (err raised) next h = cc
bind_ok (ok x) next h = (x, refl, h)

pub ok-injective {ℓ} : {A : Type ℓ} {a b : A} → ok a ≡ ok b → a ≡ b
ok-injective h = cc h
