-- ===== src/Surface.antt =====
-- How src/cuda_fractal_state_tool/agent_bundle.py reads the controls of a UI schema for an authoring
-- surface, and `derive_scalar_sweep_axis_projection`. A dotted path's digits are ASCII.
pub mod Axes
pub mod Ids
mod Tests
use package.text.Mathlib.Text.{starts_with}
use Prim.Native.Char.{Char, code}
use cuda_fractal_engine_stat.Prelude.{
  ℕ, zero, suc, ◌+◌, ◌-◌, ◌*◌, Bool, true, false, not, ◌||◌, ◌&&◌, Option, none, some, List, [],
  ◌∷◌, ◌++◌, ◌⊎◌, inl, inr, String, str_eq, leb, ◌==◌, if◌then◌else◌, contains,
}
use cuda_fractal_engine_stat.Json.Document.{
  Json, null, text, arr, obj, Items, nil, cons, Fields, end, field, lookup, get, has_key,
}
use cuda_fractal_engine_stat.Json.Equality.{eq}
use cuda_fractal_engine_stat.Json.Paths.{split_dots}

pub data SurfaceError : Type 0 where
  schema_without_panels panel_without_controls panel_without_id control_without_id
        control_repeated :
      SurfaceError
  option_invalid entries_missing entry_not_an_object type_unhashable : SurfaceError

abbrev pub Checked : Type 0 → Type 0
Checked X = SurfaceError ⊎ X

infixl 5 ◌>>=◌
abbrev pub ◌>>=◌ : {X Y : Type 0} → Checked X → (X → Checked Y) → Checked Y
inl refusal >>= next = inl refusal
inr x >>= next = next x

is_digit : Char → Bool
is_digit c = leb b'0' (code c) && leb (code c) b'9'

all_digits : String → Bool
unfolding is_digit
all_digits String.[] = true
all_digits (String.◌∷◌ c s) = is_digit c && all_digits s

-- `int(part)` of a text of digits.
number_of : String → ℕ → ℕ
number_of String.[] n = n
number_of (String.◌∷◌ c s) n = number_of s (10 * n + (code c - b'0'))

item_at : ℕ → Items → Option Json
item_at n nil = none
item_at zero (cons x xs) = some x
item_at (suc n) (cons x xs) = item_at n xs

step_into : String → Json → Option Json
unfolding all_digits number_of item_at
step_into part (obj fs) = lookup part fs
step_into part (arr xs) =
    if not (str_eq part "") && all_digits part then item_at (number_of part 0) xs else none
step_into part _ = none

-- `_resolve_path` of this module, which also indexes lists; `none` is `(False, None)`.
unfoldable pub resolve_indexed : List String → Json → Option Json
unfolding step_into
resolve_indexed [] current = some current
resolve_indexed (part ∷ rest) current = elim (step_into part current) [
  | none ↦ none
  | some below ↦ resolve_indexed rest below
]

-- `text.removeprefix(prefix)`.
strip : String → String → Option String
strip String.[] s = some s
strip (String.◌∷◌ c p) String.[] = none
strip (String.◌∷◌ c p) (String.◌∷◌ d s) =
    let below = strip p s in if code c == code d then below else none

remove_prefix : String → String → String
unfolding strip
remove_prefix prefix s = elim (strip prefix s) [ none ↦ s | some rest ↦ rest ]

unfoldable pub state_value_for_binding : Fields → String → Option Json
unfolding remove_prefix
state_value_for_binding state path =
    if str_eq path "fractal.view.fractal_type"
    then lookup "fractal_type" state
    else if starts_with path "fractal.params."
    then resolve_indexed (split_dots (remove_prefix "fractal.params." path)) (get "params" state)
    else if starts_with path "fractal.view."
    then resolve_indexed (split_dots (remove_prefix "fractal.view." path)) (get "view" state)
    else none

-- `text.split(",")`.
prepend : Char → List String → List String
prepend c [] = []
prepend c (part ∷ parts) = String.◌∷◌ c part ∷ parts

split_commas : String → List String
unfolding prepend
split_commas String.[] = "" ∷ []
split_commas (String.◌∷◌ c s) =
    let rest = split_commas s in if code c == b',' then "" ∷ rest else prepend c rest

is_among : Json → Json → Bool
unfolding split_commas
is_among (text current) (text expected) = contains (split_commas expected) current
is_among _ _ = false

-- An operation on a current and an expected value.
holds : String → Json → Json → Bool
unfolding is_among
holds op current expected =
    if str_eq op "eq"
    then eq current expected
    else if str_eq op "neq"
    then not (eq current expected)
    else str_eq op "in" && is_among current expected

holds_of : Fields → Json → Json → Json → Bool
unfolding holds
holds_of state (text path) (text op) expected = elim (state_value_for_binding state path) [
  | none ↦ false
  | some current ↦ holds op current expected
]
holds_of state _ _ expected = false

condition_holds : Json → Fields → Bool
unfolding holds_of
condition_holds null state = true
condition_holds (obj condition) state =
    holds_of state (get "path" condition) (get "op" condition) (get "value" condition)
condition_holds _ state = false

unfoldable pub visible_in_state : Fields → Fields → Bool
unfolding condition_holds
visible_in_state control state = condition_holds (get "visible_if" control) state

-- A control under its id, with its panel's id.
abbrev pub Controls : Type 0
Controls = List (String × String × Fields)

unfoldable pub is_control : String → Controls → Bool
is_control id [] = false
is_control id ((_, other, _) ∷ rest) = str_eq other id || is_control id rest

identified : Json → Option (String × Fields)
identified (obj control) = elim (lookup "id" control) [
  | some (text id) ↦ some (id, control)
  | _ ↦ none
]
identified _ = none

add_control : String → Option (String × Fields) → Controls → Checked Controls
add_control panel none found = inl control_without_id
add_control panel (some (id, control)) found =
    if is_control id found then inl control_repeated else inr (found ++ ((panel, id, control) ∷ []))

add_controls : String → Items → Controls → Checked Controls
unfolding identified add_control
add_controls panel nil found = inr found
add_controls panel (cons control rest) found = do
  more ← add_control panel (identified control) found
  add_controls panel rest more

-- A panel's controls and id, in the order of their checks.
panel_parts : Json → Checked (String × Items)
panel_parts (obj panel) = elim (lookup "controls" panel) [
  | some (arr controls) ↦ elim (lookup "id" panel) [
    | some (text id) ↦ if str_eq id "" then inl panel_without_id else inr (id, controls)
    | _ ↦ inl panel_without_id
  ]
  | _ ↦ inl panel_without_controls
]
panel_parts _ = inl panel_without_controls

add_panels : Items → Controls → Checked Controls
unfolding panel_parts add_controls
add_panels nil found = inr found
add_panels (cons panel rest) found = do
  (id, controls) ← panel_parts panel
  more ← add_controls id controls found
  add_panels rest more

unfoldable pub schema_controls : Fields → Checked Controls
unfolding add_panels
schema_controls schema = elim (lookup "panels" schema) [
  | some (arr panels) ↦ add_panels panels []
  | _ ↦ inl schema_without_panels
]

option_ids : Items → Checked Items
option_ids nil = inr nil
option_ids (cons (obj option) rest) = elim (lookup "id" option) [
  | some (text id) ↦ do others ← option_ids rest; inr (cons (text id) others)
  | _ ↦ inl option_invalid
]
option_ids (cons _ rest) = inl option_invalid

options_of : Json → Checked Json
unfolding option_ids
options_of (arr options) = do ids ← option_ids options; inr (arr ids)
options_of _ = inr null

text_items : List String → Items
text_items [] = nil
text_items (s ∷ rest) = cons (text s) (text_items rest)

-- The entry of a control, which has an id.
unfoldable pub control_entry :
    String → Fields → Json → String → String → String → List String → Checked Fields
unfolding options_of text_items
control_entry path control current_value source_kind parameter_surface_sha256 ui_schema_sha256
      companion_paths =
    do
      ids ← options_of (get "options" control)
      inr (
          field "path" (text path) (
            field "source_control_id" (get "id" control) (
              field "source_kind" (text source_kind) (
                field "type" (get "value_type" control) (
                  field "current_value" current_value (
                    field "minimum" (get "min" control) (
                      field "maximum" (get "max" control) (
                        field "ui_minimum" (get "ui_min" control) (
                          field "ui_maximum" (get "ui_max" control) (
                            field "options" ids (
                              field "companion_paths" (arr (text_items companion_paths)) (
                                field "authority_refs"
                                  (obj (
                                    field "parameter_surface_sha256" (text parameter_surface_sha256)
                                      (field "ui_schema_sha256" (text ui_schema_sha256) end)))
                                  end))))))))))))
