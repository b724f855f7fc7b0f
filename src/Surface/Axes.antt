-- ===== src/Surface/Axes.antt =====
-- `derive_scalar_sweep_axis_projection` of src/cuda_fractal_state_tool/agent_bundle.py.
use package.text.Mathlib.Text.{starts_with}
use mathlib.Core.Path.{subst}
use cuda_fractal_engine_stat.Prelude.{
  Bool, true, false, ◌⊎◌, ◌||◌, ◌&&◌, some, List, [], ◌∷◌, ◌≡◌, refl, inl, inr, All, str_eq,
  if◌then◌else◌,
}
use cuda_fractal_engine_stat.Json.Document.{
  Json, null, text, arr, obj, Items, nil, cons, Fields, end, field, lookup, get,
}
use cuda_fractal_engine_stat.Surface.{
  Checked, ◌>>=◌, entries_missing, entry_not_an_object, type_unhashable,
}

-- `companions in (None, [])`.
pub no_companions : Json → Bool
no_companions null = true
no_companions (arr nil) = true
no_companions _ = false

-- `value_type in {"int", "float"}`, which a list or an object cannot be asked.
unfoldable pub is_numeric_type : Json → Checked Bool
is_numeric_type (text t) = inr (str_eq t "int" || str_eq t "float")
is_numeric_type (arr _) = inl type_unhashable
is_numeric_type (obj _) = inl type_unhashable
is_numeric_type _ = inr false

-- The projected fields of an entry.
unfoldable pub projected : Fields → Json
projected entry = obj (
    field "path" (get "path" entry) (
      field "type" (get "type" entry) (
        field "current_value" (get "current_value" entry) (
          field "minimum" (get "minimum" entry) (
            field "maximum" (get "maximum" entry) (
              field "ui_minimum" (get "ui_minimum" entry) (
                field "ui_maximum" (get "ui_maximum" entry) (
                  field "source_control_id" (get "source_control_id" entry) (
                    field "source_kind" (get "source_kind" entry)
                      (field "authority_refs" (get "authority_refs" entry) end))))))))))

-- The tests on a path that is a text of `params`; another path is passed over.
unfoldable pub is_params_path : Json → Bool
is_params_path (text path) = starts_with path "params."
is_params_path _ = false

unfoldable pub is_axis : Fields → Checked Bool
unfolding no_companions
is_axis entry =
    if is_params_path (get "path" entry)
    then (do
      numeric ← is_numeric_type (get "type" entry)
      inr (numeric && no_companions (get "companion_paths" entry)))
    else inr false

unfoldable pub project_entries : Items → Checked (List Json)
project_entries nil = inr []
project_entries (cons (obj entry) rest) = do
  axis ← is_axis entry
  others ← project_entries rest
  inr (if axis then projected entry ∷ others else others)
project_entries (cons _ rest) = inl entry_not_an_object

unfoldable pub derive_scalar_sweep_axis_projection : Fields → Checked (List Json)
derive_scalar_sweep_axis_projection surface = elim (lookup "entries" surface) [
  | some (arr entries) ↦ project_entries entries
  | _ ↦ inl entries_missing
]

-- The value is one of the items.
abbrev pub IsItem : Json → Items → Type 0
IsItem j nil = ⊥
IsItem j (cons x rest) = (j ≡ x) ⊎ IsItem j rest

-- A projection of one of the entries that authorises a numeric parameter without companions.
pub record IsAxis (entries : Items) (j : Json) : Type 0 where
  pub entry : Fields
  pub listed : IsItem (obj entry) entries
  pub is_projection : j ≡ projected entry
  pub of_params : is_params_path (get "path" entry) ≡ true
  pub numeric : is_numeric_type (get "type" entry) ≡ inr true
  pub alone : no_companions (get "companion_paths" entry) ≡ true

axis_parts :
    (b c : Bool) (m : Checked Bool)
    → (if b then (m >>= λ n. inr (n && c)) else inr false) ≡ inr true
    → (b ≡ true) × (m ≡ inr true) × (c ≡ true)
axis_parts true true (inr true) h = (refl, refl, refl)
axis_parts true false (inr true) h = absurd (cc h)
axis_parts true c (inr false) h = absurd (cc h)
axis_parts true c (inl e) h = absurd (cc h)
axis_parts false c m h = absurd (cc h)

entry-IsAxis :
    (entries : Items) (entry : Fields)
    → IsItem (obj entry) entries
    → is_axis entry ≡ inr true
    → IsAxis entries (projected entry)
unfolding is_axis
entry-IsAxis entries entry listed h =
    let (of_params, numeric, alone) =
      axis_parts (is_params_path (get "path" entry)) (no_companions (get "companion_paths" entry))
        (is_numeric_type (get "type" entry)) h in
    record {
      entry = entry;
      listed = listed;
      is_projection = refl;
      of_params = of_params;
      numeric = numeric;
      alone = alone;
    }

more_axes :
    (entries : Items) (axis : Bool) (entry : Fields) (others : List Json)
    → IsItem (obj entry) entries
    → is_axis entry ≡ inr axis
    → All (IsAxis entries) others
    → All (IsAxis entries) (if axis then projected entry ∷ others else others)
more_axes entries true entry others listed h all = (entry-IsAxis entries entry listed h, all)
more_axes entries false entry others listed h all = all

bind_inr :
    {X Y : Type 0} (first : Checked X) (next : X → Checked Y) {y : Y}
    → (first >>= next) ≡ inr y
    → (x : X) × (first ≡ inr x) × (next x ≡ inr y)
bind_inr (inl e) next h = absurd (cc h)
bind_inr (inr x) next h = (x, refl, h)

project_entries-IsAxis :
    (all entries : Items) (js : List Json)
    → ((j : Json) → IsItem j entries → IsItem j all)
    → project_entries entries ≡ inr js
    → All (IsAxis all) js
unfolding project_entries
project_entries-IsAxis all nil [] inside h = tt
project_entries-IsAxis all nil (j ∷ js) inside h = absurd (cc h)
project_entries-IsAxis all (cons (obj entry) rest) js inside h =
    let (axis, is, h1) = bind_inr (is_axis entry) _ h in
    let (others, found, h2) = bind_inr (project_entries rest) _ h1 in
    subst (All (IsAxis all)) (cc h2) (
      more_axes all axis entry others (inside (obj entry) (inl refl)) is
        (project_entries-IsAxis all rest others (λ j m. inside j (inr m)) found))
project_entries-IsAxis all (cons _ rest) js inside h = absurd (cc h)

-- Every axis of a projection that is derived is projected from one of the surface's entries, for a path
-- under `params`, whose type is `int` or `float` and which has no companion paths.
pub derive_scalar_sweep_axis_projection-IsAxis :
    (surface : Fields) (entries : Items) (js : List Json)
    → lookup "entries" surface ≡ some (arr entries)
    → derive_scalar_sweep_axis_projection surface ≡ inr js
    → All (IsAxis entries) js
unfolding derive_scalar_sweep_axis_projection
derive_scalar_sweep_axis_projection-IsAxis surface entries js held h =
    project_entries-IsAxis entries entries js (λ j m. m)
      (rw (derive_scalar_sweep_axis_projection, held) at h)
