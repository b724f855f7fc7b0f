-- ===== src/Surface/Tests.antt =====
-- The theorems on authoring surfaces at small schemas.
use cuda_fractal_engine_stat.Prelude.{inr, [], ◌∷◌, ◌≡◌, refl, All}
use cuda_fractal_engine_stat.Json.Document.{
  text, arr, obj, nil, cons, Fields, end, field, lookup, get,
}
use cuda_fractal_engine_stat.Surface.{Controls, schema_controls, is_control}
use cuda_fractal_engine_stat.Surface.Ids.{DistinctIds, schema_controls-DistinctIds}
use cuda_fractal_engine_stat.Surface.Axes.{
  IsAxis, projected, is_axis, is_params_path, is_numeric_type, project_entries,
  derive_scalar_sweep_axis_projection, derive_scalar_sweep_axis_projection-IsAxis,
}

abbrev power : Fields
power = field "path" (text "params.power") (field "type" (text "float") end)

abbrev zoom : Fields
zoom = field "path" (text "view.zoom") (field "type" (text "float") end)

abbrev surface : Fields
surface = field "entries" (arr (cons (obj power) (cons (obj zoom) nil))) end

power-projected : derive_scalar_sweep_axis_projection surface ≡ inr (projected power ∷ [])
unfolding derive_scalar_sweep_axis_projection project_entries is_axis is_params_path is_numeric_type
    lookup get
power-projected = refl

derive_scalar_sweep_axis_projection-IsAxis_example :
    All (IsAxis (cons (obj power) (cons (obj zoom) nil))) (projected power ∷ [])
unfolding lookup
derive_scalar_sweep_axis_projection-IsAxis_example =
    derive_scalar_sweep_axis_projection-IsAxis surface (cons (obj power) (cons (obj zoom) nil))
      (projected power ∷ []) refl power-projected

abbrev control : Fields
control = field "id" (text "power") end

abbrev other : Fields
other = field "id" (text "zoom") end

abbrev schema : Fields
schema =
    field "panels"
      (arr (
        cons
          (obj (
            field "id" (text "main")
              (field "controls" (arr (cons (obj control) (cons (obj other) nil))) end)))
          nil))
      end

abbrev controls : Controls
controls = ("main", "power", control) ∷ ("main", "zoom", other) ∷ []

schema_read : schema_controls schema ≡ inr controls
unfolding schema_controls is_control lookup
schema_read = refl

schema_controls-DistinctIds_example : DistinctIds controls
schema_controls-DistinctIds_example = schema_controls-DistinctIds schema controls schema_read
