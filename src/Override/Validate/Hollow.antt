-- ===== src/Override/Validate/Hollow.antt =====
-- A value without leaves: the checks of `params` see nothing of it.
use cuda_fractal_engine_stat.Prelude.{◌≡◌, some, String}
use cuda_fractal_engine_stat.Json.Document.{Json, arr, nil, obj, Fields, end, field, lookup}
use cuda_fractal_engine_stat.Json.Paths.{walk_leaves, resolve_path}
use cuda_fractal_engine_stat.Override.Merge.{validate_existing_object_shape}
use cuda_fractal_engine_stat.Override.Validate.{validate_params_and_view}

-- The override that sets one parameter to the empty list.
abbrev pub hollow : String → Fields
hollow k = field "params" (obj (field k (arr nil) end)) end

-- An override that replaces one parameter of the base, whatever its value and the authoring surface,
-- by the empty list gets from the checks of `params` and `view` what the empty override gets.
pub validate-hollow :
    (k : String) (v : Json) (params base surface : Fields)
    → lookup "params" base ≡ some (obj params)
    → lookup k params ≡ some v
    → validate_params_and_view (hollow k) base surface ≡ validate_params_and_view end base surface
unfolding validate_params_and_view lookup walk_leaves resolve_path validate_existing_object_shape
validate-hollow k v params base surface held found = rw (held, found)
