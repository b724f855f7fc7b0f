-- ===== src/Json/Paths.antt =====
-- The dotted paths by which the tool names the leaves of a document: `_walk_leaves` and
-- `_resolve_path` of src/cuda_fractal_state_tool/state_override.py.
use Prim.Native.String.{◌++◌ as append}
use Prim.Native.Char.{Char, code}
use cuda_fractal_engine_stat.Prelude.{
  ◌==◌, ℕ, zero, suc, ◌/◌, ◌-◌, ◌*◌, Option, none, some, List, [], ◌∷◌, ◌++◌, String, str_eq, ltb,
  if◌then◌else◌,
}
use cuda_fractal_engine_stat.Json.Document.{
  Json, arr, obj, Items, nil, cons, Fields, end, field, lookup,
}

pub digit : ℕ → String
digit zero = "0"
digit (suc zero) = "1"
digit (suc (suc zero)) = "2"
digit (suc (suc (suc zero))) = "3"
digit (suc (suc (suc (suc zero)))) = "4"
digit (suc (suc (suc (suc (suc zero))))) = "5"
digit (suc (suc (suc (suc (suc (suc zero)))))) = "6"
digit (suc (suc (suc (suc (suc (suc (suc zero))))))) = "7"
digit (suc (suc (suc (suc (suc (suc (suc (suc zero)))))))) = "8"
digit _ = "9"

-- The decimal text of an index; `n + 1` rounds are enough, since each divides by ten.
unfoldable pub decimal : ℕ → ℕ → String
unfolding digit
decimal zero n = ""
decimal (suc f) n =
    let rest = decimal f (n / 10) in
    if ltb n 10 then digit n else append rest (digit (n - 10 * (n / 10)))

-- f"{prefix}.{key}" if prefix else key
unfoldable pub child_path : String → String → String
child_path prefix key = if str_eq prefix "" then key else append prefix (append "." key)

-- f"{prefix}[{index}]"
unfoldable pub item_path : String → ℕ → String
unfolding decimal
item_path prefix index = append prefix (append "[" (append (decimal (suc index) index) "]"))

unfoldable mutual
  unfolding child_path item_path

  pub walk_leaves : Json → String → List (String × Json)
  walk_leaves (obj fs) prefix = walk_fields fs prefix
  walk_leaves (arr xs) prefix = walk_items xs prefix 0
  walk_leaves v prefix = (prefix, v) ∷ []

  pub walk_fields : Fields → String → List (String × Json)
  walk_fields end prefix = []
  walk_fields (field k v fs) prefix = walk_leaves v (child_path prefix k) ++ walk_fields fs prefix

  pub walk_items : Items → String → ℕ → List (String × Json)
  walk_items nil prefix index = []
  walk_items (cons x xs) prefix index =
      walk_leaves x (item_path prefix index) ++ walk_items xs prefix (suc index)

-- `path.split(".")`.
abbrev prepend : Char → List String → List String
prepend c [] = []
prepend c (part ∷ parts) = String.◌∷◌ c part ∷ parts

unfoldable pub split_dots : String → List String
split_dots String.[] = "" ∷ []
split_dots (String.◌∷◌ c s) =
    let rest = split_dots s in if code c == b'.' then "" ∷ rest else prepend c rest

-- `_resolve_path` over the parts of the dotted path; `none` is `(False, None)`.
unfoldable pub resolve_path : List String → Json → Option Json
resolve_path [] current = some current
resolve_path (part ∷ parts) (obj fs) = elim (lookup part fs) [
  | none ↦ none
  | some v ↦ resolve_path parts v
]
resolve_path (part ∷ parts) _ = none
