-- ===== src/Response/Permissions.antt =====
-- `ExperimentPermissions`, and the authorisation of a payload by it:
-- src/cuda_fractal_state_tool/research_protocol.py.
pub mod Own
use Prim.Native.Char.{Char, code}
use cuda_fractal_engine_stat.Prelude.{
  ℕ, Bool, true, false, not, ◌&&◌, ◌||◌, Option, none, some, List, [], ◌∷◌, String, str_eq, leb,
  ◌==◌, if◌then◌else◌, contains, ◌⊎◌, inl, inr,
}
use cuda_fractal_engine_stat.Json.Document.{
  Json, null, bool, text, arr, obj, Items, nil, cons, Fields, get,
}
use cuda_fractal_engine_stat.Json.Paths.{split_dots, walk_leaves}
use cuda_fractal_engine_stat.Override.Draft.Parameters.{has_exactly}
use cuda_fractal_engine_stat.Override.Error.{Result, ok, err}
use cuda_fractal_engine_stat.Override.Parse.{parse_state_override}
use cuda_fractal_engine_stat.Override.Validate.{paths_of}
use cuda_fractal_engine_stat.Sweep.Plan.{PlanError, ParsedPlan, parse_scalar_sweep_plan}
use cuda_fractal_engine_stat.Response.{
  Checked, accepted, rejected, ◌>>=◌, demand, known, Refusal, permissions_shape, domains_invalid,
  paths_not_unique, path_invalid, path_outside_domains, sweep_flag_not_boolean, payload_invalid,
  no_effect, path_denied, sweep_not_permitted,
}

pub record ExperimentPermissions : Type 0 where
  pub domains : List String
  -- `none` permits every path of the domains.
  pub allowed_paths : Option (List String)
  pub allow_scalar_sweep : Bool

abbrev pub supported_domains : List String
supported_domains = "params" ∷ "view" ∷ "color_pipeline_draft" ∷ []

-- The texts of an array that holds nothing else.
texts_of : Items → Option (List String)
texts_of nil = some []
texts_of (cons (text s) rest) = elim (texts_of rest) [ none ↦ none | some ss ↦ some (s ∷ ss) ]
texts_of (cons _ rest) = none

unique : List String → Bool
unique [] = true
unique (s ∷ rest) = not (contains rest s) && unique rest

unfoldable pub all_in : List String → List String → Bool
all_in permitted [] = true
all_in permitted (s ∷ rest) = contains permitted s && all_in permitted rest

-- A list of different texts.
unique_texts : Json → Refusal → Checked (List String)
unfolding texts_of unique
unique_texts (arr items) r = do
  texts ← known r (texts_of items)
  _ ← demand (unique texts) r
  accepted texts
unique_texts _ r = rejected r

is_letter : Char → Bool
is_letter c =
    (leb b'A' (code c) && leb (code c) b'Z')
    || (leb b'a' (code c) && leb (code c) b'z')
    || code c == b'_'

is_word : Char → Bool
unfolding is_letter
is_word c = is_letter c || (leb b'0' (code c) && leb (code c) b'9')

all_word : String → Bool
unfolding is_word
all_word String.[] = true
all_word (String.◌∷◌ c s) = is_word c && all_word s

-- `[A-Za-z_][A-Za-z0-9_]*`
is_identifier : String → Bool
unfolding is_letter all_word
is_identifier String.[] = false
is_identifier (String.◌∷◌ c s) = is_letter c && all_word s

all_identifiers : List String → Bool
unfolding is_identifier
all_identifiers [] = true
all_identifiers (s ∷ rest) = is_identifier s && all_identifiers rest

-- `_SAFE_PATH.fullmatch(path)` over the path's parts, with the domain it starts with.
safe_domain : List String → Option String
unfolding all_identifiers
safe_domain (domain ∷ name ∷ rest) =
    if (str_eq domain "params" || str_eq domain "view") && all_identifiers (name ∷ rest)
    then some domain
    else none
safe_domain _ = none

allowed_domain : String → Option String
unfolding safe_domain
allowed_domain path =
    if str_eq path "color_pipeline_draft" then some path else safe_domain (split_dots path)

check_paths : List String → List String → Checked (Unit {0})
unfolding allowed_domain
check_paths domains [] = accepted tt
check_paths domains (path ∷ rest) = do
  domain ← known path_invalid (allowed_domain path)
  _ ← demand (contains domains domain) path_outside_domains
  check_paths domains rest

paths_from : List String → Json → Checked (Option (List String))
unfolding unique_texts check_paths
paths_from domains null = accepted none
paths_from domains value = do
  paths ← unique_texts value paths_not_unique
  _ ← check_paths domains paths
  accepted (some paths)

flag_from : Json → Checked Bool
flag_from (bool b) = accepted b
flag_from _ = rejected sweep_flag_not_boolean

unfoldable pub from_dict : Json → Checked ExperimentPermissions
unfolding unique_texts all_in paths_from flag_from
from_dict (obj value) = do
  _ ←
      demand (has_exactly value ("domains" ∷ "allowed_paths" ∷ "allow_scalar_sweep" ∷ []))
        permissions_shape
  domains ← unique_texts (get "domains" value) domains_invalid
  _ ← demand (all_in supported_domains domains) domains_invalid
  paths ← paths_from domains (get "allowed_paths" value)
  flag ← flag_from (get "allow_scalar_sweep" value)
  accepted (record { domains = domains; allowed_paths = paths; allow_scalar_sweep = flag })
from_dict _ = rejected permissions_shape

-- `path.split(".", 1)[0].split("[", 1)[0]`: the text before the first dot or bracket.
unfoldable pub domain_of : String → String
domain_of String.[] = String.[]
domain_of (String.◌∷◌ c s) =
    let rest = domain_of s in
    if code c == b'.' || code c == b'[' then String.[] else String.◌∷◌ c rest

unfoldable pub starts_with : String → String → Bool
starts_with String.[] s = true
starts_with (String.◌∷◌ c prefix) String.[] = false
starts_with (String.◌∷◌ c prefix) (String.◌∷◌ d s) = (code c == code d) && starts_with prefix s

-- The loop over the allowed paths.
unfoldable pub allows : String → List String → Bool
unfolding starts_with
allows path [] = false
allows path (allowed ∷ rest) =
    str_eq path allowed
    || (str_eq allowed "color_pipeline_draft"
        && (starts_with "color_pipeline_draft." path || starts_with "color_pipeline_draft[" path))
    || allows path rest

within_paths : String → Option (List String) → Bool
unfolding allows
within_paths path none = true
within_paths path (some paths) = allows path paths

unfoldable pub authorizes_path : ExperimentPermissions → String → Bool
unfolding domain_of within_paths
authorizes_path p path =
    if contains p.domains (domain_of path) then within_paths path p.allowed_paths else false

unfoldable pub all_authorized : ExperimentPermissions → List String → Bool
unfolding authorizes_path
all_authorized p [] = true
all_authorized p (path ∷ rest) = authorizes_path p path && all_authorized p rest

unfoldable pub from_override : Result Fields → Checked Fields
from_override (ok override) = accepted override
from_override (err e) = rejected payload_invalid

some_path : List String → Bool
some_path [] = false
some_path (path ∷ rest) = true

-- `authorize_single_override` of a decoded payload.
unfoldable pub authorize_single_override : Json → ExperimentPermissions → Checked Fields
unfolding from_override some_path all_authorized
authorize_single_override payload p = do
  override ← from_override (parse_state_override payload)
  let paths = paths_of (walk_leaves (obj override) "")
  _ ← demand (some_path paths) no_effect
  _ ← demand (all_authorized p paths) path_denied
  accepted override

unfoldable pub from_plan : PlanError ⊎ ParsedPlan → Checked ParsedPlan
from_plan (inr plan) = accepted plan
from_plan (inl e) = rejected payload_invalid

-- `authorize_scalar_sweep` of a decoded payload.
unfoldable pub authorize_scalar_sweep : Json → ExperimentPermissions → Checked ParsedPlan
unfolding from_plan authorizes_path
authorize_scalar_sweep payload p = do
  _ ← demand p.allow_scalar_sweep sweep_not_permitted
  plan ← from_plan (parse_scalar_sweep_plan payload)
  _ ← demand (authorizes_path p plan.axis_path) path_denied
  accepted plan
