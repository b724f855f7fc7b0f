-- ===== src/Response/Permissions/Own.antt =====
-- What accepted permissions authorise: the allowed paths that they list, and nothing outside them.
-- `ExperimentPermissions` and `authorize_single_override` of
-- src/cuda_fractal_state_tool/research_protocol.py.
use Prim.Native.Char.{code}
use mathlib.Core.Path.{subst}
use cuda_fractal_engine_stat.Prelude.{
  true, ◌||◌, Option, none, some, List, [], ◌∷◌, String, str_eq, eq_iff, ◌==◌, if◌then◌else◌,
  contains, ◌≡◌, ◌≢◌, refl, sym, ap, ◌∙◌, inl, inr, Bool-cases, All, arith,
}
use cuda_fractal_engine_stat.Json.Document.{
  Json, null, bool, int, float, text, arr, obj, Fields, get,
}
use cuda_fractal_engine_stat.Json.Paths.{split_dots, walk_leaves}
use cuda_fractal_engine_stat.Override.Error.{Result, ok, err}
use cuda_fractal_engine_stat.Override.Draft.Parameters.{has_exactly}
use cuda_fractal_engine_stat.Override.Parse.{parse_state_override, parse-document}
use cuda_fractal_engine_stat.Override.Validate.{paths_of}
use cuda_fractal_engine_stat.Response.{
  Checked, accepted, rejected, ◌>>=◌, demand, known, no_effect, path_denied, permissions_shape,
  path_invalid, path_outside_domains, paths_not_unique, domains_invalid, bind_accepted,
  known-accepted, demand-accepted, accepted-injective,
}
use cuda_fractal_engine_stat.Response.Permissions.{
  ExperimentPermissions, supported_domains, unique_texts, all_in, safe_domain, allowed_domain,
  check_paths, paths_from, flag_from, from_dict, domain_of, allows, within_paths, authorizes_path,
  all_authorized, from_override, some_path, authorize_single_override,
}

before_bracket : String → String
before_bracket String.[] = String.[]
before_bracket (String.◌∷◌ c s) =
    let rest = before_bracket s in if code c == b'[' then String.[] else String.◌∷◌ c rest

first_part : List String → String
first_part [] = String.[]
first_part (part ∷ parts) = part

split_dots-IsCons :
    (s : String) → (part : String) × (parts : List String) × (split_dots s ≡ part ∷ parts)
unfolding split_dots
split_dots-IsCons String.[] = ("", [], refl)
split_dots-IsCons (String.◌∷◌ c s) =
    let (part, parts, same) = split_dots-IsCons s in
    elim (Bool-cases (code c == b'.')) [
      | inl dot ↦ ("", split_dots s, rw dot refl)
      | inr other ↦ (String.◌∷◌ c part, parts, rw (other, same) refl)
    ]

domain_of-split_dots :
    (path : String) → domain_of path ≡ before_bracket (first_part (split_dots path))
unfolding domain_of before_bracket first_part split_dots
domain_of-split_dots String.[] = refl
domain_of-split_dots (String.◌∷◌ c s) =
    let (part, parts, same) = split_dots-IsCons s in
    let later : domain_of s ≡ before_bracket part = domain_of-split_dots s ∙ rw same refl in
    elim (Bool-cases (code c == b'.')) [
      | inl dot ↦ rw dot refl
      | inr other ↦ rw (other, same, later) refl
    ]

params_has_no_bracket : before_bracket "params" ≡ "params"
unfolding before_bracket
params_has_no_bracket = refl

view_has_no_bracket : before_bracket "view" ≡ "view"
unfolding before_bracket
view_has_no_bracket = refl

before_bracket_fixed :
    (d : String) → (str_eq d "params" || str_eq d "view") ≡ true → before_bracket d ≡ d
before_bracket_fixed d h = elim (Bool-cases (str_eq d "params")) [
  | inl params ↦ rw ((eq_iff d "params").0 params) params_has_no_bracket
  | inr other ↦
      let view : str_eq d "view" ≡ true = ground arith in
      rw ((eq_iff d "view").0 view) view_has_no_bracket
]

safe_domain-first :
    (parts : List String) (domain : String)
    → safe_domain parts ≡ some domain
    → before_bracket (first_part parts) ≡ domain
unfolding safe_domain first_part
safe_domain-first [] domain h = cc
safe_domain-first (d ∷ []) domain h = cc
safe_domain-first (d ∷ name ∷ rest) domain h =
    elim (Bool-cases (str_eq d "params" || str_eq d "view")) [
      | inl named ↦ before_bracket_fixed d named ∙ ground arith
      | inr other ↦ ground arith
    ]

draft_domain : domain_of "color_pipeline_draft" ≡ "color_pipeline_draft"
unfolding domain_of
draft_domain = refl

-- The domain of an allowed path is the same by both ways that the code takes it.
allowed_domain-domain_of :
    (path domain : String) → allowed_domain path ≡ some domain → domain_of path ≡ domain
unfolding allowed_domain
allowed_domain-domain_of path domain h = elim (Bool-cases (str_eq path "color_pipeline_draft")) [
  | inl draft ↦
      let same = (eq_iff path "color_pipeline_draft").0 draft in
      rw (same) (draft_domain ∙ ground (arith))
  | inr other ↦
      domain_of-split_dots path ∙ safe_domain-first (split_dots path) domain (ground arith)
]

-- Every one of the paths has a permitted domain.
check_paths-domains :
    (domains paths : List String)
    → check_paths domains paths ≡ accepted tt
    → All (λ path. contains domains (domain_of path) ≡ true) paths
unfolding check_paths
check_paths-domains domains [] h = tt
check_paths-domains domains (path ∷ rest) h =
    let (domain, found, h1) = bind_accepted (known path_invalid (allowed_domain path)) _ h in
    let (_, permitted, h2) =
      bind_accepted (demand (contains domains domain) path_outside_domains) _ h1 in
    let same = allowed_domain-domain_of path domain (known-accepted path_invalid _ found) in
    (rw same (demand-accepted _ _ permitted), check_paths-domains domains rest h2)

All-contains :
    (P : String → Type 0) (paths : List String) (path : String)
    → All P paths
    → contains paths path ≡ true
    → P path
All-contains P [] path all h = cc
All-contains P (p ∷ rest) path all h = elim (Bool-cases (str_eq p path)) [
  | inl same ↦ subst P ((eq_iff p path).0 same) all.0
  | inr other ↦ All-contains P rest path all.1 (ground arith)
]

allows-contains :
    (path : String) (paths : List String) → contains paths path ≡ true → allows path paths ≡ true
unfolding allows
allows-contains path [] h = cc
allows-contains path (p ∷ rest) h =
    ground (arith, eq_iff p path, eq_iff path p, allows-contains path rest)

texts-check_paths :
    (domains : List String) (found : Checked (List String)) {paths : List String}
    → (do texts ← found; _ ← check_paths domains texts; accepted (some texts))
      ≡ accepted (some paths)
    → check_paths domains paths ≡ accepted tt
texts-check_paths domains (rejected r) h = cc
texts-check_paths domains (accepted texts) h =
    let (x, checked, same) = bind_accepted (check_paths domains texts) _ h in cc

paths_from-check_paths :
    (domains : List String) (value : Json) (paths : List String)
    → paths_from domains value ≡ accepted (some paths)
    → check_paths domains paths ≡ accepted tt
unfolding paths_from
paths_from-check_paths domains null paths h = cc
paths_from-check_paths domains (bool b) paths h =
    texts-check_paths domains (unique_texts (bool b) paths_not_unique) h
paths_from-check_paths domains (int i) paths h =
    texts-check_paths domains (unique_texts (int i) paths_not_unique) h
paths_from-check_paths domains (float x) paths h =
    texts-check_paths domains (unique_texts (float x) paths_not_unique) h
paths_from-check_paths domains (text s) paths h =
    texts-check_paths domains (unique_texts (text s) paths_not_unique) h
paths_from-check_paths domains (arr xs) paths h =
    texts-check_paths domains (unique_texts (arr xs) paths_not_unique) h
paths_from-check_paths domains (obj fs) paths h =
    texts-check_paths domains (unique_texts (obj fs) paths_not_unique) h

-- What accepted permissions were made of.
from_dict-parts :
    (value : Fields) (p : ExperimentPermissions)
    → from_dict (obj value) ≡ accepted p
    → (all_in supported_domains p.domains ≡ true)
      × (paths_from p.domains (get "allowed_paths" value) ≡ accepted p.allowed_paths)
unfolding from_dict
from_dict-parts value p h =
    let (_, _, h1) =
      bind_accepted
        (demand (has_exactly value ("domains" ∷ "allowed_paths" ∷ "allow_scalar_sweep" ∷ []))
          permissions_shape)
        _ h in
    let (domains, _, h2) =
      bind_accepted (unique_texts (get "domains" value) domains_invalid) _ h1 in
    let (_, inside, h3) =
      bind_accepted (demand (all_in supported_domains domains) domains_invalid) _ h2 in
    let (paths, found, h4) = bind_accepted (paths_from domains (get "allowed_paths" value)) _ h3 in
    let (flag, _, h5) = bind_accepted (flag_from (get "allow_scalar_sweep" value)) _ h4 in
    let same = accepted-injective h5 in
    let permitted : all_in supported_domains domains ≡ true = demand-accepted _ _ inside in
    (
      rw (sym (ap (λ q. q.domains) same)) permitted,
      rw (sym (ap (λ q. q.domains) same), sym (ap (λ q. q.allowed_paths) same)) found,
    )

authorized_listed :
    (p : ExperimentPermissions) (paths : List String) (path : String)
    → p.allowed_paths ≡ some paths
    → contains p.domains (domain_of path) ≡ true
    → contains paths path ≡ true
    → authorizes_path p path ≡ true
unfolding authorizes_path within_paths
authorized_listed p paths path listed permitted member =
    rw (permitted, listed) (allows-contains path paths member)

All-of :
    (P : String → Type 0) (paths : List String)
    → ((path : String) → contains paths path ≡ true → P path)
    → All P paths
All-of P [] h = tt
All-of P (path ∷ rest) h =
    (h path (ground (arith, eq_iff path path)), All-of P rest (λ q member. h q (ground arith)))

-- The paths that permissions list; none where they leave the paths open.
abbrev pub listed_paths : Option (List String) → List String
listed_paths none = []
listed_paths (some paths) = paths

listed_authorized :
    (value : Fields) (p : ExperimentPermissions) (allowed : Option (List String))
    → p.allowed_paths ≡ allowed
    → paths_from p.domains (get "allowed_paths" value) ≡ accepted p.allowed_paths
    → All (λ path. authorizes_path p path ≡ true) (listed_paths allowed)
listed_authorized value p none listed found = tt
listed_authorized value p (some paths) listed found =
    let checked =
      paths_from-check_paths p.domains (get "allowed_paths" value) paths (rw (sym listed) found) in
    All-of (λ path. authorizes_path p path ≡ true) paths
      (λ path member.
        authorized_listed p paths path listed
          (All-contains (λ q. contains p.domains (domain_of q) ≡ true) paths path
            (check_paths-domains p.domains paths checked) member)
          member)

-- Permissions that the parser accepts have supported domains only, whether they list allowed paths or
-- leave them open, and they authorise each path that they list.
pub from_dict-authorizes :
    (value : Fields) (p : ExperimentPermissions)
    → from_dict (obj value) ≡ accepted p
    → (all_in supported_domains p.domains ≡ true)
      × All (λ path. authorizes_path p path ≡ true) (listed_paths p.allowed_paths)
from_dict-authorizes value p h =
    let (inside, found) = from_dict-parts value p h in
    (inside, listed_authorized value p p.allowed_paths refl found)

all_authorized-All :
    (p : ExperimentPermissions) (paths : List String)
    → all_authorized p paths ≡ true
    → All (λ path. authorizes_path p path ≡ true) paths
unfolding all_authorized
all_authorized-All p [] h = tt
all_authorized-All p (path ∷ rest) h = (ground arith, all_authorized-All p rest (ground arith))

some_path-ne : (paths : List String) → some_path paths ≡ true → paths ≢ []
unfolding some_path
some_path-ne [] h same = cc
some_path-ne (path ∷ rest) h same = cc

from_override-ok : (r : Result Fields) {o : Fields} → from_override r ≡ accepted o → r ≡ ok o
unfolding from_override
from_override-ok (ok override) h = cc
from_override-ok (err e) h = cc

-- A payload that is authorised as a single override is the parsed override itself; it names at least
-- one leaf, and every leaf that it names is a path that the permissions authorise.
pub authorize_single_override-permitted :
    (document override : Fields) (p : ExperimentPermissions)
    → authorize_single_override (obj document) p ≡ accepted override
    → (document ≡ override)
      × (paths_of (walk_leaves (obj override) "") ≢ [])
      × All (λ path. authorizes_path p path ≡ true) (paths_of (walk_leaves (obj override) ""))
unfolding authorize_single_override
authorize_single_override-permitted document override p h =
    let (o, parsed, h1) = bind_accepted (from_override (parse_state_override (obj document))) _ h in
    let paths = paths_of (walk_leaves (obj o) "") in
    let (_, named, h2) = bind_accepted (demand (some_path paths) no_effect) _ h1 in
    let (_, inside, h3) = bind_accepted (demand (all_authorized p paths) path_denied) _ h2 in
    let same = accepted-injective h3 in
    (
      parse-document document override (from_override-ok _ parsed ∙ ap ok same),
      rw (sym same) (some_path-ne paths (demand-accepted _ _ named)),
      rw (sym same) (all_authorized-All p paths (demand-accepted _ _ inside)),
    )
