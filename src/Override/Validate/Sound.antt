-- ===== src/Override/Validate/Sound.antt =====
-- What an override that passes `_validate_params_and_view` can touch.
use mathlib.Core.Path.{subst}
use cuda_fractal_engine_stat.Prelude.{
  Bool, true, ◌≡◌, refl, ap, ◌∙◌, ◌⊎◌, inl, inr, some, List, [], ◌∷◌, ◌++◌, String, str_eq, eq_iff,
  Bool-cases, if◌then◌else◌, All, contains, Option-cases, arith,
}
use cuda_fractal_engine_stat.Override.Error.{
  Result, ok, ◌>>◌, require, bind_ok, ok-injective, not_authorable, companion_not_finite,
  camera_incomplete, OverrideError,
}
use cuda_fractal_engine_stat.Json.Document.{Json, obj, Items, nil, cons, Fields, lookup}
use cuda_fractal_engine_stat.Json.Paths.{split_dots, resolve_path}
use cuda_fractal_engine_stat.Override.Entry.{
  Index, find_entry, authoring_entries, is_finite_number, validate_value_against_entry,
}
use cuda_fractal_engine_stat.Override.Validate.{
  Leaves, paths_of, leaves_of, check_entry, check_indexed, domain_override, check_shape,
  check_domain, rule_paths, same_bool, apply_rules, companion_rules, is_plain_number,
  check_companion, check_view_leaf, check_view, check_params_leaf, check_params,
  validate_params_and_view,
}

-- The leaf has an entry, and its value satisfies the entry.
abbrev pub IsAuthorised : Index → String → Json → Type 0
IsAuthorised index path value =
    (entry : Fields) × (find_entry path index ≡ some entry)
    × (validate_value_against_entry path value entry ≡ ok tt)

-- One of the surface's rules names the path as its companion.
abbrev pub IsRuled : Items → String → Type 0
IsRuled nil path = ⊥
IsRuled (cons r rest) path =
    ((ordinary : String) × (rule_paths r ≡ ok (path, ordinary))) ⊎ IsRuled rest path

-- The leaf is a camera companion by one of the surface's rules: a finite number where the base holds a
-- number.
abbrev pub IsCompanion : Fields → Items → String → Json → Type 0
IsCompanion base rules path value =
    IsRuled rules path
    × (is_finite_number value ≡ ok true)
    × (is_plain_number (resolve_path (split_dots path) (obj base)) ≡ true)

require_ok : (b : Bool) (e : OverrideError) → require b e ≡ ok tt → b ≡ true
require_ok b e h = ground arith

-- `a >> b` that succeeds.
then_ok : (a b : Result (Unit {0})) → (a >> b) ≡ ok tt → (a ≡ ok tt) × (b ≡ ok tt)
then_ok a b h = let (_, first, second) = bind_ok a _ h in (first, second)

check_params_leaf_sound :
    (index : Index) (path : String) (value : Json)
    → check_params_leaf path value (find_entry path index) ≡ ok tt
    → IsAuthorised index path value
unfolding check_params_leaf
check_params_leaf_sound index path value h = elim (Option-cases (find_entry path index)) [
  | inl absent ↦ absurd (ground arith)
  | inr (entry, found) ↦ (entry, found, ground arith)
]

check_params_sound :
    (index : Index) (leaves : Leaves)
    → check_params index leaves ≡ ok tt
    → All (λ (path, value). IsAuthorised index path value) leaves
unfolding check_params
check_params_sound index [] h = tt
check_params_sound index ((path, value) ∷ rest) h =
    let (first, others) = then_ok (check_params_leaf path value (find_entry path index)) _ h in
    (check_params_leaf_sound index path value first, check_params_sound index rest others)

-- The companion paths that the loop over the rules has gathered are the rules'.
abbrev Ruled : List String → Items → Type 0
Ruled companions rules = (path : String) → contains companions path ≡ true → IsRuled rules path

check_companion_sound :
    (base : Fields) (rules : Items) (companions : List String) (path : String) (value : Json)
    → Ruled companions rules
    → check_companion base companions path value ≡ ok tt
    → IsCompanion base rules path value
unfolding check_companion
check_companion_sound base rules companions path value ruled h =
    let (_, listed, h1) = bind_ok (require (contains companions path) (not_authorable path)) _ h in
    let (fits, finite, h2) = bind_ok (is_finite_number value) _ h1 in
    let (_, fit, plain) = bind_ok (require fits (companion_not_finite path)) _ h2 in
    (ruled path (require_ok _ _ listed), finite ∙ ap ok (require_ok _ _ fit), require_ok _ _ plain)

view_leaf_sound :
    (index : Index) (base : Fields) (rules : Items) (companions : List String) (path : String)
    (value : Json)
    → Ruled companions rules
    → check_view_leaf base companions path value (find_entry path index) ≡ ok tt
    → check_entry path value (find_entry path index) ≡ ok tt
    → IsAuthorised index path value ⊎ IsCompanion base rules path value
unfolding check_view_leaf check_entry
view_leaf_sound index base rules companions path value ruled h k =
    elim (Option-cases (find_entry path index)) [
      | inl absent ↦
          inr (check_companion_sound base rules companions path value ruled (ground arith))
      | inr (entry, found) ↦ inl (entry, found, ground arith)
    ]

check_view_sound :
    (index : Index) (base : Fields) (rules : Items) (companions : List String) (leaves : Leaves)
    → Ruled companions rules
    → check_view index base companions leaves ≡ ok tt
    → check_indexed index leaves ≡ ok tt
    → All
        (λ (path, value). IsAuthorised index path value ⊎ IsCompanion base rules path value)
        leaves
unfolding check_view check_indexed
check_view_sound index base rules companions [] ruled h k = tt
check_view_sound index base rules companions ((path, value) ∷ rest) ruled h k =
    let (first, others) =
      then_ok (check_view_leaf base companions path value (find_entry path index)) _ h in
    let (first', others') = then_ok (check_entry path value (find_entry path index)) _ k in
    (
      view_leaf_sound index base rules companions path value ruled first first',
      check_view_sound index base rules companions rest ruled others others',
    )

-- Each rule of the surface, with its two paths either both requested or both left out.
abbrev pub IsPaired : List String → Items → Type 0
IsPaired requested nil = Unit
IsPaired requested (cons r rest) =
    ((companion ordinary : String) × (rule_paths r ≡ ok (companion, ordinary))
      × (contains requested ordinary ≡ contains requested companion))
    × IsPaired requested rest

same_bool_eq : (a b : Bool) → same_bool a b ≡ true → a ≡ b
same_bool_eq a b h = ground arith

apply_rules_sound :
    (requested : List String) (rules : Items) (companions edits : List String)
    {out : List String × List String}
    → apply_rules requested rules companions edits ≡ ok out
    → IsPaired requested rules
unfolding apply_rules
apply_rules_sound requested nil companions edits h = tt
apply_rules_sound requested (cons r rest) companions edits h =
    let ((companion, ordinary), named, h') = bind_ok (rule_paths r) _ h in
    let (_, paired, others) = bind_ok (require _ _) _ h' in
    (
      (companion, ordinary, named, same_bool_eq _ _ (require_ok _ _ paired)),
      apply_rules_sound requested rest _ _ others,
    )

contains-append_one :
    (xs : List String) (y path : String)
    → contains (xs ++ y ∷ []) path ≡ true
    → (contains xs path ≡ true) ⊎ (y ≡ path)
contains-append_one [] y path h = inr ((eq_iff y path).0 (ground arith))
contains-append_one (x ∷ xs) y path h = elim (Bool-cases (str_eq x path)) [
  | inl same ↦ inl (rw same refl)
  | inr other ↦ elim (contains-append_one xs y path (ground arith)) [
    | inl member ↦ inl (rw (other, member) refl)
    | inr same ↦ inr same
  ]
]

apply_rules-Ruled :
    (requested : List String) (rules all : Items) (companions edits : List String)
    {out : List String × List String}
    → apply_rules requested rules companions edits ≡ ok out
    → Ruled companions all
    → ((path : String) → IsRuled rules path → IsRuled all path)
    → Ruled out.0 all
unfolding apply_rules
apply_rules-Ruled requested nil all companions edits h ruled inside =
    subst (λ cs. Ruled cs all) (ap (λ t. t.0) (ok-injective h)) ruled
apply_rules-Ruled requested (cons r rest) all companions edits h ruled inside =
    let ((companion, ordinary), named, h') = bind_ok (rule_paths r) _ h in
    let (_, _, others) =
      bind_ok
        (require (same_bool (contains requested ordinary) (contains requested companion))
          (camera_incomplete ordinary companion))
        _ h' in
    apply_rules-Ruled requested rest all (companions ++ companion ∷ [])
      (if contains requested ordinary then edits ++ ordinary ∷ [] else edits) others
      (λ path listed. elim (contains-append_one companions companion path listed) [
        | inl member ↦ ruled path member
        | inr same ↦ inside path (inl (ordinary, named ∙ ap (λ c. ok (c, ordinary)) same))
      ])
      (λ path later. inside path (inr later))

check_domain_parts :
    (index : Index) (override base : Fields) (domain : String)
    → check_domain index override base domain ≡ ok tt
    → (check_shape domain (domain_override domain override) (lookup domain base) ≡ ok tt)
      × (check_indexed index (leaves_of domain override) ≡ ok tt)
unfolding check_domain
check_domain_parts index override base domain h =
    then_ok (check_shape domain (domain_override domain override) (lookup domain base)) _ h

-- What holds of an override that passes the checks, against the packet's authoring surface.
pub record IsAuthorable (override base surface : Fields) : Type 0 where
  pub index : Index
  pub rules : Items
  pub indexed : authoring_entries surface ≡ ok index
  pub ruled : companion_rules surface ≡ ok rules
  pub params : All (λ (path, value). IsAuthorised index path value) (leaves_of "params" override)
  pub view :
      All
        (λ (path, value). IsAuthorised index path value ⊎ IsCompanion base rules path value)
        (leaves_of "view" override)
  pub params_shape :
      check_shape "params" (domain_override "params" override) (lookup "params" base) ≡ ok tt
  pub view_shape : check_shape "view" (domain_override "view" override) (lookup "view" base) ≡ ok tt
  pub paired : IsPaired (paths_of (leaves_of "params" override ++ leaves_of "view" override)) rules

-- If the checks of `params` and `view` pass, every requested leaf of `params` has an entry on the
-- authoring surface that its value satisfies, every requested leaf of `view` has such an entry or is a
-- finite number at the companion path of one of the surface's rules, where the base holds a number,
-- and the two paths of each companion rule are requested together or not at all.
pub validate-IsAuthorable :
    (override base surface : Fields) (edits : List String)
    → validate_params_and_view override base surface ≡ ok edits
    → IsAuthorable override base surface
unfolding validate_params_and_view
validate-IsAuthorable override base surface edits h =
    let (index, indexed, h1) = bind_ok (authoring_entries surface) _ h in
    let (_, in_params, h2) = bind_ok (check_domain index override base "params") _ h1 in
    let (_, in_view, h3) = bind_ok (check_domain index override base "view") _ h2 in
    let (rules, ruled, h4) = bind_ok (companion_rules surface) _ h3 in
    let ((companions, _), paired, h5) = bind_ok (apply_rules _ rules [] []) _ h4 in
    let (_, view, h6) = bind_ok (check_view index base companions _) _ h5 in
    let (_, params, _) = bind_ok (check_params index _) _ h6 in
    record {
      index = index;
      rules = rules;
      indexed = indexed;
      ruled = ruled;
      params = check_params_sound index _ params;
      view =
          check_view_sound index base rules companions _
            (apply_rules-Ruled _ rules rules [] [] paired (λ path h. cc) (λ path h. h)) view
            (check_domain_parts index override base "view" in_view).1;
      params_shape = (check_domain_parts index override base "params" in_params).0;
      view_shape = (check_domain_parts index override base "view" in_view).0;
      paired = apply_rules_sound _ rules [] [] paired;
    }
