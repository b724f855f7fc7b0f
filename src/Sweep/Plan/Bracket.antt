-- ===== src/Sweep/Plan/Bracket.antt =====
-- What a plan that parses is.
use mathlib.Core.Path.{subst}
use cuda_fractal_engine_stat.Json.Equality.{eq}
use cuda_fractal_engine_stat.Override.Draft.Parameters.{has_exactly}
use cuda_fractal_engine_stat.Prelude.{
  pos, suc, ◌≤◌, Bool, true, false, not, ◌&&◌, Option, none, some, List, [], ◌∷◌, ◌≡◌, refl, sym,
  ap, ◌∙◌, inl, inr, All, length, arith, leb, String, str_eq, eq_iff, if◌then◌else◌,
}
use cuda_fractal_engine_stat.Override.Error.{Result, ok, err}
use cuda_fractal_engine_stat.Json.Document.{
  Json, int, text, arr, obj, Items, nil, cons, Fields, lookup, get,
}
use cuda_fractal_engine_stat.Json.Paths.{split_dots}
use cuda_fractal_engine_stat.Override.Entry.{is_finite_number}
use cuda_fractal_engine_stat.Sweep.Plan.{
  PlanError, Checked, ◌>>=◌, present, refuse_if, ParsedPlan, has_bracket, direct_name, repeats,
  check_value, check_sweep_values, count_values, bracket_of, policy_of, axis_fields, with_path,
  path_of, parse_fields, parse_scalar_sweep_plan, axis_not_exact, axis_not_direct,
  values_not_a_bracket, unsupported_version, fields_not_exact,
}

bind_inr :
    {X Y : Type 0} (first : Checked X) (next : X → Checked Y) {y : Y}
    → (first >>= next) ≡ inr y
    → (x : X) × (first ≡ inr x) × (next x ≡ inr y)
bind_inr (inl e) next h = absurd (cc h)
bind_inr (inr x) next h = (x, refl, h)

present-some :
    {X : Type 0} (e : PlanError) (o : Option X) (x : X) → present e o ≡ inr x → o ≡ some x
present-some e none x h = absurd (cc h)
present-some e (some y) x h = cc h

-- No value equals an earlier one.
abbrev pub Distinct : List Json → List Json → Type 0
Distinct earlier [] = Unit
Distinct earlier (v ∷ vs) = (repeats v earlier ≡ false) × Distinct (v ∷ earlier) vs

accepted :
    {X : Type 0} (b : Bool) (e : PlanError) (x y : X)
    → (if b then inl e else inr x) ≡ inr y
    → (b ≡ false) × (x ≡ y)
accepted true e x y h = absurd (cc h)
accepted false e x y h = (refl, cc h)

kept :
    {X : Type 0} (b : Bool) (x y : X) → (if b then some x else none) ≡ some y → (b ≡ true) × (x ≡ y)
kept true x y h = (refl, cc h)
kept false x y h = absurd (cc h)

passed :
    {X : Type 0} (b : Bool) (e : PlanError) (first : Checked X) (x : X)
    → (if b then first else inl e) ≡ inr x
    → first ≡ inr x
passed true e first x h = h
passed false e first x h = absurd (cc h)

-- A name that is paired with its path.
paired :
    (o : Option String) (p path name : String)
    → with_path p o ≡ some (path, name)
    → (o ≡ some name) × (p ≡ path)
unfolding with_path
paired none p path name h = absurd (cc h)
paired (some n) p path name h = (ap some (cc h), cc h)

check_value_ok :
    (item : Json) (checked : List Json) (r : Result Bool) (v : Json)
    → check_value item checked r ≡ inr v
    → (r ≡ ok true) × (repeats item checked ≡ false) × (item ≡ v)
unfolding check_value
check_value_ok item checked (err e) v h = absurd (cc h)
check_value_ok item checked (ok false) v h = absurd (cc h)
check_value_ok item checked (ok true) v h =
    let (fresh, same) = accepted (repeats item checked) _ item v h in (refl, fresh, same)

-- What the loop over the values lets through.
record AreValues (items : Items) (checked values : List Json) : Type 0 where
  finite : All (λ v. is_finite_number v ≡ ok true) values
  distinct : Distinct checked values
  same_count : length values ≡ count_values items

check_sweep_values-AreValues :
    (items : Items) (checked values : List Json)
    → check_sweep_values items checked ≡ inr values
    → AreValues items checked values
unfolding check_sweep_values count_values
check_sweep_values-AreValues nil checked [] h = record {
  finite = tt;
  distinct = tt;
  same_count = refl;
}
check_sweep_values-AreValues nil checked (v ∷ vs) h = absurd (cc h)
check_sweep_values-AreValues (cons item rest) checked values h =
    let (v, first, h1) = bind_inr (check_value item checked (is_finite_number item)) _ h in
    let (vs, others, h2) = bind_inr (check_sweep_values rest (item ∷ checked)) _ h1 in
    let (fits, fresh, same) = check_value_ok item checked (is_finite_number item) v first in
    let ih = check_sweep_values-AreValues rest (item ∷ checked) vs others in
    let is_cons : item ∷ vs ≡ values = ap (λ w. w ∷ vs) same ∙ cc h2 in
    subst (AreValues (cons item rest) checked) is_cons (record {
      finite = (fits, ih.finite);
      distinct = (fresh, ih.distinct);
      same_count = ap suc ih.same_count;
    })

bracket_bounds :
    (o : Option Json) (items : Items)
    → bracket_of o ≡ some items
    → (3 ≤ count_values items) × (count_values items ≤ 9)
unfolding bracket_of
bracket_bounds (some (arr xs)) items h =
    let (bounded, same) = kept (leb 3 (count_values xs) && leb (count_values xs) 9) xs items h in
    rw (sym same) (ground arith)
bracket_bounds _ items h = absurd (cc h)

direct_parts :
    (parts : List String) (name : String)
    → direct_name parts ≡ some name
    → parts ≡ "params" ∷ name ∷ []
unfolding direct_name
direct_parts (domain ∷ found ∷ []) name h =
    let (direct, same) =
      kept (str_eq domain "params" && not (str_eq found "") && not (has_bracket found)) found name
        h in
    let is_params : str_eq domain "params" ≡ true = ground (arith, direct) in
    rw ((eq_iff domain "params").0 is_params, same) refl
direct_parts _ name h = absurd (cc h)

path_parts :
    (o : Option Json) (path name : String)
    → path_of o ≡ some (path, name)
    → split_dots path ≡ "params" ∷ name ∷ []
unfolding path_of
path_parts (some (text p)) path name h =
    let (direct, same) = paired (direct_name (split_dots p)) p path name h in
    rw (sym same) (direct_parts (split_dots p) name direct)
path_parts _ path name h = absurd (cc h)

-- Three to nine finite numbers, no two of them equal, for one direct leaf of `params`.
pub record IsBracket (plan : ParsedPlan) : Type 0 where
  pub at_least : 3 ≤ length plan.values
  pub at_most : length plan.values ≤ 9
  pub finite : All (λ v. is_finite_number v ≡ ok true) plan.values
  pub distinct : Distinct [] plan.values
  pub direct : split_dots plan.axis_path ≡ "params" ∷ plan.axis_name ∷ []

parse_fields-IsBracket :
    (fs : Fields) (plan : ParsedPlan) → parse_fields fs ≡ inr plan → IsBracket plan
unfolding parse_fields
parse_fields-IsBracket fs plan h =
    let (_, _, h1) =
      bind_inr (refuse_if (not (eq (get "sweep_version" fs) (int (pos 1)))) unsupported_version) _
        h in
    let (axis, _, h2) = bind_inr (present axis_not_exact (axis_fields (lookup "axis" fs))) _ h1 in
    let ((path, name), direct, h3) =
      bind_inr (present axis_not_direct (path_of (lookup "path" axis))) _ h2 in
    let (items, several, h4) =
      bind_inr (present values_not_a_bracket (bracket_of (lookup "values" axis))) _ h3 in
    let (values, checked, h5) = bind_inr (check_sweep_values items []) _ h4 in
    let (policy, _, h6) = bind_inr (policy_of (lookup "member_failure_policy" fs)) _ h5 in
    let v = check_sweep_values-AreValues items [] values checked in
    let (low, high) = bracket_bounds (lookup "values" axis) items (present-some _ _ _ several) in
    let found : record {
      axis_path = path;
      axis_name = name;
      values = values;
      member_failure_policy = policy;
    }
        ≡ plan =
      cc h6 in
    subst IsBracket found (record {
      at_least = rw v.same_count low;
      at_most = rw v.same_count high;
      finite = v.finite;
      distinct = v.distinct;
      direct = path_parts (lookup "path" axis) path name (present-some _ _ _ direct);
    })

-- A plan that parses has three to nine values, each a finite number and no two of them equal in
-- Python's sense, and its axis is one direct leaf of `params`.
pub parse_scalar_sweep_plan-IsBracket :
    (document : Json) (plan : ParsedPlan)
    → parse_scalar_sweep_plan document ≡ inr plan
    → IsBracket plan
unfolding parse_scalar_sweep_plan
parse_scalar_sweep_plan-IsBracket (obj fs) plan h = parse_fields-IsBracket fs plan (
    passed (has_exactly fs ("sweep_version" ∷ "axis" ∷ "member_failure_policy" ∷ []))
      fields_not_exact (parse_fields fs) plan h)
parse_scalar_sweep_plan-IsBracket _ plan h = absurd (cc h)
