-- ===== src/Sweep/Plan/Concrete.antt =====
-- The override of one member against the fixed override.
use mathlib.Core.Path.{subst}
use cuda_fractal_engine_stat.Prelude.{
  false, Option, none, some, ◌≡◌, refl, sym, ◌∙◌, String, str_eq, eq_iff,
}
use cuda_fractal_engine_stat.Json.Document.{
  Json, obj, Fields, end, field, lookup, set, lookup-set, lookup-field_self,
}
use cuda_fractal_engine_stat.Sweep.Plan.{concrete_override, assign_axis, base_value}

-- What the member's override is, against the fixed one.
pub record Assigns (fixed : Fields) (name : String) (value : Json) (concrete : Fields)
    : Type 0 where
  pub axis : base_value concrete name ≡ some value
  pub others : (k : String) → str_eq name k ≡ false → base_value concrete k ≡ base_value fixed k
  pub domains : (d : String) → str_eq "params" d ≡ false → lookup d concrete ≡ lookup d fixed

base_value_held :
    (fs params : Fields) (k : String)
    → lookup "params" fs ≡ some (obj params)
    → base_value fs k ≡ lookup k params
unfolding base_value
base_value_held fs params k e = rw (base_value, e) refl

base_value_absent : (fs : Fields) (k : String) → lookup "params" fs ≡ none → base_value fs k ≡ none
unfolding base_value
base_value_absent fs k e = rw (base_value, e) refl

lookup_only :
    (name k : String) (value : Json)
    → str_eq name k ≡ false
    → lookup k (field name value end) ≡ none
unfolding lookup
lookup_only name k value differ = rw differ refl

concrete_of :
    (fixed : Fields) (name : String) (value : Json) (concrete : Fields) (held : Option Json)
    → lookup "params" fixed ≡ held
    → assign_axis fixed name value held ≡ some concrete
    → Assigns fixed name value concrete
unfolding assign_axis
concrete_of fixed name value concrete none e h =
    let only = field name value end in
    let made : set "params" (obj only) fixed ≡ concrete = cc h in
    let held =
      λ (k : String). base_value_held _ only k (lookup-set "params" "params" (obj only) fixed) in
    subst (Assigns fixed name value) made (record {
      axis = held name ∙ lookup-field_self name value end;
      others =
          λ k differ. held k ∙ lookup_only name k value differ ∙ sym (base_value_absent fixed k e);
      domains = λ d differ. lookup-set d "params" (obj only) fixed ∙ rw differ refl;
    })
concrete_of fixed name value concrete (some (obj params)) e h =
    let new = set name value params in
    let made : set "params" (obj new) fixed ≡ concrete = cc h in
    let held =
      λ (k : String). base_value_held _ new k (lookup-set "params" "params" (obj new) fixed) in
    subst (Assigns fixed name value) made (record {
      axis = held name ∙ lookup-set name name value params ∙ rw ((eq_iff name name).1 refl) refl;
      others = λ k differ.
          held k
          ∙ lookup-set k name value params
          ∙ rw differ (sym (base_value_held fixed params k e));
      domains = λ d differ. lookup-set d "params" (obj new) fixed ∙ rw differ refl;
    })
concrete_of fixed name value concrete (some _) e h = absurd (cc h)

-- Where a member's override can be made, it gives the value under the axis in `params`, and agrees
-- with the fixed override on every other parameter and on every other domain.
pub concrete_override-Assigns :
    (fixed : Fields) (name : String) (value : Json) (concrete : Fields)
    → concrete_override fixed name value ≡ some concrete
    → Assigns fixed name value concrete
unfolding concrete_override
concrete_override-Assigns fixed name value concrete h =
    concrete_of fixed name value concrete (lookup "params" fixed) refl h
