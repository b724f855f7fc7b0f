-- ===== src/Surface/Ids.antt =====
-- The ids of a UI schema's controls.
use mathlib.Core.Path.{subst}
use cuda_fractal_engine_stat.Prelude.{
  false, Option, none, some, [], ◌∷◌, ◌++◌, ◌≡◌, refl, inl, inr, String, str_eq, eq_iff, if_case,
  arith,
}
use cuda_fractal_engine_stat.Json.Document.{Json, arr, Items, nil, cons, Fields, lookup}
use cuda_fractal_engine_stat.Surface.{
  Checked, ◌>>=◌, Controls, is_control, identified, add_control, add_controls, panel_parts,
  add_panels, schema_controls,
}

-- No id stands twice.
abbrev pub DistinctIds : Controls → Type 0
DistinctIds [] = Unit
DistinctIds ((_, id, _) ∷ rest) = (is_control id rest ≡ false) × DistinctIds rest

absent_after :
    (x p id : String) (c : Fields) (found : Controls)
    → is_control x found ≡ false
    → str_eq id x ≡ false
    → is_control x (found ++ ((p, id, c) ∷ [])) ≡ false
unfolding is_control
absent_after x p id c [] h differ = rw differ refl
absent_after x p id c ((q, other, d) ∷ rest) h differ =
    ground (arith, absent_after x p id c rest, differ)

add_distinct :
    (p id : String) (c : Fields) (found : Controls)
    → is_control id found ≡ false
    → DistinctIds found
    → DistinctIds (found ++ ((p, id, c) ∷ []))
unfolding is_control
add_distinct p id c [] fresh d = (refl, tt)
add_distinct p id c ((q, other, e) ∷ rest) fresh d =
    let differ : str_eq id other ≡ false = ground (arith, eq_iff id other, eq_iff other id) in
    let gone : is_control id rest ≡ false = ground arith in
    (absent_after other p id c rest d.0 differ, add_distinct p id c rest gone d.1)

-- The controls that a step returns are distinct.
abbrev Keeps : Checked Controls → Type 0
Keeps (inl e) = Unit
Keeps (inr found) = DistinctIds found

bind-Keeps :
    {X : Type 0} (first : Checked X) (next : X → Checked Controls)
    → ((x : X) → first ≡ inr x → Keeps (next x))
    → Keeps (first >>= next)
bind-Keeps (inl e) next h = tt
bind-Keeps (inr x) next h = h x refl

of_Keeps : (m : Checked Controls) (found : Controls) → m ≡ inr found → Keeps m → DistinctIds found
of_Keeps m found e k = subst Keeps e k

add_control-Keeps :
    (p : String) (c : Option (String × Fields)) (found : Controls)
    → DistinctIds found
    → Keeps (add_control p c found)
unfolding add_control
add_control-Keeps p none found d = tt
add_control-Keeps p (some (id, control)) found d =
    if_case Keeps (is_control id found) _ _ (λ _. tt)
      (λ fresh. add_distinct p id control found fresh d)

add_controls-Keeps :
    (p : String) (controls : Items) (found : Controls)
    → DistinctIds found
    → Keeps (add_controls p controls found)
unfolding add_controls
add_controls-Keeps p nil found d = d
add_controls-Keeps p (cons c rest) found d =
    bind-Keeps (add_control p (identified c) found) _ (λ more e.
      add_controls-Keeps p rest more
        (of_Keeps _ more e (add_control-Keeps p (identified c) found d)))

add_panels-Keeps :
    (panels : Items) (found : Controls) → DistinctIds found → Keeps (add_panels panels found)
unfolding add_panels
add_panels-Keeps nil found d = d
add_panels-Keeps (cons panel rest) found d = bind-Keeps (panel_parts panel) _ (λ (id, controls) _.
    bind-Keeps (add_controls id controls found) _ (λ more e.
      add_panels-Keeps rest more (of_Keeps _ more e (add_controls-Keeps id controls found d))))

panels_of_Keeps :
    (o : Option Json) (schema : Fields)
    → lookup "panels" schema ≡ o
    → Keeps (schema_controls schema)
unfolding schema_controls
panels_of_Keeps (some (arr panels)) schema e =
    rw (schema_controls, e) (add_panels-Keeps panels [] tt)
panels_of_Keeps none schema e = rw (schema_controls, e) tt
panels_of_Keeps (some _) schema e = rw (schema_controls, e) tt

-- The controls that a UI schema yields, where it yields any, have pairwise different ids.
pub schema_controls-DistinctIds :
    (schema : Fields) (found : Controls) → schema_controls schema ≡ inr found → DistinctIds found
schema_controls-DistinctIds schema found e =
    of_Keeps (schema_controls schema) found e (panels_of_Keeps (lookup "panels" schema) schema refl)
