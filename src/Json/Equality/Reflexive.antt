-- ===== src/Json/Equality/Reflexive.antt =====
-- Python's `==` holds of a decoded document and itself.
use cuda_fractal_engine_stat.Prelude.{
  ==_refl, ℤ, ℕ, ◌+◌, Bool, true, false, none, some, ◌≡◌, refl, eq_iff, String,
}
use cuda_fractal_engine_stat.Json.Document.{
  Float, finite, infinity, minus_infinity, not_a_number, Json, null, bool, int, float, text, arr,
  obj, Items, nil, cons, Fields, end, field, lookup, size, IsStrict, IsStrictItems, IsStrictFields,
  lookup-field_none, lookup-field_ne, lookup-field_self,
}
use cuda_fractal_engine_stat.Json.Equality.{eq, eq_items, eq_fields, number, eq_number, exact}

-- Every entry of the first object stands in the second.
abbrev pub Within : Fields → Fields → Type 0
Within end gs = Unit
Within (field k v rest) gs = (lookup k gs ≡ some v) × Within rest gs

Within-field :
    (fs gs : Fields) (k : String) (v : Json)
    → lookup k fs ≡ none
    → Within fs gs
    → Within fs (field k v gs)
Within-field end gs k v absent w = tt
Within-field (field j x rest) gs k v absent w =
    let (differ, gone) = lookup-field_none k j x rest absent in
    (lookup-field_ne j k v x gs (differ) w.0, Within-field rest gs k v gone w.1)

pub Within-self : (fs : Fields) → IsStrictFields fs → Within fs fs
unfolding IsStrict
Within-self end u = tt
Within-self (field k v rest) u =
    (lookup-field_self k v rest, Within-field rest rest k v u.0 (Within-self rest u.2))

exact_refl : (a b : ℕ) → eq_number (some (exact a b)) (some (exact a b)) ≡ true
unfolding eq_number
exact_refl a b = ==_refl (a + b)

number_refl_bool : (b : Bool) → eq_number (number (bool b)) (number (bool b)) ≡ true
unfolding number
number_refl_bool true = exact_refl _ 0
number_refl_bool false = exact_refl 0 0

number_refl_int : (i : ℤ) → eq_number (number (int i)) (number (int i)) ≡ true
unfolding number
number_refl_int i = exact_refl _ _

number_refl_float :
    (x : Float) → IsStrict (float x) → eq_number (number (float x)) (number (float x)) ≡ true
unfolding number eq_number IsStrict
number_refl_float (finite n) u = exact_refl _ _
number_refl_float infinity u = refl
number_refl_float minus_infinity u = refl
number_refl_float not_a_number u = absurd u

mutual
  unfolding eq IsStrict

  eq_refl_of : (v : Json) → IsStrict v → eq v v ≡ true
  eq_refl_of null u = refl
  eq_refl_of (bool b) u = number_refl_bool b
  eq_refl_of (int i) u = number_refl_int i
  eq_refl_of (float x) u = number_refl_float x u
  eq_refl_of (text s) u = (eq_iff s s).1 refl
  eq_refl_of (arr xs) u = eq_items_refl xs u
  eq_refl_of (obj fs) u = rw (==_refl (size fs), eq_fields_refl fs fs u (Within-self fs u))

  eq_items_refl : (xs : Items) → IsStrictItems xs → eq_items xs xs ≡ true
  eq_items_refl nil u = refl
  eq_items_refl (cons x xs) u = rw (eq_refl_of x u.0, eq_items_refl xs u.1)

  eq_fields_refl : (fs gs : Fields) → IsStrictFields fs → Within fs gs → eq_fields fs gs ≡ true
  eq_fields_refl end gs u w = refl
  eq_fields_refl (field k v rest) gs u w =
      rw (w.0, eq_refl_of v u.1, eq_fields_refl rest gs u.2 w.1)

-- A document that repeats no key and holds no NaN equals itself.
pub eq_refl : (v : Json) → IsStrict v → eq v v ≡ true
eq_refl v u = eq_refl_of v u
