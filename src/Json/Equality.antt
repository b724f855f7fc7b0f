-- ===== src/Json/Equality.antt =====
-- Python's `==` and `<` on decoded values. A `bool` counts as 0 or 1, an `int` and a `float` compare
-- by their exact values, and a `dict` compares without regard to order. NaN differs from itself, but a
-- list or a `dict` compares its values by identity first, and `json.loads` returns one NaN object.
pub mod Reflexive
use cuda_fractal_engine_stat.Prelude.{
  ℕ, ◌+◌, ◌*◌, ℤ, pos, pos_part, neg_part, Bool, true, false, ◌&&◌, ◌||◌, Option, none, some, ◌≡◌,
  refl, str_eq, ltb, ◌==◌, if◌then◌else◌,
}
use Prim.Native.Nat.{◌^◌}
use cuda_fractal_engine_stat.Json.Document.{
  Float, finite, infinity, minus_infinity, not_a_number, Json, null, bool, int, float, text, arr,
  obj, Items, nil, cons, Fields, end, field, lookup, size,
}

-- The quanta of a float in one unit.
quanta : ℕ
quanta = 2 ^ 1074

-- An exact value: `above - below` quanta, an infinity, or NaN.
pub data Value : Type 0 where
  exact : ℕ → ℕ → Value
  above_all below_all unordered : Value

-- The value of an instance of `int` or `float`; `bool` is a subclass of `int`.
unfoldable pub number : Json → Option Value
unfolding quanta
number (bool true) = some (exact quanta 0)
number (bool false) = some (exact 0 0)
number (int i) = some (exact (pos_part i * quanta) (neg_part i * quanta))
number (float (finite n)) = some (exact (pos_part n) (neg_part n))
number (float infinity) = some above_all
number (float minus_infinity) = some below_all
number (float not_a_number) = some unordered
number _ = none

unfoldable pub eq_value : Value → Value → Bool
eq_value (exact a b) (exact c d) = a + d == c + b
eq_value above_all above_all = true
eq_value below_all below_all = true
eq_value _ _ = false

unfoldable pub lt_value : Value → Value → Bool
lt_value (exact a b) (exact c d) = ltb (a + d) (c + b)
lt_value (exact a b) above_all = true
lt_value below_all (exact c d) = true
lt_value below_all above_all = true
lt_value _ _ = false

unfoldable pub eq_number : Option Value → Option Value → Bool
unfolding eq_value
eq_number (some v) (some w) = eq_value v w
eq_number _ _ = false

abbrev pub is_nan : Json → Bool
is_nan (float not_a_number) = true
is_nan _ = false

-- `left == right`.
unfoldable mutual
  pub eq : Json → Json → Bool
  eq null null = true
  eq (text s) (text t) = str_eq s t
  eq (arr xs) (arr ys) = eq_items xs ys
  eq (obj fs) (obj gs) = size fs == size gs && eq_fields fs gs
  eq a b = eq_number (number a) (number b)

  pub eq_items : Items → Items → Bool
  eq_items nil nil = true
  eq_items (cons x xs) (cons y ys) = (eq x y || (is_nan x && is_nan y)) && eq_items xs ys
  eq_items _ _ = false

  pub eq_fields : Fields → Fields → Bool
  eq_fields end gs = true
  eq_fields (field k v fs) gs =
      let found : Bool = elim (lookup k gs) [
        | none ↦ false
        | some w ↦ eq v w || (is_nan v && is_nan w)
      ] in
      found && eq_fields fs gs
