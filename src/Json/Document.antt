-- ===== src/Json/Document.antt =====
-- Documents and the operations of a `dict` that the tool uses.
use cuda_fractal_engine_stat.Prelude.{
  ℕ, suc, ℤ, Bool, true, false, Option, none, some, List, [], ◌∷◌, ◌≡◌, refl, String, str_eq,
  eq_iff, arith, if◌then◌else◌,
}

-- A float that loading can return: a finite double, counted in 2 ^ -1074 (every finite double is a
-- whole number of these), an infinity, which a literal such as 1e999 gives, or, where the loading is
-- not strict, NaN.
pub data Float : Type 0 where
  finite : ℤ → Float
  infinity minus_infinity not_a_number : Float

mutual
  pub data Json : Type 0 where
    null : Json
    bool : Bool → Json
    int : ℤ → Json
    float : Float → Json
    text : String → Json
    arr : Items → Json
    obj : Fields → Json

  pub data Items : Type 0 where
    nil : Items
    cons : Json → Items → Items

  -- The entries of a `dict`, in insertion order.
  pub data Fields : Type 0 where
    end : Fields
    field : String → Json → Fields → Fields

-- `d.get(key)`, with `none` for an absent key.
unfoldable pub lookup : String → Fields → Option Json
lookup k end = none
lookup k (field j v fs) = if str_eq j k then some v else lookup k fs

-- `d[key] = value`: in place where the key is present, at the end where it is not.
unfoldable pub set : String → Json → Fields → Fields
set k v end = field k v end
set k v (field j w fs) = if str_eq j k then field j v fs else field j w (set k v fs)

-- `list(d)`.
unfoldable pub keys : Fields → List String
keys end = []
keys (field k v fs) = k ∷ keys fs

-- `len(d)`.
unfoldable pub size : Fields → ℕ
size end = 0
size (field k v fs) = suc (size fs)

-- `len` of a list.
unfoldable pub count_items : Items → ℕ
count_items nil = 0
count_items (cons x xs) = suc (count_items xs)

-- `d.get(key)` as a value, `None` for an absent key.
unfoldable pub get : String → Fields → Json
get k fs = elim (lookup k fs) [ none ↦ null | some v ↦ v ]

abbrev pub has_key : String → Fields → Bool
has_key k fs = elim (lookup k fs) [ none ↦ false | some _ ↦ true ]

-- What strict loading returns: no key stands twice, as in every `dict`, and no NaN, at every depth.
unfoldable mutual
  pub IsStrict : Json → Type 0
  IsStrict (float not_a_number) = ⊥
  IsStrict (arr xs) = IsStrictItems xs
  IsStrict (obj fs) = IsStrictFields fs
  IsStrict _ = Unit

  pub IsStrictItems : Items → Type 0
  IsStrictItems nil = Unit
  IsStrictItems (cons x xs) = IsStrict x × IsStrictItems xs

  pub IsStrictFields : Fields → Type 0
  IsStrictFields end = Unit
  IsStrictFields (field k v fs) = (lookup k fs ≡ none) × IsStrict v × IsStrictFields fs

-- The first key of an object differs from a key that the object lacks.
pub lookup-field_none :
    (k j : String) (v : Json) (rest : Fields)
    → lookup k (field j v rest) ≡ none
    → (str_eq k j ≡ false) × (lookup k rest ≡ none)
unfolding lookup
lookup-field_none k j v rest h = ground (arith, eq_iff j k, eq_iff k j)

pub lookup_end : (j : String) (v : Json) → lookup j end ≡ some v → ⊥
unfolding lookup
lookup_end j v h = ground arith

module _ (k : String) (x : Json) (rest : Fields) (j : String) (v : Json) where
  pub field_self : str_eq k j ≡ true → lookup j (field k x rest) ≡ some v → x ≡ v
  unfolding lookup
  field_self same found = ground arith

  pub field_other : str_eq k j ≡ false → lookup j (field k x rest) ≡ some v → lookup j rest ≡ some v
  unfolding lookup
  field_other differ found = ground arith

module _ (k j : String) (v w : Json) (rest : Fields) where
  pub lookup-field_ne :
      str_eq j k ≡ false → lookup k rest ≡ some w → lookup k (field j v rest) ≡ some w
  unfolding lookup
  lookup-field_ne differ found = ground arith

pub lookup-field_self : (k : String) (v : Json) (rest : Fields) → lookup k (field k v rest) ≡ some v
unfolding lookup
lookup-field_self k v rest = ground (arith, eq_iff k k)

pub lookup-set :
    (j k : String) (v : Json) (fs : Fields)
    → lookup j (set k v fs) ≡ (if str_eq k j then some v else lookup j fs)
unfolding lookup set
lookup-set j k v end = refl
lookup-set j k v (field i w fs) =
    ground (arith, eq_iff k j, eq_iff i k, eq_iff i j, lookup-set j k v fs)

-- Assigning to a key that is present keeps the keys and their order.
pub keys-set :
    (k : String) (v w : Json) (fs : Fields) → lookup k fs ≡ some w → keys (set k v fs) ≡ keys fs
unfolding lookup set keys
keys-set k v w end h = ground arith
keys-set k v w (field j u fs) h = ground (arith, keys-set k v w fs)
