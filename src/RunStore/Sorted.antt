-- ===== src/RunStore/Sorted.antt =====
-- The key order of `json.dumps(..., sort_keys=True)`, with which
-- src/cuda_fractal_state_tool/automated_run_store.py encodes events and the active turn.
use Prim.Native.Char.{code}
use cuda_fractal_engine_stat.Prelude.{
  Bool, true, false, String, ltb, if◌then◌else◌, ◌≡◌, refl, ap, ◌∙◌, Bool-cases, inl, inr, arith,
}
use cuda_fractal_engine_stat.Json.Document.{
  Json, null, bool, int, float, text, arr, obj, Items, nil, cons, Fields, end, field,
}

-- `left < right` of texts, by code points.
unfoldable pub before : String → String → Bool
before String.[] String.[] = false
before String.[] (String.◌∷◌ d t) = true
before (String.◌∷◌ c s) String.[] = false
before (String.◌∷◌ c s) (String.◌∷◌ d t) =
    let rest = before s t in
    if ltb (code c) (code d) then true else if ltb (code d) (code c) then false else rest

unfoldable pub insert_field : String → Json → Fields → Fields
insert_field k v end = field k v end
insert_field k v (field j w fs) =
    let rest = insert_field k v fs in
    if before j k then field j w rest else field k v (field j w fs)

-- The document that is read again where `sort_keys` has written it.
unfoldable mutual
  unfolding insert_field

  pub sort_keys : Json → Json
  sort_keys (arr xs) = arr (sort_items xs)
  sort_keys (obj fs) = obj (sort_fields fs)
  sort_keys v = v

  pub sort_items : Items → Items
  sort_items nil = nil
  sort_items (cons x xs) = cons (sort_keys x) (sort_items xs)

  pub sort_fields : Fields → Fields
  sort_fields end = end
  sort_fields (field k v fs) = insert_field k (sort_keys v) (sort_fields fs)

before_asym : (s t : String) → before s t ≡ true → before t s ≡ false
unfolding before
before_asym String.[] String.[] h = refl
before_asym String.[] (String.◌∷◌ d t) h = refl
before_asym (String.◌∷◌ c s) String.[] h = cc
before_asym (String.◌∷◌ c s) (String.◌∷◌ d t) h = ground (arith, before_asym s t)

-- The key stands before none of which it follows.
abbrev Follows : String → Fields → Type 0
Follows k end = Unit
Follows k (field j w fs) = before j k ≡ false

InOrder : Fields → Type 0
InOrder end = Unit
InOrder (field k v fs) = Follows k fs × InOrder fs

insert-Follows :
    (j k : String) (v : Json) (fs : Fields)
    → before j k ≡ true
    → Follows j fs
    → Follows j (insert_field k v fs)
unfolding insert_field
insert-Follows j k v end first f = before_asym j k first
insert-Follows j k v (field i w fs) first f = elim (Bool-cases (before i k)) [
  | inl later ↦ rw later f
  | inr here ↦ rw here (before_asym j k first)
]

insert-InOrder : (k : String) (v : Json) (fs : Fields) → InOrder fs → InOrder (insert_field k v fs)
unfolding insert_field InOrder
insert-InOrder k v end o = (tt, tt)
insert-InOrder k v (field j w fs) (f, o) = elim (Bool-cases (before j k)) [
  | inl later ↦ rw later (insert-Follows j k v fs later f, insert-InOrder k v fs o)
  | inr here ↦ rw here (here, (f, o))
]

sort_fields-InOrder : (fs : Fields) → InOrder (sort_fields fs)
unfolding sort_keys InOrder
sort_fields-InOrder end = tt
sort_fields-InOrder (field k v fs) =
    insert-InOrder k (sort_keys v) (sort_fields fs) (sort_fields-InOrder fs)

-- The values alone are sorted.
sort_values : Fields → Fields
sort_values end = end
sort_values (field k v fs) = field k (sort_keys v) (sort_values fs)

insert-values :
    (k : String) (v : Json) (fs : Fields)
    → sort_values (insert_field k v fs) ≡ insert_field k (sort_keys v) (sort_values fs)
unfolding insert_field sort_values
insert-values k v end = refl
insert-values k v (field j w fs) = elim (Bool-cases (before j k)) [
  | inl later ↦ rw (later, insert-values k v fs) refl
  | inr here ↦ rw here refl
]

insert_first :
    (k : String) (v : Json) (fs : Fields)
    → Follows k fs
    → insert_field k v (sort_values fs) ≡ field k v (sort_values fs)
unfolding insert_field sort_values
insert_first k v end f = refl
insert_first k v (field j w fs) f = rw f refl

sort-InOrder : (fs : Fields) → InOrder fs → sort_fields fs ≡ sort_values fs
unfolding sort_keys sort_values InOrder
sort-InOrder end o = refl
sort-InOrder (field k v fs) (f, o) = rw (sort-InOrder fs o) (insert_first k (sort_keys v) fs f)

mutual
  unfolding sort_keys sort_values

  sort_keys_again : (v : Json) → sort_keys (sort_keys v) ≡ sort_keys v
  sort_keys_again null = refl
  sort_keys_again (bool b) = refl
  sort_keys_again (int i) = refl
  sort_keys_again (float x) = refl
  sort_keys_again (text s) = refl
  sort_keys_again (arr xs) = ap arr (sort_items_again xs)
  sort_keys_again (obj fs) =
      ap obj (sort-InOrder (sort_fields fs) (sort_fields-InOrder fs) ∙ sort_values_again fs)

  sort_items_again : (xs : Items) → sort_items (sort_items xs) ≡ sort_items xs
  sort_items_again nil = refl
  sort_items_again (cons x xs) = rw (sort_keys_again x, sort_items_again xs) refl

  sort_values_again : (fs : Fields) → sort_values (sort_fields fs) ≡ sort_fields fs
  sort_values_again end = refl
  sort_values_again (field k v fs) =
      insert-values k (sort_keys v) (sort_fields fs)
      ∙ rw (sort_keys_again v, sort_values_again fs) refl

-- What has been sorted stays as it is.
pub sort_keys_idem : (v : Json) → sort_keys (sort_keys v) ≡ sort_keys v
sort_keys_idem v = sort_keys_again v
