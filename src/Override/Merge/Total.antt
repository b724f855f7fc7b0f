-- ===== src/Override/Merge/Total.antt =====
-- A shape check that passes is enough for the merge to succeed.
use cuda_fractal_engine_stat.Prelude.{Option, none, some, ◌≡◌, refl, ◌∙◌, String, arith}
use cuda_fractal_engine_stat.Override.Error.{ok, bind_ok}
use cuda_fractal_engine_stat.Json.Document.{
  Json, obj, Fields, end, field, lookup, set, keys, IsStrict, IsStrictFields, lookup-set, keys-set,
  lookup-field_none,
}
use cuda_fractal_engine_stat.Json.Paths.{child_path}
use cuda_fractal_engine_stat.Override.Merge.{
  validate_existing_object_shape, validate_existing_value, deep_merge_existing, merge_value,
}

-- Assigning to a key that the override lacks does not change its check.
shape-set :
    (k : String) (w : Json) (rest target : Fields) (p : String)
    → lookup k rest ≡ none
    → validate_existing_object_shape rest (set k w target) p
      ≡ validate_existing_object_shape rest target p
unfolding validate_existing_object_shape
shape-set k w end target p h = refl
shape-set k w (field j v rest) target p h =
    let (differ, absent) = lookup-field_none k j v rest h in
    rw (lookup-set, differ, shape-set k w rest target p absent)

shape_cons :
    (k : String) (v : Json) (rest target : Fields) (p : String)
    → validate_existing_object_shape (field k v rest) target p ≡ ok tt
    → (validate_existing_value v (lookup k target) (child_path p k) ≡ ok tt)
      × (validate_existing_object_shape rest target p ≡ ok tt)
unfolding validate_existing_object_shape
shape_cons k v rest target p h =
    let (_, first, others) = bind_ok (validate_existing_value v (lookup k target) _) _ h in
    (first, others)

-- The outcome of a merge that keeps the keys of its target.
pub record Merges (ov target : Fields) : Type 0 where
  pub merged : Fields
  pub runs : deep_merge_existing ov target ≡ ok merged
  pub same_keys : keys merged ≡ keys target

mutual
  unfolding deep_merge_existing validate_existing_object_shape IsStrict

  pub merge_total :
      (ov target : Fields) (p : String)
      → IsStrictFields ov
      → validate_existing_object_shape ov target p ≡ ok tt
      → Merges ov target
  merge_total end target p u h = record { merged = target; runs = refl; same_keys = refl }
  merge_total (field k v rest) target p u h =
      let (first, others) = shape_cons k v rest target p h in
      let (w, c, run, present) =
        merge_value_total k v (lookup k target) (child_path p k) u.1 first in
      let m = merge_total rest (set k w target) p u.2 (shape-set k w rest target p u.0 ∙ others) in
      record {
        merged = m.merged;
        runs = rw run m.runs;
        same_keys = m.same_keys ∙ keys-set k w c target present;
      }

  merge_value_total :
      (k : String) (v : Json) (current : Option Json) (p : String)
      → IsStrict v
      → validate_existing_value v current p ≡ ok tt
      → (w : Json) × (c : Json) × (merge_value k v current ≡ ok w) × (current ≡ some c)
  merge_value_total k (obj fs) none p u h = ground arith
  merge_value_total k (obj fs) (some (obj base)) p u h =
      let m = merge_total fs base p u h in (obj m.merged, obj base, rw m.runs, refl)
  merge_value_total k (obj fs) (some w) p u h = ground arith
  merge_value_total k v none p u h = ground arith
  merge_value_total k v (some c) p u h = (v, c, refl, refl)

-- An override that repeats no key and holds no NaN and passes the shape check against a base merges
-- into it, and the merge has exactly the base's keys, in the base's order.
pub deep_merge_existing-Merges :
    (ov target : Fields) (p : String)
    → IsStrictFields ov
    → validate_existing_object_shape ov target p ≡ ok tt
    → Merges ov target
deep_merge_existing-Merges ov target p u h = merge_total ov target p u h
