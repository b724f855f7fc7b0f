-- ===== src/Override/Merge/Lookup.antt =====
-- What the merged state holds at a path, against the override and the base.
use mathlib.Core.Path.{subst}
use cuda_fractal_engine_stat.Prelude.{
  Bool, true, false, Option, none, some, List, [], ◌∷◌, ◌≡◌, refl, sym, ◌∙◌, ◌⊎◌, inl, inr, String,
  str_eq, eq_iff, arith, Bool-cases, Option-cases,
}
use cuda_fractal_engine_stat.Override.Error.{ok, bind_ok}
use cuda_fractal_engine_stat.Json.Document.{
  Json, obj, Fields, end, field, lookup, set, IsStrict, IsStrictFields, lookup-set,
  lookup-field_none, lookup_end, field_self, field_other,
}
use cuda_fractal_engine_stat.Json.Paths.{resolve_path}
use cuda_fractal_engine_stat.Override.Merge.{deep_merge_existing, merge_value}

abbrev pub is_object : Json → Bool
is_object (obj fs) = true
is_object _ = false

-- The first entry of an override that merges.
merge_cons :
    (k : String) (v : Json) (rest target m : Fields)
    → deep_merge_existing (field k v rest) target ≡ ok m
    → (w : Json) × (merge_value k v (lookup k target) ≡ ok w)
      × (deep_merge_existing rest (set k w target) ≡ ok m)
unfolding deep_merge_existing
merge_cons k v rest target m h = bind_ok (merge_value k v (lookup k target)) _ h

-- A key that the override lacks keeps its value.
pub lookup-merge_absent :
    (ov target m : Fields) (j : String)
    → deep_merge_existing ov target ≡ ok m
    → lookup j ov ≡ none
    → lookup j m ≡ lookup j target
unfolding deep_merge_existing
lookup-merge_absent end target m j h absent = cc
lookup-merge_absent (field k v rest) target m j h absent =
    let (w, _, others) = merge_cons k v rest target m h in
    let (differ, gone) = lookup-field_none j k v rest absent in
    let ih = lookup-merge_absent rest (set k w target) m j others gone in
    ground (arith, ih, lookup-set j k w target, eq_iff j k, eq_iff k j)

-- A key of the override holds the merged value of its entry.
pub lookup-merge_present :
    (ov target m : Fields) (j : String) (v : Json)
    → IsStrictFields ov
    → deep_merge_existing ov target ≡ ok m
    → lookup j ov ≡ some v
    → (w : Json) × (merge_value j v (lookup j target) ≡ ok w) × (lookup j m ≡ some w)
unfolding IsStrict
lookup-merge_present end target m j v u h found = absurd (lookup_end j v found)
lookup-merge_present (field k x rest) target m j v u h found =
    let (w, run, others) = merge_cons k x rest target m h in
    elim (Bool-cases (str_eq k j)) [
      | inl same ↦
          let e = (eq_iff k j).0 same in
          let is_v = field_self k x rest j v same found in
          let gone : lookup j rest ≡ none = rw (← e) u.0 in
          let last = lookup-merge_absent rest (set k w target) m j others gone in
          (w, cc, last ∙ rw (lookup-set, same))
      | inr differ ↦
          let (w', run', here) =
            lookup-merge_present rest (set k w target) m j v u.2 others
              (field_other k x rest j v differ found) in
          (w', rw (← run', lookup-set, differ), here)
    ]

-- The two ways in which an entry merges.
merge_value_cases :
    (k : String) (v : Json) (current : Option Json) (w : Json)
    → merge_value k v current ≡ ok w
    → ((is_object v ≡ false) × (w ≡ v))
      ⊎ ((fs base m : Fields) × (v ≡ obj fs)
          × (current ≡ some (obj base))
          × (w ≡ obj m)
          × (deep_merge_existing fs base ≡ ok m))
unfolding merge_value
merge_value_cases k (obj fs) (some (obj base)) w h =
    let (m, run, e) = bind_ok (deep_merge_existing fs base) _ h in
    inr (fs, base, m, refl, refl, cc e, run)
merge_value_cases k (obj fs) _ w h = cc
merge_value_cases k v current w h = inl (refl, cc h)

resolve_cons :
    (k : String) (ks : List String) (fs : Fields) (v : Json)
    → resolve_path (k ∷ ks) (obj fs) ≡ some v
    → (x : Json) × (lookup k fs ≡ some x) × (resolve_path ks x ≡ some v)
unfolding resolve_path
resolve_cons k ks fs v h = elim (Option-cases (lookup k fs)) [
  | inl absent ↦ absurd (ground arith)
  | inr (x, found) ↦ (x, found, ground arith)
]

-- Following a path into an object, by what stands under its first key.
pub resolve_under :
    (k : String) (ks : List String) (fs : Fields) (x : Json)
    → lookup k fs ≡ some x
    → resolve_path (k ∷ ks) (obj fs) ≡ resolve_path ks x
unfolding resolve_path
resolve_under k ks fs x h = ground arith

root_is_object :
    (ov : Fields) (v : Json) → resolve_path [] (obj ov) ≡ some v → is_object v ≡ false → ⊥
unfolding resolve_path
root_is_object ov v h leaf = ground arith

-- An object inside an object without repeated keys has none either.
pub nested_unique :
    (k : String) (ov : Fields) (x : Json) (fs : Fields)
    → IsStrictFields ov
    → lookup k ov ≡ some x
    → x ≡ obj fs
    → IsStrictFields fs
unfolding IsStrict
nested_unique k end x fs u found e = absurd (lookup_end k x found)
nested_unique k (field j v rest) x fs u found e = elim (Bool-cases (str_eq j k)) [
  | inl same ↦
      let is_obj : v ≡ obj fs = field_self j v rest k x same found ∙ e in subst IsStrict is_obj u.1
  | inr differ ↦ nested_unique k rest x fs u.2 (field_other j v rest k x differ found) e
]

-- When an override that repeats no key and holds no NaN has been merged, each path that it resolves to
-- a value other than an object resolves to that value in the result, whatever the base holds.
pub resolve-merge_leaf :
    (ks : List String) (ov base m : Fields) (v : Json)
    → IsStrictFields ov
    → deep_merge_existing ov base ≡ ok m
    → resolve_path ks (obj ov) ≡ some v
    → is_object v ≡ false
    → resolve_path ks (obj m) ≡ some v
resolve-merge_leaf [] ov base m v u h r leaf = absurd (root_is_object ov v r leaf)
resolve-merge_leaf (k ∷ ks) ov base m v u h r leaf =
    let (x, found, r') = resolve_cons k ks ov v r in
    let (w, run, here) = lookup-merge_present ov base m k x u h found in
    resolve_under k ks m w here ∙ elim (merge_value_cases k x (lookup k base) w run) [
      | inl (plain, same) ↦ rw same r'
      | inr (fs, old, new, e, c, e', merged) ↦ rw e' (
          resolve-merge_leaf ks fs old new v (nested_unique k ov x fs u found e) merged (rw e at r')
            leaf)
    ]

-- Whether the override leaves alone what stands at a path: along it, a key is absent from the
-- override's objects.
abbrev pub spares : List String → Json → Bool
spares [] ov = false
spares (k ∷ ks) (obj fs) = elim (lookup k fs) [ none ↦ true | some v ↦ spares ks v ]
spares (k ∷ ks) _ = false

pub resolve_same_lookup :
    (k : String) (ks : List String) (fs gs : Fields)
    → lookup k fs ≡ lookup k gs
    → resolve_path (k ∷ ks) (obj fs) ≡ resolve_path (k ∷ ks) (obj gs)
unfolding resolve_path
resolve_same_lookup k ks fs gs h = rw (h, resolve_path)

spares_leaf : (ks : List String) (v : Json) → is_object v ≡ false → spares ks v ≡ true → ⊥
spares_leaf [] v leaf h = cc
spares_leaf (k ∷ ks) (obj fs) leaf h = cc
spares_leaf (k ∷ ks) _ leaf h = cc

spares_under :
    (k : String) (ks : List String) (fs : Fields) (v : Json)
    → lookup k fs ≡ some v
    → spares (k ∷ ks) (obj fs) ≡ true
    → spares ks v ≡ true
spares_under k ks fs v found h = ground arith

-- When an override that repeats no key and holds no NaN has been merged, each path that it leaves
-- alone resolves in the result as it does in the base.
pub resolve-merge_spared :
    (ks : List String) (ov base m : Fields)
    → IsStrictFields ov
    → deep_merge_existing ov base ≡ ok m
    → spares ks (obj ov) ≡ true
    → resolve_path ks (obj m) ≡ resolve_path ks (obj base)
resolve-merge_spared [] ov base m u h s = cc
resolve-merge_spared (k ∷ ks) ov base m u h s = elim (Option-cases (lookup k ov)) [
  | inl absent ↦ resolve_same_lookup k ks m base (lookup-merge_absent ov base m k h absent)
  | inr (x, found) ↦
      let (w, run, here) = lookup-merge_present ov base m k x u h found in
      let s' = spares_under k ks ov x found s in
      elim (merge_value_cases k x (lookup k base) w run) [
        | inl (plain, same) ↦ absurd (spares_leaf ks x plain s')
        | inr (fs, old, new, e, c, e', merged) ↦
            resolve_under k ks m w here
            ∙ rw e' (
                resolve-merge_spared ks fs old new (nested_unique k ov x fs u found e) merged
                  (rw e at s'))
            ∙ sym (resolve_under k ks base (obj old) c)
      ]
]
