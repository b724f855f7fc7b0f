-- ===== src/Override/Diff/Runs.antt =====
-- When `_diff_values` raises: where the left side has a key that the right side lacks.
use cuda_fractal_engine_stat.Prelude.{
  ==_of_eq, ℕ, suc, ◌≡◌, refl, sym, ap, inl, inr, Bool-cases, Option, none, some, List, String,
  str_eq, eq_iff,
}
use cuda_fractal_engine_stat.Override.Error.{OverrideError, Result, ok, err, ◌>>=◌, key_error}
use cuda_fractal_engine_stat.Json.Document.{
  Json, arr, obj, Items, cons, Fields, end, field, lookup, count_items, lookup_end, field_self,
  field_other,
}
use cuda_fractal_engine_stat.Json.Paths.{child_path, item_path}
use cuda_fractal_engine_stat.Override.Diff.{Change, diff_values, diff_fields, diff_items}

-- Two values in which an object on the left meets an object on the right that lacks one of its keys.
pub data Lacks : Json → Json → Type 0 where
  missing :
      (k : String) (v : Json) (fs gs : Fields)
      → lookup k fs ≡ some v
      → lookup k gs ≡ none
      → Lacks (obj fs) (obj gs)
  under :
      (k : String) (v w : Json) (fs gs : Fields)
      → lookup k fs ≡ some v
      → lookup k gs ≡ some w
      → Lacks v w
      → Lacks (obj fs) (obj gs)
  first_item :
      (x y : Json) (xs ys : Items)
      → count_items xs ≡ count_items ys
      → Lacks x y
      → Lacks (arr (cons x xs)) (arr (cons y ys))
  later_item :
      (x y : Json) (xs ys : Items)
      → Lacks (arr xs) (arr ys)
      → Lacks (arr (cons x xs)) (arr (cons y ys))

fails_first {ℓ κ} :
    {A : Type ℓ} {B : Type κ} (m : Result A) (f : A → Result B)
    → (e : OverrideError) × (m ≡ err e)
    → (e : OverrideError) × ((m >>= f) ≡ err e)
fails_first m f (e, h) = (e, rw h)

fails_after {ℓ κ} :
    {A : Type ℓ} {B : Type κ} (m : Result A) (f : A → Result B)
    → ((a : A) → (e : OverrideError) × (f a ≡ err e))
    → (e : OverrideError) × ((m >>= f) ≡ err e)
fails_after (ok a) f h = h a
fails_after (err e) f h = (e, refl)

-- What makes one entry of the left side fail.
abbrev EntryFails : Json → Option Json → Type 0
EntryFails v none = Unit
EntryFails v (some w) = (p : String) → (e : OverrideError) × (diff_values v w p ≡ err e)

entry_fails :
    (k : String) (v : Json) (o : Option Json) (p : String)
    → EntryFails v o
    → let here : Result (List Change) = elim o [
      | none ↦ err (key_error k)
      | some w ↦ diff_values v w p
    ] in
      (e : OverrideError) × (here ≡ err e)
entry_fails k v none p h = (key_error k, refl)
entry_fails k v (some w) p h = h p

diff_fields-fails :
    (fs gs : Fields) (k : String) (v : Json) (p : String)
    → lookup k fs ≡ some v
    → EntryFails v (lookup k gs)
    → (e : OverrideError) × (diff_fields fs gs p ≡ err e)
unfolding diff_values
diff_fields-fails end gs k v p found h = absurd (lookup_end k v found)
diff_fields-fails (field j x rest) gs k v p found h = elim (Bool-cases (str_eq j k)) [
  | inl same ↦
      let e : k ≡ j = sym ((eq_iff j k).0 same) in
      let is_v : v ≡ x = sym (field_self j x rest k v same found) in
      fails_first _ _ (entry_fails j x (lookup j gs) (child_path p j) (rw (e, is_v) at h))
  | inr differ ↦ fails_after _ _ (λ here.
      fails_first _ _ (diff_fields-fails rest gs k v p (field_other j x rest k v differ found) h))
]

-- What fails at a position: the items' difference for lists, the fields' for objects.
abbrev Raises : Json → Json → Type 0
Raises (obj fs) (obj gs) = (p : String) → (e : OverrideError) × (diff_fields fs gs p ≡ err e)
Raises (arr xs) (arr ys) =
    (count_items xs ≡ count_items ys)
    × ((p : String) (i : ℕ) → (e : OverrideError) × (diff_items xs ys p i ≡ err e))
Raises _ _ = ⊥

diff_of_Raises :
    (left right : Json)
    → Raises left right
    → (p : String) → (e : OverrideError) × (diff_values left right p ≡ err e)
unfolding diff_values
diff_of_Raises (obj fs) (obj gs) r p = r p
diff_of_Raises (arr xs) (arr ys) r p = rw (==_of_eq (count_items xs) (count_items ys) r.0) (r.1 p 0)
diff_of_Raises _ _ r p = absurd r

Lacks-Raises : {left right : Json} → Lacks left right → Raises left right
unfolding diff_values count_items
Lacks-Raises (missing k v fs gs found absent) =
    λ p. diff_fields-fails fs gs k v p found (rw absent tt)
Lacks-Raises (under k v w fs gs found here l) =
    let below = diff_of_Raises v w (Lacks-Raises l) in
    λ p. diff_fields-fails fs gs k v p found (rw here below)
Lacks-Raises (first_item x y xs ys e l) =
    let below = diff_of_Raises x y (Lacks-Raises l) in
    (ap suc e, λ p i. fails_first _ _ (below (item_path p i)))
Lacks-Raises (later_item x y xs ys l) =
    let (e, below) = Lacks-Raises l in
    (ap suc e, λ p i. fails_after _ _ (λ here. fails_first _ _ (below p (suc i))))

-- Where an object on the left meets, at any depth, an object on the right that lacks one of its keys,
-- the difference of the two documents raises: it returns no list of changes.
pub diff_values-fails :
    {left right : Json}
    → Lacks left right
    → (p : String) → (e : OverrideError) × (diff_values left right p ≡ err e)
diff_values-fails {left} {right} l p = diff_of_Raises left right (Lacks-Raises l) p
