-- ===== src/Compare/Same.antt =====
-- A document compared with itself.
use mathlib.Core.Path.{subst}
use cuda_fractal_engine_stat.Prelude.{
  eq_iff, ℕ, suc, Bool, true, false, ◌≡◌, refl, sym, Option, none, some, List, [], ◌∷◌, ◌++◌,
  String, str_eq, All, All-append, contains, if_case, arith,
}
use cuda_fractal_engine_stat.Json.Document.{
  Json, null, bool, int, float, finite, infinity, minus_infinity, not_a_number, text, arr, obj,
  Items, nil, cons, Fields, end, field, lookup, get, set, keys, IsStrict, IsStrictFields,
  IsStrictItems, lookup-set, lookup-field_none,
}
use cuda_fractal_engine_stat.Json.Equality.Reflexive.{eq_refl}
use cuda_fractal_engine_stat.Json.Paths.{child_path, item_path}
use cuda_fractal_engine_stat.Compare.{
  Leaves, insert_entry, sort_entries, join, flatten, flatten_entries, flatten_items, to_dict,
  semantic_subset, sort_paths, differences_at, compare_json_documents, before,
  loader_top_level_keys,
}

-- A value that is no list, no object and not NaN.
abbrev IsScalar : Json → Type 0
IsScalar (arr xs) = ⊥
IsScalar (obj fs) = ⊥
IsScalar (float not_a_number) = ⊥
IsScalar _ = Unit

scalar-IsStrict : (v : Json) → IsScalar v → IsStrict v
unfolding IsStrict
scalar-IsStrict null s = tt
scalar-IsStrict (bool b) s = tt
scalar-IsStrict (int i) s = tt
scalar-IsStrict (float (finite n)) s = tt
scalar-IsStrict (float infinity) s = tt
scalar-IsStrict (float minus_infinity) s = tt
scalar-IsStrict (float not_a_number) s = absurd s
scalar-IsStrict (text t) s = tt
scalar-IsStrict (arr xs) s = absurd s
scalar-IsStrict (obj fs) s = absurd s

abbrev AreScalars : Leaves → Type 0
AreScalars leaves = All (λ (p, v). IsScalar v) leaves

abbrev Entries : List (String × Leaves) → Type 0
Entries es = All (λ (k, leaves). AreScalars leaves) es

insert-Entries :
    (e : String × Leaves) (es : List (String × Leaves))
    → AreScalars e.1
    → Entries es
    → Entries (insert_entry e es)
unfolding insert_entry
insert-Entries e [] s h = (s, tt)
insert-Entries e (f ∷ rest) s h =
    if_case Entries (before e.0 f.0) _ _ (λ _. (s, h)) (λ _. (h.0, insert-Entries e rest s h.1))

sort-Entries : (es : List (String × Leaves)) → Entries es → Entries (sort_entries es)
unfolding sort_entries
sort-Entries [] h = tt
sort-Entries (e ∷ rest) h = insert-Entries e (sort_entries rest) h.0 (sort-Entries rest h.1)

join-AreScalars : (es : List (String × Leaves)) → Entries es → AreScalars (join es)
unfolding join
join-AreScalars [] h = tt
join-AreScalars (e ∷ rest) h = All-append _ e.1 (join rest) h.0 (join-AreScalars rest h.1)

mutual
  unfolding flatten IsStrict

  flatten-AreScalars : (v : Json) (p : String) → IsStrict v → AreScalars (flatten v p)
  flatten-AreScalars (obj fs) p u =
      join-AreScalars (sort_entries (flatten_entries fs p))
        (sort-Entries (flatten_entries fs p) (Entries-AreScalars fs p u))
  flatten-AreScalars (arr xs) p u = items-AreScalars xs p 0 u
  flatten-AreScalars null p u = (tt, tt)
  flatten-AreScalars (bool b) p u = (tt, tt)
  flatten-AreScalars (int i) p u = (tt, tt)
  flatten-AreScalars (float (finite n)) p u = (tt, tt)
  flatten-AreScalars (float infinity) p u = (tt, tt)
  flatten-AreScalars (float minus_infinity) p u = (tt, tt)
  flatten-AreScalars (float not_a_number) p u = absurd u
  flatten-AreScalars (text t) p u = (tt, tt)

  Entries-AreScalars :
      (fs : Fields) (p : String) → IsStrictFields fs → Entries (flatten_entries fs p)
  Entries-AreScalars end p u = tt
  Entries-AreScalars (field k v rest) p u =
      (flatten-AreScalars v (child_path p k) u.1, Entries-AreScalars rest p u.2)

  items-AreScalars :
      (xs : Items) (p : String) (i : ℕ) → IsStrictItems xs → AreScalars (flatten_items xs p i)
  items-AreScalars nil p i u = tt
  items-AreScalars (cons x xs) p i u =
      All-append _ (flatten x (item_path p i)) (flatten_items xs p (suc i))
        (flatten-AreScalars x (item_path p i) u.0) (items-AreScalars xs p (suc i) u.1)

abbrev ScalarAt : Option Json → Type 0
ScalarAt none = Unit
ScalarAt (some v) = IsScalar v

-- Every value of a dictionary is a scalar.
Flat : Fields → Type 0
Flat d = (k : String) → ScalarAt (lookup k d)

get-IsScalar :
    (k : String) (d : Fields) (o : Option Json) → lookup k d ≡ o → ScalarAt o → IsScalar (get k d)
unfolding get
get-IsScalar k d none e s = subst (λ o. IsScalar (elim o [ none ↦ null | some v ↦ v ])) (sym e) tt
get-IsScalar k d (some v) e s =
    subst (λ o. IsScalar (elim o [ none ↦ null | some v ↦ v ])) (sym e) s

set-Flat : (k : String) (v : Json) (d : Fields) → IsScalar v → Flat d → Flat (set k v d)
unfolding Flat
set-Flat k v d s h j =
    subst ScalarAt (sym (lookup-set j k v d))
      (if_case ScalarAt (str_eq k j) _ _ (λ _. s) (λ _. h j))

to_dict-Flat : (leaves : Leaves) (d : Fields) → AreScalars leaves → Flat d → Flat (to_dict leaves d)
unfolding to_dict
to_dict-Flat [] d s h = h
to_dict-Flat ((p, v) ∷ rest) d s h = to_dict-Flat rest (set p v d) s.1 (set-Flat p v d s.0 h)

no_differences : (d : Fields) (ps : List String) → Flat d → differences_at d d ps ≡ []
unfolding differences_at Flat
no_differences d [] h = refl
no_differences d (p ∷ rest) h =
    rw (eq_refl (get p d) (scalar-IsStrict (get p d) (get-IsScalar p d (lookup p d) refl (h p))))
      (no_differences d rest h)

lookup-field_absent :
    (k j : String) (v : Json) (fs : Fields)
    → str_eq k j ≡ false
    → lookup k fs ≡ none
    → lookup k (field j v fs) ≡ none
unfolding lookup
lookup-field_absent k j v fs differ h = ground (arith, eq_iff j k, eq_iff k j)

subset_absent :
    (k : String) (fs : Fields) → lookup k fs ≡ none → lookup k (semantic_subset fs) ≡ none
unfolding semantic_subset
subset_absent k end h = h
subset_absent k (field j v rest) h =
    let (differ, gone) = lookup-field_none k j v rest h in
    let ih = subset_absent k rest gone in
    if_case (λ d. lookup k d ≡ none) (contains loader_top_level_keys j) _ _
      (λ _. lookup-field_absent k j v (semantic_subset rest) differ ih) (λ _. ih)

subset_unique : (fs : Fields) → IsStrictFields fs → IsStrictFields (semantic_subset fs)
unfolding semantic_subset IsStrict
subset_unique end u = tt
subset_unique (field k v rest) u =
    if_case IsStrictFields (contains loader_top_level_keys k) _ _
      (λ _. (subset_absent k rest u.0, u.1, subset_unique rest u.2)) (λ _. subset_unique rest u.2)

end-Flat : Flat end
unfolding Flat lookup
end-Flat k = tt

-- A document that repeats no key and holds no NaN, compared with itself, shows no difference and is
-- semantically equal.
pub compare_json_documents_same :
    (raw_equal : Bool) (fs : Fields)
    → IsStrictFields fs
    → compare_json_documents raw_equal fs fs
      ≡ record { raw_equal = raw_equal; semantic_equal = true; differences = [] }
unfolding compare_json_documents
compare_json_documents_same raw_equal fs u =
    let d = to_dict (flatten (obj fs) "") end in
    let flat =
      to_dict-Flat (flatten (obj fs) "") end (unfold IsStrict in flatten-AreScalars (obj fs) "" u)
        end-Flat in
    rw
      (
        no_differences d (sort_paths (keys d ++ keys d)) flat,
        eq_refl (obj (semantic_subset fs)) (unfold IsStrict in subset_unique fs u),
      )
      refl
