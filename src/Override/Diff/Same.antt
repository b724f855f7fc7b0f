-- ===== src/Override/Diff/Same.antt =====
-- A document has no differences from itself.
use cuda_fractal_engine_stat.Prelude.{ℕ, suc, ◌≡◌, refl, [], String, ==_refl}
use cuda_fractal_engine_stat.Override.Error.{ok}
use cuda_fractal_engine_stat.Json.Document.{
  Json, null, bool, int, float, text, arr, obj, Items, nil, cons, Fields, end, field, count_items,
  IsStrict, IsStrictItems, IsStrictFields,
}
use cuda_fractal_engine_stat.Json.Paths.{child_path, item_path}
use cuda_fractal_engine_stat.Json.Equality.Reflexive.{Within, Within-self, eq_refl}
use cuda_fractal_engine_stat.Override.Diff.{diff_values, diff_fields, diff_items, diff_leaf}

diff_leaf_same : (v : Json) (p : String) → IsStrict v → diff_leaf v v p ≡ ok []
unfolding diff_leaf
diff_leaf_same v p u = rw (eq_refl v u)

mutual
  unfolding diff_values IsStrict

  same_values : (v : Json) (p : String) → IsStrict v → diff_values v v p ≡ ok []
  same_values (obj fs) p u = same_fields fs fs p u (Within-self fs u)
  same_values (arr xs) p u = rw (==_refl (count_items xs)) (same_items xs p 0 u)
  same_values null p u = diff_leaf_same null p u
  same_values (bool b) p u = diff_leaf_same (bool b) p u
  same_values (int i) p u = diff_leaf_same (int i) p u
  same_values (float x) p u = diff_leaf_same (float x) p u
  same_values (text s) p u = diff_leaf_same (text s) p u

  same_items : (xs : Items) (p : String) (i : ℕ) → IsStrictItems xs → diff_items xs xs p i ≡ ok []
  same_items nil p i u = refl
  same_items (cons x xs) p i u = rw (same_values x (item_path p i) u.0, same_items xs p (suc i) u.1)

  same_fields :
      (fs gs : Fields) (p : String) → IsStrictFields fs → Within fs gs → diff_fields fs gs p ≡ ok []
  same_fields end gs p u w = refl
  same_fields (field k v rest) gs p u w =
      rw (w.0, same_values v (child_path p k) u.1, same_fields rest gs p u.2 w.1)

-- A document without repeated keys and NaN has no difference from itself, whatever the prefix of the
-- paths.
pub diff_values_same : (v : Json) (p : String) → IsStrict v → diff_values v v p ≡ ok []
diff_values_same v p u = same_values v p u
