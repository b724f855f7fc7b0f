-- ===== src/Compare/Tests.antt =====
-- Runs of the comparison of documents.
use cuda_fractal_engine_stat.Prelude.{true, false, [], ◌∷◌, ◌≡◌, refl, pos}
use cuda_fractal_engine_stat.Json.Document.{
  int, float, not_a_number, arr, obj, nil, Fields, end, field, lookup, get, set, keys, size,
  IsStrict, IsStrictFields,
}
use cuda_fractal_engine_stat.Json.Equality.{eq, eq_number, eq_value, number}
use cuda_fractal_engine_stat.Compare.{
  compare_json_documents, flatten, to_dict, semantic_subset, differences_at,
  stable_authoring_state_difference, classify_path,
}
use cuda_fractal_engine_stat.Json.Paths.{child_path, split_dots}
use cuda_fractal_engine_stat.Compare.Same.{compare_json_documents_same}

abbrev document : Fields
document = field "view" (obj (field "zoom" (int (pos 2)) end)) (field "stats" (int (pos 7)) end)

document_unique : IsStrictFields document
unfolding IsStrict lookup
document_unique = (refl, (refl, tt, tt), (refl, tt, tt))

compare_json_documents_same_example :
    compare_json_documents true document document
    ≡ record { raw_equal = true; semantic_equal = true; differences = [] }
compare_json_documents_same_example = compare_json_documents_same true document document_unique

-- A key that only one side has shows no difference when it holds an empty list.
hidden_difference :
    compare_json_documents false (field "render" (arr nil) end) end
    ≡ record { raw_equal = false; semantic_equal = false; differences = [] }
unfolding compare_json_documents flatten to_dict semantic_subset differences_at lookup get set keys
    eq eq_number number size
hidden_difference = refl

-- NaN differs from itself as a leaf, but not inside of the documents.
nan_differs :
    compare_json_documents true
      (field "render" (float not_a_number) end)
      (field "render" (float not_a_number) end)
    ≡ record {
      raw_equal = true;
      semantic_equal = true;
      differences =
          record {
            path = "render";
            left = float not_a_number;
            right = float not_a_number;
            classification = stable_authoring_state_difference;
          }
          ∷ [];
    }
unfolding compare_json_documents flatten to_dict semantic_subset differences_at lookup get set keys
    eq eq_number number size eq_value classify_path split_dots child_path
nan_differs = refl
