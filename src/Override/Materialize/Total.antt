-- ===== src/Override/Materialize/Total.antt =====
-- Once an override is validated, the merge of `params` and `view` cannot fail.
use cuda_fractal_engine_stat.Prelude.{◌≡◌, refl, Option, none, some, List, String}
use cuda_fractal_engine_stat.Override.Error.{ok}
use cuda_fractal_engine_stat.Json.Document.{Json, obj, Fields, lookup, set, IsStrictFields}
use cuda_fractal_engine_stat.Override.Merge.Total.{merge_total}
use cuda_fractal_engine_stat.Override.Validate.{
  domain_override, check_shape, validate_params_and_view,
}
use cuda_fractal_engine_stat.Override.Validate.Sound.{validate-IsAuthorable}
use cuda_fractal_engine_stat.Override.Materialize.{merge_into, merge_domain, merge_state}
use cuda_fractal_engine_stat.Override.Materialize.Effect.{domain_unique, merge_domain_other}

merge_into_total :
    (domain : String) (fs : Fields) (held : Option Json) (before : Fields)
    → IsStrictFields fs
    → check_shape domain (some fs) held ≡ ok tt
    → (after : Fields) × (merge_into domain fs held before ≡ ok after)
unfolding merge_into check_shape
merge_into_total domain fs (some (obj target)) before u h =
    let m = merge_total fs target domain u h in (set domain (obj m.merged) before, rw m.runs)
merge_into_total domain fs none before u h = absurd (cc h)
merge_into_total domain fs (some _) before u h = absurd (cc h)

merge_domain_total :
    (domain : String) (o : Option Fields) (before : Fields)
    → ((fs : Fields) → o ≡ some fs → IsStrictFields fs)
    → check_shape domain o (lookup domain before) ≡ ok tt
    → (after : Fields) × (merge_domain domain o before ≡ ok after)
unfolding merge_domain
merge_domain_total domain none before u h = (before, refl)
merge_domain_total domain (some fs) before u h =
    merge_into_total domain fs (lookup domain before) before (u fs refl) h

-- An override without a color pipeline that passes the checks of `params` and `view`, and repeats no
-- key and holds no NaN, merges: the merge meets no missing key and no scalar where an object is needed.
pub validated-merges :
    (override base surface contract : Fields) (edits : List String)
    → IsStrictFields override
    → lookup "color_pipeline_draft" override ≡ none
    → validate_params_and_view override base surface ≡ ok edits
    → (merged : Fields) × (merge_state override base contract ≡ ok merged)
unfolding merge_state
validated-merges override base surface contract edits u no_draft valid =
    let a = validate-IsAuthorable override base surface edits valid in
    let po = domain_override "params" override in
    let vo = domain_override "view" override in
    let (m1, p) =
      merge_domain_total "params" po base (λ fs. domain_unique "params" override fs u)
        a.params_shape in
    let same = merge_domain_other "params" "view" po base m1 refl p in
    let (m2, v) =
      merge_domain_total "view" vo m1 (λ fs. domain_unique "view" override fs u)
        (rw same a.view_shape) in
    (m2, rw (p, v, no_draft))
