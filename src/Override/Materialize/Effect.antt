-- ===== src/Override/Materialize/Effect.antt =====
-- What a materialized candidate holds, against the override and the packet's state.
use mathlib.Core.Path.{subst, subst₂}
use cuda_fractal_engine_stat.Prelude.{
  true, false, not, ◌≡◌, refl, sym, ap, ◌∙◌, inl, inr, Option, none, some, List, ◌∷◌, String,
  str_eq, eq_iff, arith, Option-cases, contains,
}
use cuda_fractal_engine_stat.Override.Error.{ok, require, bind_ok, ok-injective, pipeline_unchanged}
use cuda_fractal_engine_stat.Json.Document.{
  Json, obj, Fields, lookup, get, set, IsStrict, IsStrictFields, lookup-set,
}
use cuda_fractal_engine_stat.Json.Equality.{eq}
use cuda_fractal_engine_stat.Json.Paths.{resolve_path}
use cuda_fractal_engine_stat.Override.Parse.{
  parse-document, parse_state_override, allowed_top_level_domains,
}
use cuda_fractal_engine_stat.Override.Merge.{deep_merge_existing}
use cuda_fractal_engine_stat.Override.Merge.Lookup.{
  is_object, spares, resolve-merge_leaf, resolve-merge_spared, resolve_under, nested_unique,
}
use cuda_fractal_engine_stat.Override.Validate.{domain_override, validate_params_and_view}
use cuda_fractal_engine_stat.Override.Validate.Sound.{IsAuthorable, validate-IsAuthorable}
use cuda_fractal_engine_stat.Override.Materialize.{
  PacketOverrideAuthorities, Candidate, merge_into, merge_domain, merge_pipeline, merge_state,
  merged_color_pipeline_draft, prepare, candidate_bytes,
}
use cuda_fractal_engine_stat.Override.Materialize.Draft.{
  Redrafts, Writes, candidate_bytes-Writes, merge_pipeline-Redrafts,
}

-- A merge into one domain: the objects that meet, and their merge.
pub record DomainMerge (domain : String) (fs before after : Fields) : Type 0 where
  pub target : Fields
  pub merged : Fields
  pub found : lookup domain before ≡ some (obj target)
  pub merges : deep_merge_existing fs target ≡ ok merged
  pub result : after ≡ set domain (obj merged) before

merge_into_parts :
    (domain : String) (fs : Fields) (held : Option Json) (before after : Fields)
    → lookup domain before ≡ held
    → merge_into domain fs held before ≡ ok after
    → DomainMerge domain fs before after
unfolding merge_into
merge_into_parts domain fs (some (obj target)) before after e h =
    let (merged, run, last) = bind_ok (deep_merge_existing fs target) _ h in
    record { target = target; merged = merged; found = e; merges = run; result = cc last }
merge_into_parts domain fs none before after e h = absurd (cc h)
merge_into_parts domain fs (some _) before after e h = absurd (cc h)

merge_domain_parts :
    (domain : String) (fs before after : Fields)
    → merge_domain domain (some fs) before ≡ ok after
    → DomainMerge domain fs before after
unfolding merge_domain
merge_domain_parts domain fs before after h =
    merge_into_parts domain fs (lookup domain before) before after refl h

-- A domain that is merged leaves every other key alone.
pub merge_domain_other :
    (domain j : String) (o : Option Fields) (before after : Fields)
    → str_eq domain j ≡ false
    → merge_domain domain o before ≡ ok after
    → lookup j after ≡ lookup j before
merge_domain_other domain j none before after differ h = unfold merge_domain in cc h
merge_domain_other domain j (some fs) before after differ h =
    let d = merge_domain_parts domain fs before after h in rw (d.result, lookup-set, differ)

none_merges :
    (domain : String) (before after : Fields)
    → merge_domain domain none before ≡ ok after
    → before ≡ after
unfolding merge_domain
none_merges domain before after h = ok-injective h

-- The parsed override is the document's object.
parse_unique :
    (document : Json) (override : Fields)
    → IsStrict document
    → parse_state_override document ≡ ok override
    → IsStrictFields override
unfolding IsStrict
parse_unique (obj fs) override u h = subst IsStrictFields (parse-document fs override h) u
parse_unique _ override u h = absurd (unfold parse_state_override in cc h)

merge_pipeline_other :
    (j : String) (o : Option Json) (base contract before after : Fields)
    → str_eq "color_pipeline_draft" j ≡ false
    → merge_pipeline o base contract before ≡ ok after
    → lookup j after ≡ lookup j before
unfolding merge_pipeline
merge_pipeline_other j none base contract before after differ h = cc h
merge_pipeline_other j (some draft) base contract before after differ h =
    let (merged, _, h1) = bind_ok (merged_color_pipeline_draft draft base contract) _ h in
    let (_, _, h2) =
      bind_ok (require (not (eq merged (get "color_pipeline_draft" base))) pipeline_unchanged) _
        h1 in
    sym (ap (lookup j) (ok-injective h2))
    ∙ (lookup-set j "color_pipeline_draft" merged before ∙ rw differ)

-- How one domain of the merged state answers, against the override's object and the base.
pub record Overlays (domain : String) (fs base merged : Fields) : Type 0 where
  pub leaf :
      (ks : List String) (v : Json)
      → resolve_path ks (obj fs) ≡ some v
      → is_object v ≡ false
      → resolve_path (domain ∷ ks) (obj merged) ≡ some v
  pub spared :
      (ks : List String)
      → spares ks (obj fs) ≡ true
      → resolve_path (domain ∷ ks) (obj merged) ≡ resolve_path (domain ∷ ks) (obj base)

overlay_of :
    (domain : String) (fs base before after merged : Fields)
    → DomainMerge domain fs before after
    → IsStrictFields fs
    → lookup domain before ≡ lookup domain base
    → lookup domain merged ≡ lookup domain after
    → Overlays domain fs base merged
overlay_of domain fs base before after merged d u same kept =
    let here : lookup domain merged ≡ some (obj d.merged) =
      kept ∙ rw (d.result, lookup-set, (eq_iff domain domain).1 refl) in
    record {
      leaf = λ ks v r leaf.
          resolve_under domain ks merged (obj d.merged) here
          ∙ resolve-merge_leaf ks fs d.target d.merged v u d.merges r leaf;
      spared = λ ks s.
          resolve_under domain ks merged (obj d.merged) here
          ∙ resolve-merge_spared ks fs d.target d.merged u d.merges s
          ∙ sym (resolve_under domain ks base (obj d.target) (sym same ∙ d.found));
    }

-- What a prepared candidate is.
pub record IsOverlay (override base surface contract merged : Fields) : Type 0 where
  pub authorable : IsAuthorable override base surface
  pub params :
      (fs : Fields) → domain_override "params" override ≡ some fs → Overlays "params" fs base merged
  pub view :
      (fs : Fields) → domain_override "view" override ≡ some fs → Overlays "view" fs base merged
  pub no_params :
      domain_override "params" override ≡ none → lookup "params" merged ≡ lookup "params" base
  pub no_view : domain_override "view" override ≡ none → lookup "view" merged ≡ lookup "view" base
  pub others :
      (k : String) → contains allowed_top_level_domains k ≡ false → lookup k merged ≡ lookup k base
  pub pipeline :
      (draft : Json)
      → lookup "color_pipeline_draft" override ≡ some draft
      → Redrafts draft base contract merged
  pub no_pipeline :
      lookup "color_pipeline_draft" override ≡ none
      → lookup "color_pipeline_draft" merged ≡ lookup "color_pipeline_draft" base

pub domain_unique :
    (domain : String) (override fs : Fields)
    → IsStrictFields override
    → domain_override domain override ≡ some fs
    → IsStrictFields fs
domain_unique domain override fs u h = elim (Option-cases (lookup domain override)) [
  | inl absent ↦ absurd (ground arith)
  | inr (x, found) ↦ nested_unique domain override x fs u found (ground arith)
]

not_in_domains :
    (k : String)
    → contains allowed_top_level_domains k ≡ false
    → (str_eq "params" k ≡ false)
      × (str_eq "view" k ≡ false)
      × (str_eq "color_pipeline_draft" k ≡ false)
not_in_domains k h = ground arith

no_draft :
    (base contract before merged : Fields)
    → merge_pipeline none base contract before ≡ ok merged
    → merged ≡ before
unfolding merge_pipeline
no_draft base contract before merged h = sym (ok-injective h)

merge_state-IsOverlay :
    (override base surface contract merged : Fields)
    → IsStrictFields override
    → IsAuthorable override base surface
    → merge_state override base contract ≡ ok merged
    → IsOverlay override base surface contract merged
unfolding merge_state
merge_state-IsOverlay override base surface contract merged u authorable h =
    let po = domain_override "params" override in
    let vo = domain_override "view" override in
    let (m1, p, h1) = bind_ok (merge_domain "params" po base) _ h in
    let (m2, v, c) = bind_ok (merge_domain "view" vo m1) _ h1 in
    let last = λ (j : String) (d : str_eq "color_pipeline_draft" j ≡ false).
      merge_pipeline_other j (lookup "color_pipeline_draft" override) base contract m2 merged d c in
    let second =
      λ (j : String) (d : str_eq "view" j ≡ false). merge_domain_other "view" j vo m1 m2 d v in
    let first = λ (j : String) (d : str_eq "params" j ≡ false).
      merge_domain_other "params" j po base m1 d p in
    record {
      authorable = authorable;
      params = λ fs e.
          overlay_of "params" fs base base m1 merged
            (merge_domain_parts "params" fs base m1 (rw e at p))
            (domain_unique "params" override fs u e) refl
            (last "params" refl ∙ second "params" refl);
      view = λ fs e.
          overlay_of "view" fs base m1 m2 merged (merge_domain_parts "view" fs m1 m2 (rw e at v))
            (domain_unique "view" override fs u e) (first "view" refl) (last "view" refl);
      no_params = λ e.
          last "params" refl
          ∙ second "params" refl
          ∙ ap (lookup "params") (sym (none_merges "params" base m1 (rw e at p)));
      no_view = λ e.
          last "view" refl
          ∙ ap (lookup "view") (sym (none_merges "view" m1 m2 (rw e at v)))
          ∙ first "view" refl;
      others =
          λ k out. let (np, nv, nc) = not_in_domains k out in last k nc ∙ second k nv ∙ first k np;
      pipeline =
          λ draft asked. merge_pipeline-Redrafts draft base contract m2 merged (rw asked at c);
      no_pipeline = λ absent.
          ap (lookup "color_pipeline_draft") (no_draft base contract m2 merged (rw absent at c))
          ∙ second "color_pipeline_draft" refl
          ∙ first "color_pipeline_draft" refl;
    }

-- Where a document that repeats no key and holds no NaN is prepared outside the packet, its override
-- passed the checks of the authoring surface. Each value other than an object that the override gives
-- under `params` or `view` stands in the merged state at its path; every path there that the override
-- leaves alone resolves as in the packet's state. A color pipeline draft that the override gives is an
-- object whose lanes replace those of the packet's draft; the draft so made is in the merged state,
-- differs from the packet's, keeps its topology and satisfies the packet's contract. A domain of these
-- three that the override lacks is the packet's, and so is every key outside them. What is written is
-- the merged state, free of infinities and NaN, or the packet's own bytes where the override is empty.
pub prepare-IsOverlay :
    (a : PacketOverrideAuthorities) (document : Json) (override merged : Fields) (c : Candidate)
    (edits : List String)
    → IsStrict document
    → prepare a false document ≡ ok (override, merged, c, edits)
    → IsOverlay override a.state a.authoring_surface a.color_pipeline_contract merged
      × Writes override merged c
unfolding prepare
prepare-IsOverlay a document override merged c edits u h =
    let (ov, parsed, h1) = bind_ok (parse_state_override document) _ h in
    let (es, valid, h2) = bind_ok (validate_params_and_view ov a.state a.authoring_surface) _ h1 in
    let (m, run, h3) = bind_ok (merge_state ov a.state a.color_pipeline_contract) _ h2 in
    let (c', bytes, h4) = bind_ok (candidate_bytes ov m) _ h3 in
    let same = ok-injective h4 in
    let all =
      merge_state-IsOverlay ov a.state a.authoring_surface a.color_pipeline_contract m
        (parse_unique document ov u parsed)
        (validate-IsAuthorable ov a.state a.authoring_surface es valid) run in
    (
      subst₂ (λ o n. IsOverlay o a.state a.authoring_surface a.color_pipeline_contract n)
          (ap (λ t. t.0) same) (ap (λ t. t.1) same) all,
      subst (λ (o, n, d, _). Writes o n d) same (candidate_bytes-Writes ov m c' bytes),
    )
