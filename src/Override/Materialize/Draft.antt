-- ===== src/Override/Materialize/Draft.antt =====
-- The color pipeline draft of a merged state, and what is written of it:
-- `_merged_color_pipeline_draft` of src/cuda_fractal_state_tool/state_override.py.
use mathlib.Core.Path.{subst}
use cuda_fractal_engine_stat.Prelude.{
  Bool, true, false, not, Bool-cases, [], ◌≡◌, refl, sym, ap, ◌∙◌, inl, inr, some, ◌∷◌, arith,
}
use cuda_fractal_engine_stat.Override.Error.{
  OverrideError, ok, require, bind_ok, ok-injective, pipeline_unchanged,
}
use cuda_fractal_engine_stat.Override.Draft.Parameters.{has_exactly}
use cuda_fractal_engine_stat.Override.Draft.{validate_captured_color_pipeline_draft}
use cuda_fractal_engine_stat.Override.Topology.{validate_fixed_pipeline_topology}
use cuda_fractal_engine_stat.Json.Document.{
  Json, obj, Fields, end, field, lookup, get, set, lookup-set,
}
use cuda_fractal_engine_stat.Json.Equality.{eq}
use cuda_fractal_engine_stat.Override.Materialize.{
  Candidate, state_bytes, serialized, is_compliant, candidate_bytes, candidate_draft,
  merged_color_pipeline_draft, merge_pipeline,
}

-- The draft that an override puts into the merged state: the packet's with the override's lanes, which
-- is another one, keeps the topology and satisfies the packet's contract.
pub record Redrafts (override_draft : Json) (base contract merged : Fields) : Type 0 where
  pub lanes : Fields
  pub draft : Fields
  pub asked : override_draft ≡ obj lanes
  pub captured : get "color_pipeline_draft" base ≡ obj draft
  pub result :
      lookup "color_pipeline_draft" merged ≡ some (obj (set "lanes" (get "lanes" lanes) draft))
  pub topology :
      validate_fixed_pipeline_topology draft (set "lanes" (get "lanes" lanes) draft) ≡ ok tt
  pub contracted :
      validate_captured_color_pipeline_draft (obj (set "lanes" (get "lanes" lanes) draft)) contract
      ≡ ok tt
  pub changed :
      eq (obj (set "lanes" (get "lanes" lanes) draft)) (get "color_pipeline_draft" base) ≡ false

-- What is written: the packet's bytes for the empty override, and else the merged state.
abbrev pub Writes : Fields → Fields → Candidate → Type 0
Writes end merged c = c ≡ state_bytes
Writes (field k v rest) merged c =
    (c ≡ serialized (obj merged)) × (is_compliant (obj merged) ≡ true)

pub candidate_bytes-Writes :
    (override merged : Fields) (c : Candidate)
    → candidate_bytes override merged ≡ ok c
    → Writes override merged c
unfolding candidate_bytes
candidate_bytes-Writes end merged c h = sym (ok-injective h)
candidate_bytes-Writes (field k v rest) merged c h = elim (Bool-cases (is_compliant (obj merged))) [
  | inl fits ↦ (sym (ok-injective (rw fits at h)), fits)
  | inr unfit ↦ absurd (cc (rw unfit at h))
]

candidate_draft_parts :
    (override_draft base_draft : Json) (base candidate : Fields)
    → candidate_draft override_draft base_draft ≡ ok (base, candidate)
    → (lanes : Fields) × (override_draft ≡ obj lanes)
      × (base_draft ≡ obj base)
      × (candidate ≡ set "lanes" (get "lanes" lanes) base)
unfolding candidate_draft
candidate_draft_parts (obj lanes) (obj draft) base candidate h =
    elim (Bool-cases (has_exactly lanes ("lanes" ∷ []))) [
      | inl only ↦
          let same = ok-injective (rw only at h) in
          (
            lanes,
            refl,
            ap obj (ap (λ t. t.0) same),
            sym (ap (λ t. t.1) same) ∙ ap (set "lanes" (get "lanes" lanes)) (ap (λ t. t.0) same),
          )
      | inr more ↦ absurd (cc (rw more at h))
    ]
candidate_draft_parts (obj lanes) _ base candidate h = absurd (ground arith)
candidate_draft_parts _ base_draft base candidate h = absurd (cc h)

require-not : (b : Bool) (e : OverrideError) → require (not b) e ≡ ok tt → b ≡ false
require-not b e h = ground arith

pub merge_pipeline-Redrafts :
    (override_draft : Json) (base contract before merged : Fields)
    → merge_pipeline (some override_draft) base contract before ≡ ok merged
    → Redrafts override_draft base contract merged
unfolding merge_pipeline merged_color_pipeline_draft
merge_pipeline-Redrafts override_draft base contract before merged h =
    let (final, drafted, h1) =
      bind_ok (merged_color_pipeline_draft override_draft base contract) _ h in
    let (_, differs, h2) =
      bind_ok (require (not (eq final (get "color_pipeline_draft" base))) pipeline_unchanged) _
        h1 in
    let ((draft, candidate), asked, h3) =
      bind_ok (candidate_draft override_draft (get "color_pipeline_draft" base)) _ drafted in
    let (_, topology, h4) = bind_ok (validate_fixed_pipeline_topology draft candidate) _ h3 in
    let (_, contracted, h5) =
      bind_ok (validate_captured_color_pipeline_draft (obj candidate) contract) _ h4 in
    let (lanes, is_lanes, captured, made) =
      candidate_draft_parts override_draft (get "color_pipeline_draft" base) draft candidate
        asked in
    let last : final ≡ obj (set "lanes" (get "lanes" lanes) draft) =
      sym (ok-injective h5) ∙ ap obj made in
    record {
      lanes = lanes;
      draft = draft;
      asked = is_lanes;
      captured = captured;
      result =
          sym (ap (lookup "color_pipeline_draft") (ok-injective h2))
          ∙ lookup-set "color_pipeline_draft" "color_pipeline_draft" final before
          ∙ ap some last;
      topology = subst (λ d. validate_fixed_pipeline_topology draft d ≡ ok tt) made topology;
      contracted =
          subst (λ d. validate_captured_color_pipeline_draft (obj d) contract ≡ ok tt) made
            contracted;
      changed =
          subst (λ d. eq d (get "color_pipeline_draft" base) ≡ false) last
            (require-not _ _ differs);
    }
