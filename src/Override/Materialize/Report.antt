-- ===== src/Override/Materialize/Report.antt =====
-- What is reported once the candidate has been written.
use cuda_fractal_engine_stat.Prelude.{Bool, true, false, ◌≡◌, ap, ◌∙◌, List, [], String}
use cuda_fractal_engine_stat.Override.Error.{OverrideError, ok, err}
use cuda_fractal_engine_stat.Json.Document.{
  Json, obj, Fields, end, lookup, keys, IsStrict, IsStrictFields,
}
use cuda_fractal_engine_stat.Override.Diff.{domains_of}
use cuda_fractal_engine_stat.Override.Diff.Same.{diff_values_same}
use cuda_fractal_engine_stat.Override.Diff.Runs.{Lacks, diff_values-fails}
use cuda_fractal_engine_stat.Override.Validate.{validate_params_and_view}
use cuda_fractal_engine_stat.Override.Parse.{parse_state_override}
use cuda_fractal_engine_stat.Override.Materialize.{
  PacketOverrideAuthorities, Candidate, state_bytes, written, merge_state, merge_domain, prepare,
  report, outcome_of, candidate_bytes, materialize_state_override, requested_paths_of,
}

-- A prepared candidate is written, whatever the report comes to.
materialize-prepared :
    (a : PacketOverrideAuthorities) (inside : Bool) (document : Json) (override merged : Fields)
    (c : Candidate) (edits : List String)
    → prepare a inside document ≡ ok (override, merged, c, edits)
    → materialize_state_override a inside document
      ≡ written c (report a.state override merged edits)
unfolding materialize_state_override
materialize-prepared a inside document override merged c edits h = ap (outcome_of a) h

prepare-empty :
    (a : PacketOverrideAuthorities) (edits : List String)
    → validate_params_and_view end a.state a.authoring_surface ≡ ok edits
    → prepare a false (obj end) ≡ ok (end, a.state, state_bytes, edits)
unfolding prepare parse_state_override merge_state merge_domain candidate_bytes lookup keys
prepare-empty a edits valid = rw valid

report-empty :
    (base : Fields) (edits : List String)
    → IsStrictFields base
    → report base end base edits
      ≡ ok (record {
        empty_override_byte_exact = true;
        requested_paths = [];
        changed_paths = [];
        conceptual_domains = [];
        camera_edits = edits;
        apply_loaded_color_pipeline_draft = false;
      })
unfolding report IsStrict requested_paths_of domains_of lookup
report-empty base edits u = rw (diff_values_same (obj base) "" u)

-- Where the packet's state repeats no key and holds no NaN and the checks of the authoring surface
-- pass for the empty override, that override writes the packet's own bytes and reports no change.
pub materialize-empty :
    (a : PacketOverrideAuthorities) (edits : List String)
    → IsStrictFields a.state
    → validate_params_and_view end a.state a.authoring_surface ≡ ok edits
    → materialize_state_override a false (obj end)
      ≡ written state_bytes (
          ok (record {
            empty_override_byte_exact = true;
            requested_paths = [];
            changed_paths = [];
            conceptual_domains = [];
            camera_edits = edits;
            apply_loaded_color_pipeline_draft = false;
          }))
materialize-empty a edits u valid =
    materialize-prepared a false (obj end) end a.state state_bytes edits
      (prepare-empty a edits valid)
    ∙ ap (written state_bytes) (report-empty a.state edits u)

-- Where a document is prepared and its merged state lacks a key of the packet's state in objects that
-- meet, at any depth, the candidate has been written and the call raises all the same.
pub materialize-Lacks :
    (a : PacketOverrideAuthorities) (document : Json) (override merged : Fields) (c : Candidate)
    (edits : List String)
    → prepare a false document ≡ ok (override, merged, c, edits)
    → Lacks (obj a.state) (obj merged)
    → (e : OverrideError) × (materialize_state_override a false document ≡ written c (err e))
unfolding report
materialize-Lacks a document override merged c edits h l =
    let (e, raises) = diff_values-fails l "" in
    (
      e,
      materialize-prepared a false document override merged c edits h ∙ ap (written c) (rw raises),
    )
