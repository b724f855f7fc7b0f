-- ===== src/Response/Tests.antt =====
-- The theorems on permissions, sections and reviews at short documents and texts.
use cuda_fractal_engine_stat.Prelude.{
  ◌≡◌, ◌≢◌, refl, true, false, not, ◌||◌, none, some, List, [], ◌∷◌, String, All, strip,
  split_lines, pos, is_line_end,
}
use cuda_fractal_engine_stat.Json.Document.{
  bool, int, text, arr, obj, nil, cons, Fields, end, field, get, lookup, keys,
}
use cuda_fractal_engine_stat.Json.Paths.{walk_leaves, split_dots}
use cuda_fractal_engine_stat.Override.Validate.{paths_of}
use cuda_fractal_engine_stat.Override.Parse.{parse_state_override}
use cuda_fractal_engine_stat.Override.Draft.Parameters.{has_exactly}
use cuda_fractal_engine_stat.Response.{
  Host, accepted, complete_research, analysis_only, supported, gate_of, classification_of,
  next_action_of,
}
use cuda_fractal_engine_stat.Response.Permissions.{
  ExperimentPermissions, supported_domains, all_in, from_dict, authorizes_path, starts_with,
  authorize_single_override,
}
use cuda_fractal_engine_stat.Response.Permissions.Own.{
  from_dict-authorizes, authorize_single_override-permitted,
}
use cuda_fractal_engine_stat.Response.Sections.{
  contains_fence, join_lines, sections_before_fence, before_fence, skip_blank, parse_sections,
  parse_section, take_content, starts_next, before_colon, after_colon, field_of,
}
use cuda_fractal_engine_stat.Response.Sections.RoundTrip.{
  Section, IsLine, AllWritten, lines_of, headings_of, fields_of, has_line_end, has_colon, head_line,
  sections_before_fence-written,
}
use cuda_fractal_engine_stat.Response.Planner.{first_word}
use cuda_fractal_engine_stat.Response.Review.{
  ReviewDecision, nothing, continues, is_experiment, review_of, parse_outcomes, parse_selection,
  parse_review_response,
}
use cuda_fractal_engine_stat.Response.Review.Sound.{
  Distinct, promotes, selects, parse_review_response-passed,
}

abbrev permissions_document : Fields
permissions_document = field "domains" (arr (cons (text "params") (cons (text "view") nil))) (
    field "allowed_paths" (arr (cons (text "params.alpha") nil))
      (field "allow_scalar_sweep" (bool true) end))

abbrev permissions : ExperimentPermissions
permissions = record {
  domains = "params" ∷ "view" ∷ [];
  allowed_paths = some ("params.alpha" ∷ []);
  allow_scalar_sweep = true;
}

permissions_parse : from_dict (obj permissions_document) ≡ accepted permissions
unfolding from_dict has_exactly keys get lookup split_dots
permissions_parse = refl

from_dict-authorizes_example :
    (all_in supported_domains permissions.domains ≡ true)
    × All (λ path. authorizes_path permissions path ≡ true) ("params.alpha" ∷ [])
from_dict-authorizes_example =
    from_dict-authorizes permissions_document permissions permissions_parse

abbrev override : Fields
override = field "params" (obj (field "alpha" (int (pos 2)) end)) end

override_authorized : authorize_single_override (obj override) permissions ≡ accepted override
unfolding authorize_single_override parse_state_override keys walk_leaves
override_authorized = refl

authorize_single_override-permitted_example :
    (override ≡ override)
    × (paths_of (walk_leaves (obj override) "") ≢ [])
    × All
        (λ path. authorizes_path permissions path ≡ true)
        (paths_of (walk_leaves (obj override) ""))
authorize_single_override-permitted_example =
    authorize_single_override-permitted override override permissions override_authorized

abbrev sections : List Section
sections =
    record { heading = "Proposed answer"; first = "It grows."; more = "Slowly." ∷ [] }
    ∷ record { heading = "Uncertainty"; first = "Small."; more = [] }
    ∷ []

title-IsLine : IsLine "RESEARCH_ACTION: ANSWER_READY"
unfolding has_line_end is_line_end strip
title-IsLine = record { clean = refl; stripped = refl; filled = refl }

answer-IsLine : IsLine "Proposed answer: It grows."
unfolding has_line_end is_line_end strip
answer-IsLine = record { clean = refl; stripped = refl; filled = refl }

grows-IsLine : IsLine "It grows."
unfolding has_line_end is_line_end strip
grows-IsLine = record { clean = refl; stripped = refl; filled = refl }

slowly-IsLine : IsLine "Slowly."
unfolding has_line_end is_line_end strip
slowly-IsLine = record { clean = refl; stripped = refl; filled = refl }

uncertainty-IsLine : IsLine "Uncertainty: Small."
unfolding has_line_end is_line_end strip
uncertainty-IsLine = record { clean = refl; stripped = refl; filled = refl }

small-IsLine : IsLine "Small."
unfolding has_line_end is_line_end strip
small-IsLine = record { clean = refl; stripped = refl; filled = refl }

sections-AllWritten : AllWritten sections
unfolding headings_of has_colon head_line starts_next starts_with
sections-AllWritten = (
  record {
    heading_clean = refl;
    head = answer-IsLine;
    first = grows-IsLine;
    more = (slowly-IsLine, tt);
    apart = (refl, tt);
  },
  (
    record {
      heading_clean = refl;
      head = uncertainty-IsLine;
      first = small-IsLine;
      more = tt;
      apart = tt;
    },
    tt,
  ),
)

sections_unfenced :
    contains_fence (join_lines ("RESEARCH_ACTION: ANSWER_READY" ∷ lines_of sections)) ≡ false
unfolding contains_fence starts_with join_lines lines_of head_line
sections_unfenced = refl

sections_before_fence-written_example :
    sections_before_fence
      (join_lines ("RESEARCH_ACTION: ANSWER_READY" ∷ lines_of sections))
      (headings_of sections)
    ≡ accepted (fields_of sections)
sections_before_fence-written_example =
    sections_before_fence-written "RESEARCH_ACTION: ANSWER_READY" sections title-IsLine
      sections-AllWritten sections_unfenced

abbrev host : Host
host = record {
  decode = λ s. some (
      arr (
        cons
          (obj (
            field "result_identity" (text "single:p1") (
              field "classification" (text "SUPPORTED")
                (field "assessment" (text "It held.") end))))
          nil));
  decode_loosely = λ s. none;
  sha256 = λ s. "sha";
  parse_int = λ s. none;
}

abbrev review_text : String
review_text =
    "RESEARCH_GATE: COMPLETE_RESEARCH\nPrediction outcome: met\nEvidence assessment: good\nObservation outcomes: []\nSelected result: none\nNext action class: ANALYSIS_ONLY\nNext research step: none\nHostile self-review conclusion: sound"

abbrev review : ReviewDecision
review = record {
  gate = complete_research;
  source_text = review_text;
  source_response_sha256 = "sha";
  prediction_outcome = "met";
  evidence_assessment = "good";
  observation_outcomes =
      record { result_identity = "single:p1"; classification = supported; assessment = "It held." }
      ∷ [];
  selected_result = nothing;
  next_action_class = analysis_only;
  next_research_step = "none";
  hostile_self_review_conclusion = "sound";
}

review_parses : parse_review_response host review_text ≡ accepted review
unfolding parse_review_response review_of contains_fence starts_with first_word skip_blank
    split_lines strip gate_of sections_before_fence before_fence parse_sections parse_section
    take_content starts_next before_colon after_colon field_of join_lines classification_of
    next_action_of has_exactly get lookup keys parse_outcomes parse_selection
review_parses = refl

parse_review_response-passed_example :
    (review.observation_outcomes ≢ [])
    × Distinct review.observation_outcomes
    × (promotes review.gate ≡ selects review.selected_result)
    × ((not (continues review.gate) || is_experiment review.next_action_class) ≡ true)
parse_review_response-passed_example =
    parse_review_response-passed host review_text review review_parses
