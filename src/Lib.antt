-- ===== src/Lib.antt =====
-- The CUDA fractal engine state tool takes a captured finding (a packet with the engine's state, an
-- authoring surface and a color pipeline contract) and a sparse override by an agent, merges them
-- into a candidate state, has the engine prove it, and can do so for a bracket of values or in an
-- automated, priced session. This library models its decisions; files, processes, the engine, the
-- network and the user interface stay outside.
--
-- - Prelude: the libraries' names, Python's tests on integers, signed integers, lists.
-- - Json: documents as strict loading returns them. Json.Document has the operations of a `dict`;
--   Json.Equality is Python's `==` and `<` on them, where booleans, ints and floats compare by
--   value; Json.Paths is `_walk_leaves` and `_resolve_path`.
-- - Override: src/cuda_fractal_state_tool/state_override.py, with the contract checks of
--   src/cuda_fractal_state_tool/agent_bundle.py. Parse is `parse_state_override` from the decoded
--   document on, Entry `_authoring_entries` and `_validate_value_against_entry`, Merge
--   `_validate_existing_object_shape` and `_deep_merge_existing`, Validate
--   `_validate_params_and_view`, Topology `_validate_fixed_pipeline_topology`, Draft
--   `_contract_function_index` and `validate_captured_color_pipeline_draft`, Diff `_diff_values` and
--   `_conceptual_domain`, and Materialize `_merged_color_pipeline_draft` and
--   `materialize_state_override`, which calls the others in the source's order. An exception is an
--   error value; a raise after the candidate has been written keeps the candidate in the outcome.
-- - Protocol: src/cuda_fractal_state_tool/automated_protocol.py. Budget has the session's budgets,
--   Transition the legal steps between protocol states, Round the packet of the next round.
-- - Pricing: src/cuda_fractal_state_tool/pricing_policy.py. Policy selects the model that a name is
--   priced as, Cost estimates and charges one call.
-- - Research: `ResearchCostController` of src/cuda_fractal_state_tool/research_cost.py with
--   `ModelProfileV1.validate` of src/cuda_fractal_state_tool/model_profile.py, over Pricing.
-- - Sweep: src/cuda_fractal_state_tool/scalar_sweep.py. Plan is `parse_scalar_sweep_plan`,
--   `_concrete_override` and `validate`, which calls the override engine for its preflight; Run is the
--   member loop of `execute`, whose environment is a function from the member's index to what the
--   loop observes there.
-- - Surface: src/cuda_fractal_state_tool/agent_bundle.py. The controls of a UI schema, their visibility
--   in a state, and, in Axes, `derive_scalar_sweep_axis_projection`.
-- - RunStore: src/cuda_fractal_state_tool/automated_run_store.py. The event log as the texts that
--   appends have written, the active-turn projection and evidence; Log, Recovery, Unreadable and
--   Evidence have what is proved of them. An event's encoding and decoding is a parameter; Sorted has
--   the key order in which what has been written with `sort_keys` is read again.
-- - Response: src/cuda_fractal_state_tool/research_protocol.py. Permissions is `ExperimentPermissions`
--   with the two authorisations, Sections `_sections_before_fence`, Planner `parse_planner_response`
--   and `round_plan_document`, Review `parse_review_response`. JSON decoding, SHA-256 and Python's
--   `int` of a text are a record of parameters, `Host`.
-- - Session: `ResearchSessionController` of src/cuda_fractal_state_tool/research_session.py over Response
--   and RunStore. State has the controller's fields and the steps that its operations are made of,
--   each of which returns or raises and keeps what was changed before; Planning, Execution and Review
--   have one operation each, with Validation and Outcomes for the checks of a planner's experiment and
--   of a review's outcomes. Services are parameters of each call, so they may answer differently each
--   time; Hoare has the rules by which the operations are proved, Runs a run of calls.
-- - Runner: the rounds of `ResearchSessionRunner.run` of
--   src/cuda_fractal_state_tool/research_runner.py over Session: the planner's dispatch with its one
--   correction, the execution and its blocker, the review, and the check after the loop. The loop
--   takes a list with one record of parameters for each round (the contexts with the prior ledger, the
--   provider, the services and the disk); one more than the brief's rounds is enough.
-- - Compare: src/cuda_fractal_state_tool/state_compare.py, `compare_json_documents`.
--
-- Floats are exact: a finite double is a count of 2 ^ -1074, an int compares with it by value, and an
-- int of 2 ^ 1024 - 2 ^ 970 or more makes `math.isfinite` raise. Dollar amounts are counted in one
-- quantum and a division rounds down to it, where `Decimal` has 28 digits. Every recursion is
-- structural but `decimal`, whose fuel of one more than the number is enough since each round divides
-- by ten. Text decoding, hashing, file writes, subprocesses, threads, the provider's transport,
-- the presentation of sweeps and the Tk application are not modelled.
pub mod Prelude
pub mod Json
pub mod Override
pub mod Protocol
pub mod Pricing
pub mod Research
pub mod Sweep
pub mod Compare
pub mod Surface
pub mod RunStore
pub mod Response
pub mod Runner
pub mod Session
