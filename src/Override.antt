-- ===== src/Override.antt =====
-- state_override.py: a sparse override is validated against the packet and merged into its state.
pub mod Error
pub mod Parse
pub mod Entry
pub mod Merge
pub mod Validate
pub mod Topology
pub mod Draft
pub mod Diff
pub mod Materialize
mod Tests
mod PipelineTests
