-- ===== src/Session.antt =====
-- `ResearchSessionController` of src/cuda_fractal_state_tool/research_session.py: its state and the
-- steps that its operations are made of in `State`, one module for each operation, and their proofs.
pub mod State
pub mod Outcomes
pub mod Validation
pub mod Hoare
pub mod Invariant
pub mod Runs
pub mod Promotion
pub mod Stranded
pub mod Tests
pub mod Planning
pub mod Execution
pub mod Review
