-- ===== src/Sweep.antt =====
-- scalar_sweep.py: a bracket of values for one parameter, proved one member after another.
pub mod Run
pub mod Plan
mod Tests
mod PlanTests
