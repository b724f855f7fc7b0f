-- ===== src/Research.antt =====
-- research_cost.py: the dollar gate of a research run.
pub mod Gate
mod Tests
