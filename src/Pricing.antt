-- ===== src/Pricing.antt =====
-- pricing_policy.py: which model a name is priced as, and what one call costs.
pub mod Policy
pub mod Cost
mod Tests
