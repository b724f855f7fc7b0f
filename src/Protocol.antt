-- ===== src/Protocol.antt =====
-- automated_protocol.py: what one automated session may do.
pub mod Budget
pub mod Transition
pub mod Round
mod Tests
