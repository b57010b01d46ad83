-- ===== src/Draft.antt =====
-- The observations and chains of the draft study, src/draft_shadow.py.
pub mod Raw
pub mod Observation
pub mod Contract
pub mod Normalized
pub mod Chain
pub mod Ordered
mod Tests
