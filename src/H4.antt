-- ===== src/H4.antt =====
-- The prospective H4 cohort and its gate, src/h4_gate.py.
pub mod Closure
pub mod Signals
pub mod Accepted
pub mod Cohort
pub mod Build
pub mod Roundtrip
pub mod Ready
pub mod Gate
mod Tests
