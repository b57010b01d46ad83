-- ===== src/Execution.antt =====
-- Orders sent to the exchange, src/execution_polymarket.py.
pub mod Answers
pub mod Orders
pub mod Responses
pub mod Outcome
pub mod Layers
pub mod Calls
pub mod Ledger
pub mod Views
pub mod Interleave
pub mod Once
pub mod Serial
pub mod Safety
pub mod Frozen
pub mod Lawful
pub mod Machine
pub mod Defects
mod Tests
