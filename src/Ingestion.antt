-- ===== src/Ingestion.antt =====
-- Snapshots of the match data and their download, src/data/ingestion.py.
pub mod Csv
pub mod Store
pub mod Fresh
pub mod Fetch
pub mod Sound
pub mod Served
pub mod Attempts
pub mod Bounded
mod Tests
