-- ===== src/Diff.antt =====
-- backend/src/modules/metadata/diff_engine.ts and engine_capabilities.ts: the changes that bring the
-- live catalog to a declared manifest. What the catalog queries answer is an argument.
pub mod Engines
pub mod Model
pub mod Columns
pub mod Resources
pub mod Compare
pub mod Sorting
pub mod Entries
pub mod Order
pub mod Quarantine
pub mod Converge
mod Tests
