-- ===== src/Pushdown.antt =====
-- backend/src/modules/query-engine/pushdown.ts: the canonical query as SQL text with its values
-- apart, in Statement. A missing list is the empty one, which the code treats alike; limits and
-- percentages are integers. Filters are those that the policies merge.
pub mod Names
pub mod Grouping
pub mod Conditions
pub mod Statement
pub mod Counts
pub mod Balance
pub mod Shaped
pub mod Shapes
pub mod Grouped
pub mod Sessions
pub mod Whole
mod Tests
