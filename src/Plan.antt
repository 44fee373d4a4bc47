-- ===== src/Plan.antt =====
-- src/storage/query_plan.rs with the parts of src/storage/analytics_columns.rs and
-- src/storage/effective_rows.rs that it uses: the condition and the values of a whole search.
pub mod Sources
pub mod Filters
pub mod Build
pub mod SourceTexts
pub mod Bindings
pub mod Placeholders
mod Examples
