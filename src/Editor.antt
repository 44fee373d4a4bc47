-- ===== src/Editor.antt =====
-- src/app/advanced_query.rs: the edits of a query by its chips.
pub mod Chips
pub mod Actions
pub mod Undo
mod Examples
