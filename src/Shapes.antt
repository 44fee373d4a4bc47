-- ===== src/Shapes.antt =====
-- src/domain/table.rs and src/storage/table_shape.rs: the columns of a source table, their ids,
-- and the merging of tables into one shape.
pub mod Columns
pub mod Headers
pub mod Merging
pub mod Decimals
pub mod FreshIds
pub mod Merged
pub mod Landing
mod Examples
