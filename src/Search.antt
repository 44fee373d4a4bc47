-- ===== src/Search.antt =====
-- src/search.rs, src/schema.rs, src/storage/search_sql.rs and src/storage/search_text.rs: the query
-- expressions of a search, the fields that a table offers, the SQL condition of an expression and
-- the terms of a full-text search.
pub mod Expr
pub mod Schema
pub mod Fields
pub mod Catalog
pub mod Conditions
pub mod Resolve
pub mod Clauses
pub mod Compile
pub mod Counting
pub mod Alignment
pub mod Bindings
pub mod OperatorBindings
pub mod Placeholders
pub mod Emptiness
pub mod Operators
pub mod References
pub mod Offers
pub mod Terms
pub mod Phrases
pub mod Containment
mod Examples
mod TermExamples
