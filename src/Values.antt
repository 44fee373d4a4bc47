-- ===== src/Values.antt =====
-- src/storage/normalize.rs and src/storage/derived.rs: how a text of a table becomes a number, a
-- year, a key, and the columns that hold such values.
pub mod Keys
pub mod Countries
pub mod Numbers
pub mod Dates
pub mod Derived
pub mod Digits
pub mod Reading
pub mod DateBounds
mod Examples
