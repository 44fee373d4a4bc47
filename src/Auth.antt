-- ===== src/Auth.antt =====
-- src/server/auth.rs: accounts, sessions and permissions.
pub mod Roles
pub mod Tables
pub mod Accounts
pub mod Sessions
pub mod Calls
pub mod Owners
pub mod LastOwner
pub mod Access
pub mod SessionRows
pub mod SessionLimit
pub mod SessionCalls
pub mod Requests
pub mod Gate
pub mod Migration
mod Examples
