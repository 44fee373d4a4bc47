-- ===== src/Network.antt =====
-- src/server/network.rs and src/server/security.rs: which addresses the server trusts, and the
-- checks of every request before any handler sees it.
pub mod Addresses
pub mod Interfaces
pub mod Authorities
pub mod Policy
pub mod Guarded
pub mod Ranges
pub mod Listing
mod Examples
