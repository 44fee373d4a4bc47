-- ===== src/LoginLimit.antt =====
-- src/server/login_limit.rs: the login backoff, by peer address and by name.
pub mod Buckets
pub mod Names
pub mod Limiter
pub mod Sizes
pub mod Soundness
pub mod Runs
pub mod Waits
pub mod Independence
mod Examples
