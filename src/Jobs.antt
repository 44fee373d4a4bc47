-- ===== src/Jobs.antt =====
-- src/server/jobs.rs: the job registry. Each section of code that holds the registry's lock is a
-- function of the state; `World` has the threads that run between those sections.
pub mod Types
pub mod State
pub mod Admission
pub mod Queue
pub mod Handle
pub mod Retention
pub mod World
pub mod Slots
pub mod Load
pub mod Arrivals
pub mod Places
pub mod Rounds
pub mod Keys
pub mod Ranking
pub mod Pruning
pub mod Schedules
pub mod Opening
pub mod Bounds
pub mod Occupancy
pub mod Typing
pub mod Writers
pub mod Dispatcher
pub mod Progress
pub mod Outcomes
pub mod Cancelling
pub mod Access
pub mod Privacy
mod Examples
mod OpeningExamples
