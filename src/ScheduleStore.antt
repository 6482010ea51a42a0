-- ===== src/ScheduleStore.antt =====
-- The schedule store.
pub mod Types
pub mod Validate
pub mod Bytestream
pub mod Encode
pub mod Decode
pub mod Compare
pub mod Load
pub mod Commit
mod Equality
mod Slots
pub mod Durable
pub mod Reads
mod Commits
mod Failures
mod Races
pub mod Accepted
pub mod Tests
