-- ===== src/Bitcask.antt =====
-- storage/bitcask.rs: the engine, in parts.
pub mod State
pub mod Write
pub mod Read
pub mod Readers
pub mod Outcome
pub mod Invariant
pub mod Lookup
pub mod Steps
pub mod Appended
pub mod After
pub mod Calm
pub mod Concurrent
pub mod Engine
pub mod Published
pub mod Refines
pub mod Loader
pub mod Merge
pub mod Open
pub mod Durable
pub mod Close
mod Tests
