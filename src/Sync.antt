-- ===== src/Sync.antt =====
-- Synchronisation cycles: the sources and sync sessions of the database, the services that move
-- them (packages/backend/src/services) and the jobs that run a cycle (packages/backend/src/jobs).
pub mod Model
pub mod StateMerge
pub mod Source
pub mod Session
pub mod Cycle
pub mod Counting
pub mod Claims
pub mod Finish
pub mod Sweep
pub mod Merging
pub mod Tests
