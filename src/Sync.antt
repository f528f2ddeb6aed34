-- ===== src/Sync.antt =====
-- The authorization module: synchronization jobs and the services that queue, run, watch and report
-- them (src/modules/authorization).
pub mod Job
pub mod Outbox
pub mod Store
pub mod Service
pub mod InFlight
pub mod Queueing
pub mod Claim
pub mod Watchdog
pub mod Status
pub mod Summary
pub mod Scanner
pub mod Sweep
pub mod Recovery
pub mod Lock
pub mod Worker
pub mod Batches
pub mod Quiet
pub mod Settled
pub mod Ended
pub mod Cycle
pub mod Tests
mod WorkerTests
