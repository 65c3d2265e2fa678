-- ===== src/Worker.antt =====
-- src/worker: the process on the training host.
pub mod Ports
pub mod CancelWatcher
pub mod Lock
pub mod OrphanReconciler
pub mod DockerRunner
pub mod ProgressReader
pub mod JobPoller
pub mod Heartbeat
pub mod JobCompletion
pub mod DiskManager
pub mod DatasetFetcher
pub mod Main
pub mod Wiring
mod Tests
mod StartTests
mod WiringTests
mod LockTests
