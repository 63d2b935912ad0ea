-- ===== src/Scheduler.antt =====
-- The scheduler's core: backend/scheduler/core/.
pub mod Classifier
pub mod Targets
pub mod SentIds
pub mod Metadata
pub mod Issues
pub mod Lifecycle
pub mod Runner
pub mod Worker
pub mod Queue
