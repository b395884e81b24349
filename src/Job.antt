-- ===== src/Job.antt =====
-- src/supa/job: the asynchronous work of SuPA.
pub mod Session
pub mod Scheduler
pub mod Recover
pub mod Register
pub mod Query
pub mod Provision
pub mod Dataplane
pub mod Lifecycle
pub mod Reserve
