-- ===== src/Job/Reserve.antt =====
-- src/supa/job/reserve.py: the jobs that check, commit, abort and time out a reservation.
pub mod Commit
pub mod Abort
pub mod Timeout
pub mod Resources
pub mod Stp
pub mod Hold
