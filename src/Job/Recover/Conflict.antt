-- ===== src/Job/Recover/Conflict.antt =====
-- Where the recovery of jobs fails.
use su_pa.Base.{ℕ, ◌≤◌, ◌≡◌, true, List, none, some, arith, ◌⊎◌, inl, inr}
use su_pa.Connection.Fsm.{is_created}
use su_pa.Db.Model.{Reservation}
use su_pa.Job.Session.{JobKind, provision_job, activate_job}
use su_pa.Job.Scheduler.{JobId, Scheduler}
use su_pa.Job.Recover.{
  is_provisioning, is_activating, ends_later, find_reservation, recovered_jobs, recover_jobs,
}
use su_pa.Job.Recover.Added.{count, add_jobs-twice}
use su_pa.Job.Recover.Counts.{
  HasUniqueConnections, count_schedules, kinds, rows_of, count-recovered_jobs,
}

twice :
    (j : JobId) (now : ℕ) (ks : List JobKind) (rs : List Reservation)
    → HasUniqueConnections rs
    → kinds j.kind ks ≡ 1
    → 2 ≤ rows_of now j.kind (find_reservation j.connection_id rs)
    → 2 ≤ count j (recovered_jobs now ks rs)
twice j now ks rs unique once many =
    rw (count-recovered_jobs j now ks rs unique, once) (omega (arith, many))

-- If a created reservation is being provisioned or activated and two of its schedules, of the former
-- and of the modified version, end later, then `recover_jobs` raises an exception, whatever other
-- reservations there are.
pub recover_jobs-conflict :
    (scheduler : Scheduler) (now : ℕ) (registry : List JobKind) (rs : List Reservation)
    (s : scheduler.State) (i : ℕ) (r : Reservation)
    → HasUniqueConnections rs
    → ((k : JobKind) → kinds k registry ≡ 1)
    → find_reservation i rs ≡ some r
    → is_created r.lifecycle_state ≡ true
    → (is_provisioning r.provision_state ≡ true) ⊎ (is_activating r.data_plane_state ≡ true)
    → 2 ≤ count_schedules (ends_later now r) r.schedules
    → recover_jobs scheduler now registry rs s ≡ none
unfolding recover_jobs
recover_jobs-conflict scheduler now registry rs s i r unique once found created (inl e) many =
    add_jobs-twice scheduler (recovered_jobs now registry rs) rs s job
      (twice job now registry rs unique (once provision_job) (rw (found, created, e) many))
  where
    job : JobId
    job = record { kind = provision_job; connection_id = i }
recover_jobs-conflict scheduler now registry rs s i r unique once found created (inr e) many =
    add_jobs-twice scheduler (recovered_jobs now registry rs) rs s job
      (twice job now registry rs unique (once activate_job) (rw (found, created, e) many))
  where
    job : JobId
    job = record { kind = activate_job; connection_id = i }
