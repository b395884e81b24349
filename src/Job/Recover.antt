-- ===== src/Job/Recover.antt =====
-- `recover` and `trigger` of the job classes, and `recover_jobs` of src/supa/__init__.py, which puts the
-- jobs of an interrupted run back into the scheduler. The classes for queries and for the health
-- check recover nothing and are left out.
pub mod Added
pub mod Counts
pub mod Complete
pub mod Conflict
use su_pa.Base.{
  ℕ, ◌+◌, Bool, true, false, ◌&&◌, List, [], ◌∷◌, ◌++◌, Option, none, some, ltb, ◌==◌, length,
  if◌then◌else◌,
}
use su_pa.Connection.Fsm.{
  ReservationState, ProvisionState, LifecycleState, DataPlaneState, reserve_checking, reserve_held,
  reserve_committing, reserve_aborting, provisioning, releasing, activating, deactivating,
  is_created, is_terminating, is_auto_start, is_auto_end,
}
use su_pa.Db.Model.{Reservation, Schedule, schedule}
use su_pa.Job.Session.{
  JobKind, reserve_job, reserve_commit_job, reserve_abort_job, reserve_timeout_job, provision_job,
  release_job, activate_job, deactivate_job, auto_start_job, auto_end_job, terminate_job, Trigger,
  immediately, hold_timeout, at,
}
use su_pa.Job.Scheduler.{JobId, Scheduler}

-- `Reservation.reservation_state == ….value`.
abbrev pub is_reserve_checking : ReservationState → Bool
is_reserve_checking reserve_checking = true
is_reserve_checking _ = false

abbrev pub is_reserve_held : ReservationState → Bool
is_reserve_held reserve_held = true
is_reserve_held _ = false

abbrev pub is_reserve_committing : ReservationState → Bool
is_reserve_committing reserve_committing = true
is_reserve_committing _ = false

abbrev pub is_reserve_aborting : ReservationState → Bool
is_reserve_aborting reserve_aborting = true
is_reserve_aborting _ = false

abbrev pub is_provisioning : Option ProvisionState → Bool
is_provisioning (some provisioning) = true
is_provisioning _ = false

abbrev pub is_releasing : Option ProvisionState → Bool
is_releasing (some releasing) = true
is_releasing _ = false

abbrev pub is_activating : Option DataPlaneState → Bool
is_activating (some activating) = true
is_activating _ = false

abbrev pub is_deactivating : Option DataPlaneState → Bool
is_deactivating (some deactivating) = true
is_deactivating _ = false

-- `query(Reservation.connection_id).filter(…)`.
unfoldable pub select : (Reservation → Bool) → List Reservation → List ℕ
select p [] = []
select p (r ∷ rs) = let rest = select p rs in if p r then r.connection_id ∷ rest else rest

-- The rows of one reservation with each of its schedules that a condition lets through.
abbrev pub joined : ℕ → (Schedule → Bool) → List Schedule → List ℕ
joined i p [] = []
joined i p (s ∷ ss) = let rest = joined i p ss in if p s then i ∷ rest else rest

-- `query(Reservation.connection_id).join(Schedule).filter(…)`: a row for each schedule.
unfoldable pub select_joined :
    (Reservation → Bool) → (Reservation → Schedule → Bool) → List Reservation → List ℕ
select_joined p q [] = []
select_joined p q (r ∷ rs) =
    let rest = select_joined p q rs in
    if p r then joined r.connection_id (q r) r.schedules ++ rest else rest

-- `Reservation.version == Schedule.version, Schedule.end_time > current_timestamp()`.
abbrev pub ends_later : ℕ → Reservation → Schedule → Bool
ends_later now r s = ltb now s.end_time

abbrev pub current_ends_later : ℕ → Reservation → Schedule → Bool
current_ends_later now r s = r.version == s.version && ltb now s.end_time

-- `recover` of the class.
unfoldable pub recover : ℕ → JobKind → List Reservation → List ℕ
unfolding select select_joined
recover now reserve_job rs = select (λ r. is_reserve_checking r.reservation_state) rs
recover now reserve_commit_job rs = select (λ r. is_reserve_committing r.reservation_state) rs
recover now reserve_abort_job rs = select (λ r. is_reserve_aborting r.reservation_state) rs
recover now reserve_timeout_job rs = select (λ r. is_reserve_held r.reservation_state) rs
recover now provision_job rs =
    select_joined (λ r. is_created r.lifecycle_state && is_provisioning r.provision_state)
      (ends_later now) rs
recover now release_job rs =
    select (λ r. is_created r.lifecycle_state && is_releasing r.provision_state) rs
recover now activate_job rs =
    select_joined (λ r. is_created r.lifecycle_state && is_activating r.data_plane_state)
      (ends_later now) rs
recover now deactivate_job rs = select (λ r. is_deactivating r.data_plane_state) rs
recover now auto_start_job rs =
    select_joined (λ r. is_created r.lifecycle_state && is_auto_start r.data_plane_state)
      (current_ends_later now) rs
recover now auto_end_job rs = select (λ r. is_auto_end r.data_plane_state) rs
recover now terminate_job rs = select (λ r. is_terminating r.lifecycle_state) rs

abbrev pub jobs_of : JobKind → List ℕ → List JobId
jobs_of k [] = []
jobs_of k (i ∷ is) = record { kind = k; connection_id = i } ∷ jobs_of k is

-- `recovered_jobs`, for the classes of `Job.registry`.
unfoldable pub recovered_jobs : ℕ → List JobKind → List Reservation → List JobId
unfolding recover
recovered_jobs now [] rs = []
recovered_jobs now (k ∷ ks) rs = jobs_of k (recover now k rs) ++ recovered_jobs now ks rs

-- `query(Reservation).filter(Reservation.connection_id == …).one()`.
unfoldable pub find_reservation : ℕ → List Reservation → Option Reservation
find_reservation i [] = none
find_reservation i (r ∷ rs) = if r.connection_id == i then some r else find_reservation i rs

abbrev pub at_start : Option Schedule → Option Trigger
at_start none = none
at_start (some s) = some (at s.start_time)

abbrev pub at_end : Option Schedule → Option Trigger
at_end none = none
at_end (some s) = some (at s.end_time)

abbrev pub schedule_of : Option Reservation → Option Schedule
schedule_of none = none
schedule_of (some r) = schedule r

-- `trigger` of the class; none is a NoResultFound or an AttributeError.
unfoldable pub trigger : JobId → List Reservation → Option Trigger
unfolding find_reservation
trigger j rs = elim (j.kind) [
  | auto_start_job ↦ at_start (schedule_of (find_reservation j.connection_id rs))
  | auto_end_job ↦ at_end (schedule_of (find_reservation j.connection_id rs))
  | reserve_timeout_job ↦ (elim (find_reservation j.connection_id rs) [
    | none ↦ none
    | some r ↦ some hold_timeout
  ])
  | _ ↦ some immediately
]

-- The run date of a hold's timeout: counted from the creation of a new reservation, or from the last
-- change of a modified one.
unfoldable pub timeout_date : ℕ → ℕ → ℕ → Reservation → ℕ
timeout_date create_date last_modified reserve_timeout r =
    (if length r.schedules == 1 then create_date else last_modified) + reserve_timeout

module _ (scheduler : Scheduler) where
  open scheduler use {State, add_job}

  abbrev pub add_triggered : Option Trigger → JobId → State → Option State
  add_triggered none j s = none
  add_triggered (some t) j s = add_job j t s

  -- `for job in recovered_jobs: scheduler.add_job(…)`; none is an exception.
  unfoldable pub add_jobs : List JobId → List Reservation → State → Option State
  add_jobs [] rs s = some s
  add_jobs (j ∷ js) rs s = elim (add_triggered (trigger j rs) j s) [
    | none ↦ none
    | some s' ↦ add_jobs js rs s'
  ]

  -- `recover_jobs`.
  unfoldable pub recover_jobs : ℕ → List JobKind → List Reservation → State → Option State
  unfolding add_jobs recovered_jobs
  recover_jobs now registry rs s = add_jobs (recovered_jobs now registry rs) rs s
