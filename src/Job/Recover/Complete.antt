-- ===== src/Job/Recover/Complete.antt =====
-- What the recovery of jobs puts into the scheduler.
use mathlib.Core.Path.{subst}
use su_pa.Base.{
  ℕ, ◌≤◌, ◌≡◌, refl, Bool, true, false, ◌&&◌, List, [], ◌∷◌, Option, none, some, ◌==◌, leb,
  if◌then◌else◌, arith, All, Option-cases, Bool-cases, inl, inr, ◌∙◌,
}
use su_pa.Connection.Fsm.{is_created, is_terminating, is_auto_start, is_auto_end}
use su_pa.Db.Model.{Reservation, Schedule, schedule}
use su_pa.Job.Session.{
  JobKind, reserve_job, reserve_commit_job, reserve_abort_job, reserve_timeout_job, provision_job,
  release_job, activate_job, deactivate_job, auto_start_job, auto_end_job, terminate_job, Trigger,
  at, immediately, hold_timeout,
}
use su_pa.Job.Scheduler.{JobId, same_job_refl, Scheduler}
use su_pa.Job.Recover.{
  is_reserve_checking, is_reserve_held, is_reserve_committing, is_reserve_aborting, is_provisioning,
  is_releasing, is_activating, is_deactivating, ends_later, current_ends_later, find_reservation,
  trigger, recovered_jobs, recover_jobs,
}
use su_pa.Job.Recover.Added.{count, Triggered, Adds, add_jobs-Adds}
use su_pa.Job.Recover.Counts.{
  HasUniqueConnections, count_schedules, kinds, rows, count-recovered_jobs,
}

-- A schedule ends later.
abbrev pub any_later : ℕ → Reservation → Bool
any_later now r = leb 1 (count_schedules (ends_later now r) r.schedules)

abbrev pub current_later : ℕ → Reservation → Bool
current_later now r = leb 1 (count_schedules (current_ends_later now r) r.schedules)

-- The work of the class is outstanding for the reservation.
abbrev pub is_outstanding : ℕ → JobKind → Reservation → Bool
is_outstanding now reserve_job r = is_reserve_checking r.reservation_state
is_outstanding now reserve_commit_job r = is_reserve_committing r.reservation_state
is_outstanding now reserve_abort_job r = is_reserve_aborting r.reservation_state
is_outstanding now reserve_timeout_job r = is_reserve_held r.reservation_state
is_outstanding now provision_job r =
    is_created r.lifecycle_state && is_provisioning r.provision_state && any_later now r
is_outstanding now release_job r = is_created r.lifecycle_state && is_releasing r.provision_state
is_outstanding now activate_job r =
    is_created r.lifecycle_state && is_activating r.data_plane_state && any_later now r
is_outstanding now deactivate_job r = is_deactivating r.data_plane_state
is_outstanding now auto_start_job r =
    is_created r.lifecycle_state && is_auto_start r.data_plane_state && current_later now r
is_outstanding now auto_end_job r = is_auto_end r.data_plane_state
is_outstanding now terminate_job r = is_terminating r.lifecycle_state

abbrev pub is_outstanding_for : ℕ → JobKind → Option Reservation → Bool
is_outstanding_for now k none = false
is_outstanding_for now k (some r) = is_outstanding now k r

-- The reservation has a current schedule, at most one of them with the current version, and at most
-- one that ends later.
pub record IsRecoverable (now : ℕ) (r : Reservation) : Type 0 where
  pub current : Schedule
  pub scheduled : schedule r ≡ some current
  pub later_once : count_schedules (ends_later now r) r.schedules ≤ 1
  pub current_once : count_schedules (current_ends_later now r) r.schedules ≤ 1

rows-le-one :
    (now : ℕ) (k : JobKind) (r : Reservation)
    → IsRecoverable now r
    → rows now k r ≡ (if is_outstanding now k r then 1 else 0)
rows-le-one now provision_job r h = ground (arith, h.later_once)
rows-le-one now activate_job r h = ground (arith, h.later_once)
rows-le-one now auto_start_job r h = ground (arith, h.current_once)
rows-le-one now _ r h = ground arith

recoverable :
    (now i : ℕ) (rs : List Reservation) (r : Reservation)
    → All (IsRecoverable now) rs
    → find_reservation i rs ≡ some r
    → IsRecoverable now r
unfolding find_reservation
recoverable now i [] r h e = absurd (cc)
recoverable now i (u ∷ rs) r h e = elim (Bool-cases (u.connection_id == i)) [
  | inl same ↦ let here : u ≡ r = ground arith in subst (λ x. IsRecoverable now x) here h.0
  | inr other ↦ recoverable now i rs r h.1 (ground arith)
]

count-outstanding :
    (j : JobId) (now : ℕ) (registry : List JobKind) (rs : List Reservation)
    → HasUniqueConnections rs
    → All (IsRecoverable now) rs
    → kinds j.kind registry ≡ 1
    → count j (recovered_jobs now registry rs)
      ≡ (if is_outstanding_for now j.kind (find_reservation j.connection_id rs) then 1 else 0)
count-outstanding j now registry rs unique all once =
    count-recovered_jobs j now registry rs unique
    ∙ rw once (elim (Option-cases (find_reservation j.connection_id rs)) [
      | inl e ↦ rw e refl
      | inr (r, e) ↦
          rw e
            (ground (arith, rows-le-one now j.kind r (recoverable now j.connection_id rs r all e)))
    ])

trigger_of_kind :
    (k : JobKind) (i : ℕ) (rs : List Reservation) (r : Reservation) (s : Schedule)
    → find_reservation i rs ≡ some r
    → schedule r ≡ some s
    → (t : Trigger) × (trigger (record { kind = k; connection_id = i }) rs ≡ some t)
unfolding trigger
trigger_of_kind auto_start_job i rs r s e f = (at s.start_time, rw (e, f) refl)
trigger_of_kind auto_end_job i rs r s e f = (at s.end_time, rw (e, f) refl)
trigger_of_kind reserve_timeout_job i rs r s e f = (hold_timeout, rw (trigger, e) refl)
trigger_of_kind _ i rs r s e f = (immediately, refl)

All-count : (P : JobId → Type 0) (js : List JobId) → ((j : JobId) → 1 ≤ count j js → P j) → All P js
All-count P [] h = tt
All-count P (k ∷ ks) h =
    (h k (ground (arith, same_job_refl k)), All-count P ks (λ j c. h j (omega (arith, c))))

-- An outstanding job has a reservation, which has a schedule, so that the job has a trigger.
trigger-outstanding :
    (now : ℕ) (j : JobId) (rs : List Reservation)
    → All (IsRecoverable now) rs
    → is_outstanding_for now j.kind (find_reservation j.connection_id rs) ≡ true
    → (t : Trigger) × (trigger j rs ≡ some t)
trigger-outstanding now j rs all h = elim (Option-cases (find_reservation j.connection_id rs)) [
  | inl e ↦ absurd (ground arith)
  | inr (r, e) ↦
      let c = recoverable now j.connection_id rs r all e in
      trigger_of_kind j.kind j.connection_id rs r c.current e c.scheduled
]

-- If the reservations have different connection IDs, each has a current schedule, and no more than
-- one that ends later, and if the scheduler has none of the jobs, then `recover_jobs` succeeds: the
-- scheduler then has, with its trigger, the job of each class for each reservation for which the work
-- of the class is outstanding, and no other.
pub recover_jobs-recovers :
    (scheduler : Scheduler) (now : ℕ) (registry : List JobKind) (rs : List Reservation)
    (s : scheduler.State)
    → HasUniqueConnections rs
    → All (IsRecoverable now) rs
    → ((k : JobKind) → kinds k registry ≡ 1)
    → ((j : JobId) → scheduler.get_job s j ≡ none)
    → (s' : scheduler.State) × (recover_jobs scheduler now registry rs s ≡ some s')
      × ((j : JobId)
          → scheduler.get_job s' j ≡ (
              if is_outstanding_for now j.kind (find_reservation j.connection_id rs)
              then trigger j rs
              else none))
unfolding recover_jobs
recover_jobs-recovers scheduler now registry rs s unique all once fresh =
    (adds.0, adds.1, λ j. adds.2 j ∙ ground (arith, fresh j, counted j))
  where
    counted :
        (j : JobId)
        → count j (recovered_jobs now registry rs)
          ≡ (if is_outstanding_for now j.kind (find_reservation j.connection_id rs) then 1 else 0)
    counted j = count-outstanding j now registry rs unique all (once j.kind)

    triggered : Triggered rs (recovered_jobs now registry rs)
    triggered = All-count _ _ λ j c. trigger-outstanding now j rs all (ground (arith, counted j))

    adds : Adds scheduler (recovered_jobs now registry rs) rs s
    adds =
        add_jobs-Adds scheduler (recovered_jobs now registry rs) rs s triggered
          λ j. ground (arith, fresh j, counted j)
