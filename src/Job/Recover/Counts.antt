-- ===== src/Job/Recover/Counts.antt =====
-- How often a job is recovered: the rows that the query of its class has for its reservation.
use su_pa.Base.{
  ℕ, ◌+◌, ◌≡◌, refl, Bool, true, false, ◌&&◌, List, [], ◌∷◌, ◌++◌, Option, none, some, ◌==◌,
  if◌then◌else◌, arith, ◌∙◌, ◌*◌, Bool-cases, inl, inr,
}
use su_pa.Connection.Fsm.{is_created, is_terminating, is_auto_start, is_auto_end}
use su_pa.Db.Model.{Reservation, Schedule}
use su_pa.Job.Session.{
  JobKind, reserve_job, reserve_commit_job, reserve_abort_job, reserve_timeout_job, provision_job,
  release_job, activate_job, deactivate_job, auto_start_job, auto_end_job, terminate_job,
}
use su_pa.Job.Scheduler.{JobId, same_kind, same_kind-eq}
use su_pa.Job.Recover.{
  is_reserve_checking, is_reserve_held, is_reserve_committing, is_reserve_aborting, is_provisioning,
  is_releasing, is_activating, is_deactivating, select, joined, select_joined, ends_later,
  current_ends_later, recover, jobs_of, recovered_jobs, find_reservation,
}
use su_pa.Job.Recover.Added.{count}

-- No two reservations have the same connection ID.
abbrev pub HasUniqueConnections : List Reservation → Type 0
HasUniqueConnections [] = Unit
HasUniqueConnections (r ∷ rs) =
    (find_reservation r.connection_id rs ≡ none) × HasUniqueConnections rs

abbrev pub count_id : ℕ → List ℕ → ℕ
count_id i [] = 0
count_id i (k ∷ ks) = (if k == i then 1 else 0) + count_id i ks

abbrev pub count_schedules : (Schedule → Bool) → List Schedule → ℕ
count_schedules p [] = 0
count_schedules p (s ∷ ss) = (if p s then 1 else 0) + count_schedules p ss

-- The rows that the query of a class has for a reservation.
abbrev pub rows : ℕ → JobKind → Reservation → ℕ
rows now reserve_job r = if is_reserve_checking r.reservation_state then 1 else 0
rows now reserve_commit_job r = if is_reserve_committing r.reservation_state then 1 else 0
rows now reserve_abort_job r = if is_reserve_aborting r.reservation_state then 1 else 0
rows now reserve_timeout_job r = if is_reserve_held r.reservation_state then 1 else 0
rows now provision_job r =
    if is_created r.lifecycle_state && is_provisioning r.provision_state
    then count_schedules (ends_later now r) r.schedules
    else 0
rows now release_job r =
    if is_created r.lifecycle_state && is_releasing r.provision_state then 1 else 0
rows now activate_job r =
    if is_created r.lifecycle_state && is_activating r.data_plane_state
    then count_schedules (ends_later now r) r.schedules
    else 0
rows now deactivate_job r = if is_deactivating r.data_plane_state then 1 else 0
rows now auto_start_job r =
    if is_created r.lifecycle_state && is_auto_start r.data_plane_state
    then count_schedules (current_ends_later now r) r.schedules
    else 0
rows now auto_end_job r = if is_auto_end r.data_plane_state then 1 else 0
rows now terminate_job r = if is_terminating r.lifecycle_state then 1 else 0

abbrev pub rows_of : ℕ → JobKind → Option Reservation → ℕ
rows_of now k none = 0
rows_of now k (some r) = rows now k r

count_id-append : (i : ℕ) (is js : List ℕ) → count_id i (is ++ js) ≡ count_id i is + count_id i js
count_id-append i [] js = omega arith
count_id-append i (k ∷ is) js = omega (arith, count_id-append i is js)

count_id-joined :
    (i j : ℕ) (p : Schedule → Bool) (ss : List Schedule)
    → count_id i (joined j p ss) ≡ (if j == i then count_schedules p ss else 0)
count_id-joined i j p [] = ground arith
count_id-joined i j p (s ∷ ss) = ground (arith, count_id-joined i j p ss)

abbrev one_if : (Reservation → Bool) → Option Reservation → ℕ
one_if p none = 0
one_if p (some r) = if p r then 1 else 0

count_id-select_absent :
    (i : ℕ) (p : Reservation → Bool) (rs : List Reservation)
    → find_reservation i rs ≡ none
    → count_id i (select p rs) ≡ 0
unfolding select find_reservation
count_id-select_absent i p [] h = refl
count_id-select_absent i p (r ∷ rs) h = ground (arith, count_id-select_absent i p rs)

count_id-select :
    (i : ℕ) (p : Reservation → Bool) (rs : List Reservation)
    → HasUniqueConnections rs
    → count_id i (select p rs) ≡ one_if p (find_reservation i rs)
unfolding select find_reservation
count_id-select i p [] h = refl
count_id-select i p (r ∷ rs) h =
    ground (arith, count_id-select i p rs h.1, count_id-select_absent i p rs)

abbrev many_if : (Reservation → Bool) → (Reservation → Schedule → Bool) → Option Reservation → ℕ
many_if p q none = 0
many_if p q (some r) = if p r then count_schedules (q r) r.schedules else 0

module _ (i : ℕ) (p : Reservation → Bool) (q : Reservation → Schedule → Bool) where
  count_id-select_joined_absent :
      (rs : List Reservation) → find_reservation i rs ≡ none → count_id i (select_joined p q rs) ≡ 0
  unfolding select_joined find_reservation
  count_id-select_joined_absent [] h = refl
  count_id-select_joined_absent (r ∷ rs) h = ground (
    arith,
    count_id-select_joined_absent rs,
    count_id-append i (joined r.connection_id (q r) r.schedules) (select_joined p q rs),
    count_id-joined i r.connection_id (q r) r.schedules,
  )

  count_id-select_joined :
      (rs : List Reservation)
      → HasUniqueConnections rs
      → count_id i (select_joined p q rs) ≡ many_if p q (find_reservation i rs)
  unfolding select_joined find_reservation
  count_id-select_joined [] h = refl
  count_id-select_joined (r ∷ rs) h = ground (
    arith,
    count_id-select_joined rs h.1,
    count_id-select_joined_absent rs,
    count_id-append i (joined r.connection_id (q r) r.schedules) (select_joined p q rs),
    count_id-joined i r.connection_id (q r) r.schedules,
  )

count_id-recover :
    (i now : ℕ) (k : JobKind) (rs : List Reservation)
    → HasUniqueConnections rs
    → count_id i (recover now k rs) ≡ rows_of now k (find_reservation i rs)
unfolding recover
count_id-recover i now reserve_job rs h =
    ground (arith, count_id-select i (λ r. is_reserve_checking r.reservation_state) rs h)
count_id-recover i now reserve_commit_job rs h =
    ground (arith, count_id-select i (λ r. is_reserve_committing r.reservation_state) rs h)
count_id-recover i now reserve_abort_job rs h =
    ground (arith, count_id-select i (λ r. is_reserve_aborting r.reservation_state) rs h)
count_id-recover i now reserve_timeout_job rs h =
    ground (arith, count_id-select i (λ r. is_reserve_held r.reservation_state) rs h)
count_id-recover i now provision_job rs h = ground (
  arith,
  count_id-select_joined i (λ r. is_created r.lifecycle_state && is_provisioning r.provision_state)
      (ends_later now) rs h,
)
count_id-recover i now release_job rs h = ground (
  arith,
  count_id-select i (λ r. is_created r.lifecycle_state && is_releasing r.provision_state) rs h,
)
count_id-recover i now activate_job rs h = ground (
  arith,
  count_id-select_joined i (λ r. is_created r.lifecycle_state && is_activating r.data_plane_state)
      (ends_later now) rs h,
)
count_id-recover i now deactivate_job rs h =
    ground (arith, count_id-select i (λ r. is_deactivating r.data_plane_state) rs h)
count_id-recover i now auto_start_job rs h = ground (
  arith,
  count_id-select_joined i (λ r. is_created r.lifecycle_state && is_auto_start r.data_plane_state)
      (current_ends_later now) rs h,
)
count_id-recover i now auto_end_job rs h =
    ground (arith, count_id-select i (λ r. is_auto_end r.data_plane_state) rs h)
count_id-recover i now terminate_job rs h =
    ground (arith, count_id-select i (λ r. is_terminating r.lifecycle_state) rs h)

pub count-append : (j : JobId) (is js : List JobId) → count j (is ++ js) ≡ count j is + count j js
count-append j [] js = omega arith
count-append j (k ∷ is) js = omega (arith, count-append j is js)

count-jobs_of :
    (j : JobId) (k : JobKind) (is : List ℕ)
    → count j (jobs_of k is) ≡ (if same_kind k j.kind then count_id j.connection_id is else 0)
count-jobs_of j k [] = ground arith
count-jobs_of j k (i ∷ is) = ground (arith, count-jobs_of j k is)

-- How often a registry lists a class.
abbrev pub kinds : JobKind → List JobKind → ℕ
kinds k [] = 0
kinds k (l ∷ ls) = (if same_kind l k then 1 else 0) + kinds k ls

count-recover :
    (j : JobId) (now : ℕ) (k : JobKind) (rs : List Reservation)
    → HasUniqueConnections rs
    → count j (jobs_of k (recover now k rs))
      ≡ (if same_kind k j.kind then rows_of now j.kind (find_reservation j.connection_id rs) else 0)
count-recover j now k rs h = elim (Bool-cases (same_kind k j.kind)) [
  | inl same ↦
      count-jobs_of j k (recover now k rs)
      ∙ rw (same_kind-eq k j.kind same)
          (ground (arith, count_id-recover j.connection_id now j.kind rs h))
  | inr other ↦ count-jobs_of j k (recover now k rs) ∙ rw other refl
]

distribute : (b : Bool) (n m : ℕ) → (if b then m else 0) + n * m ≡ ((if b then 1 else 0) + n) * m
distribute true n m = grind arith
distribute false n m = grind arith

pub count-recovered_jobs :
    (j : JobId) (now : ℕ) (ks : List JobKind) (rs : List Reservation)
    → HasUniqueConnections rs
    → count j (recovered_jobs now ks rs)
      ≡ kinds j.kind ks * rows_of now j.kind (find_reservation j.connection_id rs)
unfolding recovered_jobs
count-recovered_jobs j now [] rs h = omega arith
count-recovered_jobs j now (k ∷ ks) rs h =
    count-append j (jobs_of k (recover now k rs)) (recovered_jobs now ks rs)
    ∙ rw (count-recover j now k rs h, count-recovered_jobs j now ks rs h)
        (distribute (same_kind k j.kind) _ _)
