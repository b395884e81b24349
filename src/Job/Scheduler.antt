-- ===== src/Job/Scheduler.antt =====
-- The scheduler of apscheduler as the program uses it: an interface of which a running program has an
-- implementation. A job has the ID that its class and its connection give (`Job.job_id` of
-- src/supa/job/shared.py), and two IDs are the same when both agree.
pub mod Calls
pub mod Commit
pub mod Leftover
use su_pa.Base.{
  ℕ, ◌≡◌, ◌↔◌, refl, ap, sym, ◌∙◌, Bool, true, ◌&&◌, Option, none, some, ◌==◌, ==_iff,
  if◌then◌else◌, arith,
}
use su_pa.Job.Session.{
  JobKind, reserve_job, reserve_commit_job, reserve_abort_job, reserve_timeout_job, provision_job,
  release_job, activate_job, deactivate_job, auto_start_job, auto_end_job, terminate_job, Trigger,
}

-- A number for each class, by which names of classes are compared.
abbrev pub kind_code : JobKind → ℕ
kind_code reserve_job = 0
kind_code reserve_commit_job = 1
kind_code reserve_abort_job = 2
kind_code reserve_timeout_job = 3
kind_code provision_job = 4
kind_code release_job = 5
kind_code activate_job = 6
kind_code deactivate_job = 7
kind_code auto_start_job = 8
kind_code auto_end_job = 9
kind_code terminate_job = 10

abbrev pub same_kind : JobKind → JobKind → Bool
same_kind j k = kind_code j == kind_code k

abbrev kind_at : ℕ → JobKind
kind_at n =
    if n == 0
    then reserve_job
    else if n == 1
    then reserve_commit_job
    else if n == 2
    then reserve_abort_job
    else if n == 3
    then reserve_timeout_job
    else if n == 4
    then provision_job
    else if n == 5
    then release_job
    else if n == 6
    then activate_job
    else if n == 7
    then deactivate_job
    else if n == 8
    then auto_start_job
    else if n == 9
    then auto_end_job
    else terminate_job

kind_at-kind_code : (k : JobKind) → kind_at (kind_code k) ≡ k
kind_at-kind_code reserve_job = refl
kind_at-kind_code reserve_commit_job = refl
kind_at-kind_code reserve_abort_job = refl
kind_at-kind_code reserve_timeout_job = refl
kind_at-kind_code provision_job = refl
kind_at-kind_code release_job = refl
kind_at-kind_code activate_job = refl
kind_at-kind_code deactivate_job = refl
kind_at-kind_code auto_start_job = refl
kind_at-kind_code auto_end_job = refl
kind_at-kind_code terminate_job = refl

pub same_kind-eq : (j k : JobKind) → same_kind j k ≡ true → j ≡ k
same_kind-eq j k h = sym (kind_at-kind_code j) ∙ ap kind_at ((==_iff _ _).0 h) ∙ kind_at-kind_code k

-- `Job.job_id`, and whether two are the same.
pub record JobId : Type 0 where
  pub kind : JobKind
  pub connection_id : ℕ

abbrev pub same_job : JobId → JobId → Bool
same_job i j = same_kind i.kind j.kind && i.connection_id == j.connection_id

pub same_job-eq : (i j : JobId) → same_job i j ≡ true → i ≡ j
same_job-eq i j h = ground (arith, same_kind-eq i.kind j.kind)

pub same_job_refl : (i : JobId) → same_job i i ≡ true
same_job_refl i = ground arith

-- `get_job`; `add_job` of a new job, where none is a ConflictingIdError; `remove_job`, where none is
-- a JobLookupError. What they do is what the documentation of apscheduler says.
pub record Scheduler : Type 1 where
  pub State : Type 0
  pub get_job : State → JobId → Option Trigger
  pub add_job : JobId → Trigger → State → Option State
  pub remove_job : JobId → State → Option State
  pub conflict :
      (s : State) (i : JobId) (t u : Trigger) → get_job s i ≡ some u → add_job i t s ≡ none
  pub added :
      (s : State) (i : JobId) (t : Trigger)
      → get_job s i ≡ none
      → (s' : State) × (add_job i t s ≡ some s')
        × ((j : JobId) → get_job s' j ≡ (if same_job i j then some t else get_job s j))
  pub lookup_error : (s : State) (i : JobId) → get_job s i ≡ none → remove_job i s ≡ none
  pub removed :
      (s : State) (i : JobId) (u : Trigger)
      → get_job s i ≡ some u
      → (s' : State) × (remove_job i s ≡ some s')
        × ((j : JobId) → get_job s' j ≡ (if same_job i j then none else get_job s j))
