-- ===== src/Examples/Recovery.antt =====
-- The scheduler on examples: the start of the program, and jobs that stay behind.
use su_pa.Base.Strings.{text_eq}
use su_pa.Base.{
  ◌≡◌, refl, true, false, List, [], ◌∷◌, Option, none, some, if◌then◌else◌, arith, inr,
}
use su_pa.Connection.Fsm.{
  reserve_checking, reserve_aborting, activating, provisioned, reservation_fsm,
}
use su_pa.Connection.Provider.{acknowledgment, validate_message_header, validate_schedule, on_row}
use su_pa.Connection.Provider.Requests.{reserve_commit, reserve_abort}
use su_pa.Connection.Provider.Reserve.{reserve, modify_body, modify_state, append_version}
use su_pa.Db.Model.{Reservation}
use su_pa.Job.Session.{
  JobKind, reserve_job, reserve_commit_job, reserve_abort_job, reserve_timeout_job, provision_job,
  release_job, activate_job, deactivate_job, auto_start_job, auto_end_job, terminate_job, Trigger,
  hold_timeout,
}
use su_pa.Job.Scheduler.{JobId, same_job, Scheduler}
use su_pa.Job.Scheduler.Calls.{job_id, run_calls, served}
use su_pa.Job.Scheduler.Commit.{Committing, Stuck, Rejected, reserve_commit_cases}
use su_pa.Connection.Provider.Acceptance.{may_commit}
use su_pa.Examples.Requests.{header_valid}
use su_pa.Job.Scheduler.Leftover.{modify_after_abort_conflicts}
use su_pa.Job.Recover.{find_reservation, trigger, recover_jobs}
use su_pa.Job.Recover.Complete.{IsRecoverable, is_outstanding_for, recover_jobs-recovers}
use su_pa.Job.Recover.Conflict.{recover_jobs-conflict}
use su_pa.Job.Recover.Counts.{kinds}
use su_pa.Job.Reserve.Abort.{reserve_abort_job_run}
use su_pa.Examples.Data.{held_row, committed_row, from_to, context, header, working, modification}

-- The jobs as a function of their IDs.
abbrev Jobs : Type 0
Jobs = JobId → Option Trigger

abbrev add_to : JobId → Trigger → Jobs → Option Trigger → Option Jobs
add_to i t s none = some (λ j. if same_job i j then some t else s j)
add_to i t s (some u) = none

abbrev remove_from : JobId → Jobs → Option Trigger → Option Jobs
remove_from i s none = none
remove_from i s (some u) = some (λ j. if same_job i j then none else s j)

abbrev jobs : Scheduler
jobs = record {
  State = Jobs;
  get_job = λ s i. s i;
  add_job = λ i t s. add_to i t s (s i);
  remove_job = λ i s. remove_from i s (s i);
  conflict = λ s i t u h. rw h refl;
  added = λ s i t h. (λ j. if same_job i j then some t else s j, rw h refl, λ j. refl);
  lookup_error = λ s i h. rw h refl;
  removed = λ s i u h. (λ j. if same_job i j then none else s j, rw h refl, λ j. refl);
}

abbrev no_jobs : Jobs
no_jobs i = none

abbrev registry : List JobKind
registry =
    reserve_job ∷ reserve_commit_job ∷ reserve_abort_job ∷ reserve_timeout_job ∷ provision_job
    ∷ release_job ∷ activate_job ∷ deactivate_job ∷ auto_start_job ∷ auto_end_job ∷ terminate_job
    ∷ []

registered : (k : JobKind) → kinds k registry ≡ 1
registered reserve_job = refl
registered reserve_commit_job = refl
registered reserve_abort_job = refl
registered reserve_timeout_job = refl
registered provision_job = refl
registered release_job = refl
registered activate_job = refl
registered deactivate_job = refl
registered auto_start_job = refl
registered auto_end_job = refl
registered terminate_job = refl

-- A held reservation, and one whose data plane is being activated.
abbrev activating_row : Reservation
activating_row = record committed_row {
  connection_id = 9;
  provision_state = some provisioned;
  data_plane_state = some activating;
}

abbrev interrupted : List Reservation
interrupted = held_row ∷ activating_row ∷ []

held-IsRecoverable : IsRecoverable 1500 held_row
held-IsRecoverable = record {
  current = from_to 0 1000 2000;
  scheduled = refl;
  later_once = omega arith;
  current_once = omega arith;
}

activating-IsRecoverable : IsRecoverable 1500 activating_row
activating-IsRecoverable = record {
  current = from_to 0 1000 2000;
  scheduled = refl;
  later_once = omega arith;
  current_once = omega arith;
}

recover_jobs-recovers_example :
    (s' : Jobs) × (recover_jobs jobs 1500 registry interrupted no_jobs ≡ some s')
    × ((j : JobId)
        → s' j ≡ (
            if is_outstanding_for 1500 j.kind (find_reservation j.connection_id interrupted)
            then trigger j interrupted
            else none))
unfolding find_reservation
recover_jobs-recovers_example =
    recover_jobs-recovers jobs 1500 registry interrupted no_jobs (refl, (refl, tt))
      (held-IsRecoverable, (activating-IsRecoverable, tt)) registered (λ j. refl)

-- The data plane is activated while a modification to a later end is being checked.
abbrev modified_row : Reservation
modified_row = record activating_row {
  version = 1;
  reservation_state = reserve_checking;
  schedules = from_to 0 1000 2000 ∷ from_to 1 1000 3000 ∷ [];
}

recover_jobs-conflict_example :
    recover_jobs jobs 1500 registry (held_row ∷ modified_row ∷ []) no_jobs ≡ none
unfolding find_reservation
recover_jobs-conflict_example =
    recover_jobs-conflict jobs 1500 registry (held_row ∷ modified_row ∷ []) no_jobs 9 modified_row
      (refl, (refl, tt)) registered refl refl (inr refl) (omega arith)

-- Only the timeout job of the connection 7 is scheduled.
abbrev timeout_job : Jobs
timeout_job j = if same_job (job_id reserve_timeout_job 7) j then some hold_timeout else none

acknowledged :
    (reserve context header 11 modification (some committed_row)).response ≡ some acknowledgment
unfolding reserve validate_message_header text_eq validate_schedule on_row modify_body modify_state
    reservation_fsm append_version
acknowledged = refl

modify_after_abort_conflicts_example :
    let aborting =
      (run_calls jobs (reserve_abort context header 7 (some held_row)).calls timeout_job).state in
    let aborted =
      (run_calls jobs
        (reserve_abort_job_run working
          (record held_row { reservation_state = reserve_aborting })).calls
        aborting).state in
    (run_calls jobs
      (reserve context header 11 modification (some committed_row)).calls
      aborted).succeeds
    ≡ false
modify_after_abort_conflicts_example =
    modify_after_abort_conflicts jobs context context header header 11 7 modification working
      held_row (record held_row { reservation_state = reserve_aborting }) committed_row timeout_job
      hold_timeout refl refl acknowledged

reserve_commit_cases_example :
    let h = served jobs (reserve_commit context header 7 (some held_row)) timeout_job in
    (may_commit held_row ≡ true
      → (u : Trigger) → timeout_job (job_id reserve_timeout_job 7) ≡ some u
      → Committing jobs 7 held_row timeout_job h)
    × (may_commit held_row ≡ true
        → timeout_job (job_id reserve_timeout_job 7) ≡ none
        → Stuck jobs held_row timeout_job h)
    × (may_commit held_row ≡ false → Rejected jobs held_row timeout_job h)
reserve_commit_cases_example =
    reserve_commit_cases jobs context header 7 held_row timeout_job header_valid refl
