-- ===== src/Examples/Runs.antt =====
-- The jobs on examples.
use su_pa.Base.{codes, Bool, ℕ, ◌≡◌, refl, true, false, [], ◌∷◌, none, some, arith, map}
use su_pa.Connection.Fsm.{
  provisioned, released, reserve_start, reserve_committing, terminating, passed_end_time,
  DataPlaneState, deactivated, auto_end, activating, activated,
}
use su_pa.Connection.Error.{generic_rm_error}
use su_pa.Connection.Provider.{acknowledgment}
use su_pa.Connection.Provider.Requests.{provision}
use su_pa.Db.Model.{Reservation, Connection}
use su_pa.Job.Session.{
  Primitive, nrm, auto_end_job, deactivate_job, add_job, remove_job, at, immediately, notification,
  data_plane_state_change, transition_not_allowed, done, reserve_commit_confirmed,
}
use su_pa.Job.Dataplane.{activate_job_run, deactivate_job_run, auto_end_job_run}
use su_pa.Job.Dataplane.Runs.{runs_to_end}
use su_pa.Job.Lifecycle.{Health, health, health_check_run}
use su_pa.Job.Lifecycle.Sweep.{ended, ended_calls, health_check_sweeps, health_check_stops}
use su_pa.Job.Reserve.Commit.{commit_update}
use su_pa.Job.Reserve.Commit.Reschedule.{commit_moves_end}
use su_pa.Job.Reserve.Commit.Failure.{failed_commit_opens_provision}
use su_pa.Program.{committed}
use su_pa.Examples.Data.{
  held_row, committed_row, circuit_of, from_to, criteria, working, success, context, header,
}
use su_pa.Examples.Requests.{header_valid}

abbrev plane : DataPlaneState → Reservation
plane p = record committed_row { provision_state = some provisioned; data_plane_state = some p }

runs_to_end_example :
    let a = activate_job_run working (plane activating) in
    let e = auto_end_job_run a.row in
    let d = deactivate_job_run working e.row in
    (a.calls
      ≡ nrm Primitive.activate 7
        ∷ add_job auto_end_job 7 (at 2000)
        ∷ notification 7 (data_plane_state_change true))
    × (e.calls ≡ add_job deactivate_job 7 immediately ∷ [])
    × (d.failure ≡ none)
    × (d.row ≡ record (plane deactivated) { lifecycle_state = passed_end_time })
runs_to_end_example =
    runs_to_end working (plane activating) (circuit_of 10 101) (from_to 0 1000 2000) refl refl refl
      refl refl refl refl (λ e. ground arith)

-- A modification that moved the end from 2000 to 3000, or the start from 1000 to 1100.
abbrev modified_row : DataPlaneState → ℕ → ℕ → Reservation
modified_row p start_time end_time = record (plane p) {
  reservation_state = reserve_committing;
  version = 1;
  schedules = from_to 0 1000 2000 ∷ from_to 1 start_time end_time ∷ [];
  p2p_criteria_list =
      criteria 0 10 (some 101) (some 101) ∷ criteria 1 10 (some 101) (some 101) ∷ [];
}

commit_moves_end_example :
    commit_update success (modified_row auto_end 1000 3000)
    ≡ done
        (record (modified_row auto_end 1000 3000) { reservation_state = reserve_start })
        (remove_job auto_end_job 7 ∷ add_job auto_end_job 7 (at 3000) ∷ [])
        reserve_commit_confirmed
commit_moves_end_example =
    commit_moves_end success (modified_row auto_end 1000 3000) (circuit_of 10 101)
      (from_to 0 1000 2000) (from_to 1 1000 3000) auto_end refl refl refl refl refl refl refl
      (omega arith) refl refl (λ e. ground arith)

failed_commit_opens_provision_example :
    let failed =
      committed
        (record held_row { reservation_state = reserve_committing })
        (commit_update
          (record { nsi_exception = some generic_rm_error; circuit_id = none })
          (record held_row { reservation_state = reserve_committing })) in
    (failed.reservation_state ≡ reserve_start)
    × (failed.provision_state ≡ some released)
    × ((provision context header 7 (some failed)).response ≡ some acknowledgment)
failed_commit_opens_provision_example =
    failed_commit_opens_provision
      (record { nsi_exception = some generic_rm_error; circuit_id = none }) generic_rm_error
      (record held_row { reservation_state = reserve_committing }) (circuit_of 10 101)
      (from_to 0 1000 2000) context header refl refl refl refl refl header_valid (omega arith)

-- The NRM finds every active circuit unhealthy, and the requesters take the events.
abbrev sick : ℕ → Connection → Health
sick i c = health false

abbrev taken : ℕ → Bool
taken i = true

abbrev replying : DataPlaneState → Reservation
replying p = record (plane p) { reply_to = some (codes "agg") }

health_check_sweeps_example :
    health_check_run sick taken (replying auto_end ∷ plane deactivated ∷ []) ≡ record {
      rows = map (ended sick) (replying auto_end ∷ plane deactivated ∷ []);
      calls = ended_calls sick (replying auto_end ∷ plane deactivated ∷ []);
      failure = none;
    }
health_check_sweeps_example =
    health_check_sweeps sick taken (replying auto_end ∷ plane deactivated ∷ []) (
      (λ e. record { reply_to = codes "agg"; created = refl; replies = refl; delivered = refl }),
      ((λ e. absurd (ground arith)), tt),
    )

health_check_stops_example :
    health_check_run sick taken
      (record (plane activated) { lifecycle_state = terminating } ∷ plane activated ∷ [])
    ≡ record {
      rows = record (plane activated) { lifecycle_state = terminating } ∷ plane activated ∷ [];
      calls = [];
      failure = some transition_not_allowed;
    }
health_check_stops_example =
    health_check_stops sick taken (record (plane activated) { lifecycle_state = terminating })
      (plane activated ∷ []) refl refl
