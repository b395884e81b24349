-- ===== src/Job/Lifecycle.antt =====
-- src/supa/job/lifecycle.py: the job that terminates a reservation, and the health check.
pub mod Ending
pub mod Sweep
use su_pa.Base.{
  Text, ℕ, Bool, true, false, ◌||◌, List, [], ◌∷◌, ◌++◌, Option, none, some, if◌then◌else◌,
}
use su_pa.Connection.Fsm.{
  DataPlaneState, DataPlaneEvent, deactivate_request, terminate_confirmed, forced_end_notification,
  is_auto_start, is_auto_end, is_activated,
}
use su_pa.Connection.Error.{NsiError, generic_service_error}
use su_pa.Db.Model.{Reservation, Connection}
use su_pa.Job.Session.{
  Session, auto_start_job, auto_end_job, deactivate_job, immediately, Primitive, Message, error,
  forced_end_event, Exception, rpc_error, Call, add_job, remove_job, nrm, ◌>>=◌, ◌>>◌, pure, read,
  call, new_data_plane_machine, fire_data_plane, add_path_segment, to_error_event, fire_lifecycle,
  try_data_plane, Backend, Caught, caught, set_circuit, Run, commit, run_job, result, notification,
}

-- What `TerminateJob` does after its session, with the `previous_data_plane_state`.
pub data Terminating : Type 0 where
  failed : NsiError → Terminating
  terminated_from : Option DataPlaneState → Terminating

terminate_connection : Backend → Option Connection → Session Caught
terminate_connection backend none = pure (record { nsi_exception = none; circuit_id = none })
terminate_connection backend (some c) = do
  r ← read
  call (nrm Primitive.terminate r.connection_id)
  pure (caught (backend Primitive.terminate r.connection_id c))

-- The NRM is left out where no connection was registered yet.
unfoldable pub terminate_call : Backend → Session Caught
unfolding terminate_connection
terminate_call backend = do r ← read; terminate_connection backend r.connection

-- The `else` of the `try` around `deactivate_request`.
cancel_auto : Option DataPlaneState → Session (Unit {0})
cancel_auto previous =
    if is_auto_start previous
    then (do r ← read; call (remove_job auto_start_job r.connection_id))
    else (if is_auto_end previous
        then (do r ← read; call (remove_job auto_end_job r.connection_id))
        else pure tt)

terminate_result : Option NsiError → Option Text → Session Terminating
unfolding cancel_auto
terminate_result (some e) circuit_id = pure (failed e)
terminate_result none circuit_id = do
  r ← read
  allowed ← try_data_plane deactivate_request
  if allowed then cancel_auto r.data_plane_state else pure tt
  add_path_segment
  fire_lifecycle terminate_confirmed
  set_circuit circuit_id
  pure (terminated_from r.data_plane_state)

-- The second session of `TerminateJob`.
unfoldable pub terminate_update : Caught → Session Terminating
unfolding terminate_result
terminate_update c = do new_data_plane_machine; terminate_result c.nsi_exception c.circuit_id

terminate_after : ℕ → Terminating → List Call
terminate_after i (failed e) = result i (error e)
terminate_after i (terminated_from previous) =
    (if is_auto_end previous || is_activated previous
      then add_job deactivate_job i immediately ∷ []
      else [])
    ++ result i Message.terminate_confirmed

-- `TerminateJob.__call__`.
unfoldable pub terminate_job_run : Backend → Reservation → Run
unfolding terminate_call terminate_update terminate_after
terminate_job_run backend r =
    run_job (terminate_call backend) terminate_update (terminate_after r.connection_id) r

-- What the NRM's `health_check` does for a connection.
pub data Health : Type 0 where
  health : Bool → Health
  nsi_error : NsiError → Health
  other_exception : Health

-- The query of `HealthCheckJob`: a connection whose data plane is active.
abbrev pub active_connection : Reservation → Option Connection
active_connection r =
    if is_activated r.data_plane_state || is_auto_end r.data_plane_state then r.connection else none

unfoldable pub force_end : Session (Unit {0})
force_end = do
  fire_lifecycle forced_end_notification
  new_data_plane_machine
  fire_data_plane DataPlaneEvent.unhealthy
  to_error_event

abbrev untouched : Reservation → Run
untouched r = record { row = r; calls = []; failure = none }

-- `stub.ErrorEvent`, which may raise an exception when the row is already committed.
abbrev pub deliver : Bool → Run → Run
deliver delivers run = elim run.failure [
  | some e ↦ run
  | none ↦ if delivers then run else record run { failure = some rpc_error }
]

-- The loop's body: only a connection that the NRM says is not healthy is ended.
check_health : Health → Bool → Reservation → Run
unfolding force_end
check_health (nsi_error e) delivers r = untouched r
check_health other_exception delivers r = untouched r
check_health (health true) delivers r = untouched r
check_health (health false) delivers r = deliver delivers (
    commit r [] (force_end r)
      λ _. notification r.connection_id (forced_end_event generic_service_error))

-- What the NRM says of a connection, and whether the requester's stub takes the event for it.
unfoldable pub check_connection : (ℕ → Connection → Health) → (ℕ → Bool) → Reservation → Run
unfolding check_health
check_connection nrm_health delivers r = elim (active_connection r) [
  | none ↦ untouched r
  | some c ↦ check_health (nrm_health r.connection_id c) (delivers r.connection_id) r
]

-- The reservations after the loop, what was called, and the exception that ended it.
pub record HealthRun : Type 0 where
  pub rows : List Reservation
  pub calls : List Call
  pub failure : Option Exception

next_health : Run → List Reservation → HealthRun → HealthRun
next_health run rs rest = elim run.failure [
  | none ↦ record {
    rows = run.row ∷ rest.rows;
    calls = run.calls ++ rest.calls;
    failure = rest.failure;
  }
  | some e ↦ record { rows = run.row ∷ rs; calls = run.calls; failure = some e }
]

-- `HealthCheckJob.__call__`: an exception in the body ends the loop.
unfoldable pub health_check_run :
    (ℕ → Connection → Health) → (ℕ → Bool) → List Reservation → HealthRun
unfolding check_connection next_health
health_check_run nrm_health delivers [] = record { rows = []; calls = []; failure = none }
health_check_run nrm_health delivers (r ∷ rs) =
    next_health (check_connection nrm_health delivers r) rs
      (health_check_run nrm_health delivers rs)
