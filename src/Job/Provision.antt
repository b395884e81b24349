-- ===== src/Job/Provision.antt =====
-- src/supa/job/provision.py: the jobs that provision and release a reservation.
pub mod Runs
pub mod Stale
use su_pa.Base.{
  Text, ℕ, Bool, true, false, not, List, [], ◌∷◌, ◌++◌, Option, none, some, ltb, if◌then◌else◌,
}
use su_pa.Connection.Fsm.{
  LifecycleState, DataPlaneState, auto_start_request, activate_request, deactivate_request,
  provision_confirmed, release_confirmed, is_created, is_auto_start, is_auto_end,
}
use su_pa.Connection.Error.{NsiError, generic_connection_error, invalid_transition}
use su_pa.Db.Model.{Reservation, schedule}
use su_pa.Job.Session.{
  Session, JobKind, error, auto_start_job, activate_job, auto_end_job, deactivate_job, Trigger,
  immediately, at, Primitive, Message, Exception, attribute_error, Call, add_job, remove_job, ◌>>=◌,
  ◌>>◌, pure, read, get, one_connection, new_provision_machine, new_data_plane_machine,
  fire_provision, add_path_segment, try_data_plane, Backend, Caught, call_nrm, set_circuit, Run,
  run_job, result,
}

-- What `ProvisionJob` does after its session.
pub data Provisioning : Type 0 where
  failed : NsiError → Provisioning
  auto_start_at : ℕ → Provisioning
  activate : Provisioning

-- The `else` and the `except` of the `try` around the data plane's event.
confirm_if : Bool → Provisioning → Session Provisioning
confirm_if true v = do add_path_segment; fire_provision provision_confirmed; pure v
confirm_if false v = pure (failed invalid_transition)

-- Whether the start time lies ahead.
provision_data_plane : ℕ → ℕ → Session Provisioning
unfolding confirm_if
provision_data_plane now start_time =
    if ltb now start_time
    then (do
      allowed ← try_data_plane auto_start_request
      confirm_if allowed (auto_start_at start_time))
    else (do allowed ← try_data_plane activate_request; confirm_if allowed activate)

provision_checked : ℕ → Session Provisioning
unfolding provision_data_plane
provision_checked now = do
  r ← read
  if not (is_created r.lifecycle_state)
      then pure (failed generic_connection_error)
      else (do s ← get attribute_error (schedule r); provision_data_plane now s.start_time)

provision_result : ℕ → Option NsiError → Option Text → Session Provisioning
unfolding provision_checked
provision_result now (some e) circuit_id = pure (failed e)
provision_result now none circuit_id = do v ← provision_checked now; set_circuit circuit_id; pure v

-- The second session of `ProvisionJob`.
unfoldable pub provision_update : ℕ → Caught → Session Provisioning
unfolding provision_result
provision_update now c = do
  _ ← one_connection
  new_provision_machine
  new_data_plane_machine
  provision_result now c.nsi_exception c.circuit_id

provision_after : ℕ → Provisioning → List Call
provision_after i (failed e) = result i (error e)
provision_after i (auto_start_at t) =
    add_job auto_start_job i (at t) ∷ result i Message.provision_confirmed
provision_after i activate =
    add_job activate_job i immediately ∷ result i Message.provision_confirmed

-- `ProvisionJob.__call__`, at the time `now`.
unfoldable pub provision_job : Backend → ℕ → Reservation → Run
unfolding provision_update provision_after
provision_job backend now r =
    run_job (call_nrm backend Primitive.provision) (provision_update now)
      (provision_after r.connection_id) r

-- What `ReleaseJob` does after its session, with the `previous_data_plane_state`.
pub data Releasing : Type 0 where
  failed : NsiError → Releasing
  released_from : Option DataPlaneState → Releasing

release_checked : Session Releasing
release_checked = do
  r ← read
  if not (is_created r.lifecycle_state) then pure (failed generic_connection_error) else (do
    _ ← try_data_plane deactivate_request
    add_path_segment
    fire_provision release_confirmed
    pure (released_from r.data_plane_state))

release_result : Option NsiError → Option Text → Session Releasing
unfolding release_checked
release_result (some e) circuit_id = pure (failed e)
release_result none circuit_id = do v ← release_checked; set_circuit circuit_id; pure v

-- The second session of `ReleaseJob`.
unfoldable pub release_update : Caught → Session Releasing
unfolding release_result
release_update c = do
  _ ← one_connection
  new_provision_machine
  new_data_plane_machine
  release_result c.nsi_exception c.circuit_id

-- The scheduler's part after a release: the previous data plane state decides.
release_jobs : ℕ → Option DataPlaneState → List Call
release_jobs i previous =
    if is_auto_start previous
    then remove_job auto_start_job i ∷ []
    else (if is_auto_end previous then remove_job auto_end_job i ∷ [] else [])
      ++ add_job deactivate_job i immediately ∷ []

release_after : ℕ → Releasing → List Call
unfolding release_jobs
release_after i (failed e) = result i (error e)
release_after i (released_from previous) =
    release_jobs i previous ++ result i Message.release_confirmed

-- `ReleaseJob.__call__`.
unfoldable pub release_job : Backend → Reservation → Run
unfolding release_update release_after
release_job backend r =
    run_job (call_nrm backend Primitive.release) release_update (release_after r.connection_id) r
