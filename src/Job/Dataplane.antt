-- ===== src/Job/Dataplane.antt =====
-- src/supa/job/dataplane.py: the jobs that activate and deactivate the data plane.
pub mod Runs
use su_pa.Base.{Text, [], ◌∷◌, Option, none, some, ◌==◌, if◌then◌else◌}
use su_pa.Connection.Fsm.{
  activate_request, activate_confirmed, auto_end_request, deactivate_request, deactivate_confirm,
  DataPlaneEvent, endtime_event, is_activated,
}
use su_pa.Connection.Error.{NsiError}
use su_pa.Db.Model.{Reservation, Schedule, schedule, no_end_date}
use su_pa.Job.Session.{
  Session, auto_end_job, activate_job, deactivate_job, immediately, at, Primitive, Message,
  activate_failed_event, deactivate_failed_event, data_plane_state_change, attribute_error, add_job,
  ◌>>=◌, ◌>>◌, pure, read, call, get, one_connection, new_data_plane_machine, fire_data_plane,
  add_path_segment, to_error_event, fire_lifecycle, Backend, Caught, call_nrm, set_circuit, Run,
  commit, run_job, notification,
}

-- An end time other than NO_END_DATE is when the data plane ends by itself.
schedule_auto_end : Schedule → Session (Unit {0})
schedule_auto_end s = if s.end_time == no_end_date then pure tt else (do
  r ← read
  fire_data_plane auto_end_request
  call (add_job auto_end_job r.connection_id (at s.end_time)))

activate_result : Option NsiError → Option Text → Session Message
unfolding schedule_auto_end
activate_result (some e) circuit_id = do
  fire_data_plane DataPlaneEvent.activate_failed
  to_error_event
  pure (activate_failed_event e)
activate_result none circuit_id = do
  fire_data_plane activate_confirmed
  r ← read
  add_path_segment
  set_circuit circuit_id
  s ← get attribute_error (schedule r)
  schedule_auto_end s
  pure (data_plane_state_change (is_activated r.data_plane_state))

-- The second session of `ActivateJob`; it yields the message.
unfoldable pub activate_update : Caught → Session Message
unfolding activate_result
activate_update c = do
  _ ← one_connection
  new_data_plane_machine
  activate_result c.nsi_exception c.circuit_id

-- `ActivateJob.__call__`.
unfoldable pub activate_job_run : Backend → Reservation → Run
unfolding activate_update
activate_job_run backend r =
    run_job (call_nrm backend Primitive.activate) activate_update (notification r.connection_id) r

deactivate_result : Option NsiError → Option Text → Session Message
deactivate_result (some e) circuit_id = do
  fire_data_plane DataPlaneEvent.deactivate_failed
  to_error_event
  pure (deactivate_failed_event e)
deactivate_result none circuit_id = do
  fire_data_plane deactivate_confirm
  r ← read
  add_path_segment
  set_circuit circuit_id
  pure (data_plane_state_change (is_activated r.data_plane_state))

-- The second session of `DeactivateJob`; it yields the message.
unfoldable pub deactivate_update : Caught → Session Message
unfolding deactivate_result
deactivate_update c = do
  _ ← one_connection
  new_data_plane_machine
  deactivate_result c.nsi_exception c.circuit_id

-- `DeactivateJob.__call__`.
unfoldable pub deactivate_job_run : Backend → Reservation → Run
unfolding deactivate_update
deactivate_job_run backend r =
    run_job (call_nrm backend Primitive.deactivate) deactivate_update (notification r.connection_id)
      r

-- `AutoStartJob.__call__`.
unfoldable pub auto_start_job_run : Reservation → Run
auto_start_job_run r =
    commit r [] ((do new_data_plane_machine; fire_data_plane activate_request) r)
      λ _. add_job activate_job r.connection_id immediately ∷ []

unfoldable pub auto_end_update : Session (Unit {0})
auto_end_update = do
  new_data_plane_machine
  fire_lifecycle endtime_event
  fire_data_plane deactivate_request

-- `AutoEndJob.__call__`.
unfoldable pub auto_end_job_run : Reservation → Run
unfolding auto_end_update
auto_end_job_run r =
    commit r [] (auto_end_update r) λ _. add_job deactivate_job r.connection_id immediately ∷ []
