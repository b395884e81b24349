-- ===== src/Job/Reserve/Abort.antt =====
-- `ReserveAbortJob` of src/supa/job/reserve.py.
use su_pa.Base.{
  last?, second_last?, drop_last, Text, ◌-◌, false, Option, none, some, ltb, if◌then◌else◌, length,
}
use su_pa.Connection.Fsm.{reserve_abort_confirmed}
use su_pa.Connection.Error.{NsiError}
use su_pa.Db.Model.{Reservation, Connection}
use su_pa.Job.Session.{
  Session, Primitive, Message, error, reserve_abort_confirmed as confirmed, index_error, ◌>>=◌,
  ◌>>◌, pure, read, write, get, one_connection, fire_reservation, add_path_segment, Backend, Caught,
  call_nrm, set_circuit, Run, run_job, result,
}

-- The latest version is dropped: its criteria and its schedule are deleted.
drop_version : Connection → Session (Unit {0})
drop_version c = do
  r ← read
  previous ← get index_error (second_last? r.p2p_criteria_list)
  _ ← get index_error (last? r.schedules)
  write (record r {
    connection = some (record c { bandwidth = previous.bandwidth });
    p2p_criteria_list = drop_last r.p2p_criteria_list;
    schedules = drop_last r.schedules;
    version = r.version - 1;
  })
  fire_reservation reserve_abort_confirmed

abort_result : Option NsiError → Option Text → Connection → Session Message
unfolding drop_version
abort_result (some e) circuit_id c = pure (error e)
abort_result none circuit_id c = do
  add_path_segment
  r ← read
  write (record r { reservation_timeout = false })
  if ltb 1 (length r.p2p_criteria_list) then drop_version c else pure tt
  set_circuit circuit_id
  pure confirmed

-- The second session of `ReserveAbortJob`; it yields the message.
unfoldable pub abort_update : Caught → Session Message
unfolding abort_result
abort_update b = do c ← one_connection; abort_result b.nsi_exception b.circuit_id c

-- `ReserveAbortJob.__call__`.
unfoldable pub reserve_abort_job_run : Backend → Reservation → Run
unfolding abort_update
reserve_abort_job_run backend r =
    run_job (call_nrm backend Primitive.reserve_abort) abort_update (result r.connection_id) r
