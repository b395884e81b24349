-- ===== src/Job/Reserve/Commit.antt =====
-- `ReserveCommitJob` of src/supa/job/reserve.py.
pub mod Reschedule
pub mod Failure
use su_pa.Base.{
  last?, second_last?, drop_last, Text, is_empty, ℕ, Bool, false, not, ◌&&◌, ◌||◌, Option, none,
  some, ltb, ◌==◌, if◌then◌else◌, length,
}
use su_pa.Connection.Fsm.{
  reserve_commit_failed, reserve_commit_confirmed, auto_end_request, cancel_auto_end_request,
  is_provisioned, is_auto_start, is_auto_end, is_activated,
}
use su_pa.Connection.Error.{NsiError}
use su_pa.Db.Model.{
  Reservation, Connection, P2PCriteria, Schedule, schedule, p2p_criteria, no_end_date,
}
use su_pa.Job.Session.{
  Session, auto_start_job, auto_end_job, at, Primitive, Message,
  reserve_commit_confirmed as confirmed, attribute_error, index_error, add_job, remove_job, nrm,
  ◌>>=◌, ◌>>◌, pure, read, call, get, one_connection, new_provision_machine, new_data_plane_machine,
  fire_reservation, add_path_segment, fire_data_plane, provision_state_of, Backend, Caught, caught,
  set_circuit, Run, run_job, result,
}

abbrev pub is_modify : Reservation → Bool
is_modify r = ltb 1 (length r.schedules)

-- Whether the bandwidth of an active data plane changes; a new reservation changes nothing.
commit_modifies : P2PCriteria → Session Bool
commit_modifies new = do
  r ← read
  if is_modify r
      then (do
        old ← get index_error (second_last? r.p2p_criteria_list)
        pure (
            not (new.bandwidth == old.bandwidth)
            && (is_activated r.data_plane_state || is_auto_end r.data_plane_state)))
      else pure false

-- `if modify_circuit_id := backend.modify(…): circuit_id = modify_circuit_id`.
abbrev pub or_circuit : Option Text → Option Text → Option Text
or_circuit none c = c
or_circuit (some i) c = if is_empty i then c else some i

modified : Caught → Caught → Caught
modified c m = record {
  nsi_exception = m.nsi_exception;
  circuit_id = or_circuit m.circuit_id c.circuit_id;
}

-- The call of `modify` where the commit succeeded and the bandwidth changes.
call_modify : Backend → Connection → Caught → Bool → Session Caught
unfolding modified
call_modify backend c b changes = elim b.nsi_exception [
  | some e ↦ pure b
  | none ↦
      if changes
      then (do
        r ← read
        call (nrm Primitive.modify r.connection_id)
        pure (modified b (caught (backend Primitive.modify r.connection_id c))))
      else pure b
]

-- The first session of `ReserveCommitJob`, and the backend's calls.
unfoldable pub commit_call : Backend → Session Caught
unfolding commit_modifies call_modify
commit_call backend = do
  c ← one_connection
  new_data_plane_machine
  r ← read
  new ← get attribute_error (p2p_criteria r)
  changes ← commit_modifies new
  call (nrm Primitive.reserve_commit r.connection_id)
  call_modify backend c (caught (backend Primitive.reserve_commit r.connection_id c)) changes

-- A new start time reschedules the auto start.
move_auto_start : Schedule → Schedule → Session (Unit {0})
move_auto_start old new = do
  r ← read
  if not (new.start_time == old.start_time)
        && is_provisioned (provision_state_of r.provision_state)
        && is_auto_start r.data_plane_state
      then (do
        call (remove_job auto_start_job r.connection_id)
        call (add_job auto_start_job r.connection_id (at new.start_time)))
      else pure tt

cancel_auto_end : Session (Unit {0})
cancel_auto_end = do
  r ← read
  if is_auto_end r.data_plane_state
      then (do
        fire_data_plane cancel_auto_end_request
        call (remove_job auto_end_job r.connection_id))
      else pure tt

new_auto_end : ℕ → Session (Unit {0})
new_auto_end end_time = do
  r ← read
  if is_activated r.data_plane_state && not (end_time == no_end_date)
      then (do
        fire_data_plane auto_end_request
        call (add_job auto_end_job r.connection_id (at end_time)))
      else pure tt

-- A new end time cancels the auto end, and schedules it anew unless there is no end date.
move_auto_end : Schedule → Schedule → Session (Unit {0})
unfolding cancel_auto_end new_auto_end
move_auto_end old new = do
  r ← read
  if not (new.end_time == old.end_time) && is_provisioned (provision_state_of r.provision_state)
      then (do cancel_auto_end; new_auto_end new.end_time)
      else pure tt

reschedule : Session (Unit {0})
unfolding move_auto_start move_auto_end
reschedule = do
  r ← read
  if is_modify r
      then (do
        old ← get index_error (second_last? r.schedules)
        new ← get attribute_error (schedule r)
        move_auto_start old new
        move_auto_end old new)
      else pure tt

commit_result : Option NsiError → Option Text → Session Message
unfolding reschedule
commit_result (some e) circuit_id = do
  fire_reservation reserve_commit_failed
  pure (Message.reserve_commit_failed e)
commit_result none circuit_id = do
  reschedule
  fire_reservation reserve_commit_confirmed
  add_path_segment
  set_circuit circuit_id
  pure confirmed

-- The second session of `ReserveCommitJob`; it yields the message.
unfoldable pub commit_update : Caught → Session Message
unfolding commit_result
commit_update c = do
  _ ← one_connection
  new_data_plane_machine
  new_provision_machine
  commit_result c.nsi_exception c.circuit_id

-- `ReserveCommitJob.__call__`.
unfoldable pub reserve_commit_job_run : Backend → Reservation → Run
unfolding commit_call commit_update
reserve_commit_job_run backend r =
    run_job (commit_call backend) commit_update (result r.connection_id) r
