-- ===== src/Job/Reserve/Timeout.antt =====
-- `ReserveTimeoutJob` of src/supa/job/reserve.py.
pub mod Expiry
use su_pa.Base.{Text, ℕ, true, List, [], Option, none, some}
use su_pa.Connection.Fsm.{ReservationState, reserve_timeout_notification, reservation_fsm}
use su_pa.Connection.Error.{NsiError}
use su_pa.Db.Model.{Reservation, Connection}
use su_pa.Job.Session.{
  Session, Primitive, Message, error, Call, nrm, ◌>>=◌, ◌>>◌, pure, read, write, call, raise,
  one_connection, add_path_segment, detached_instance_error, Backend, Reply, circuit, nsi_error,
  other_exception, set_circuit, Run, run_job, result, notification,
}

-- What the job sends after its sessions; `no_op` is the early return.
pub data TimingOut : Type 0 where
  no_op timed_out : TimingOut
  failed : NsiError → TimingOut

-- The `try` around `reserve_timeout_notification`, and the backend's call if the event is allowed.
timeout_held : Backend → Connection → Option ReservationState → Session (Option Reply)
timeout_held backend c none = pure none
timeout_held backend c (some s) = do
  r ← read
  write (record r { reservation_state = s })
  call (nrm Primitive.reserve_timeout r.connection_id)
  pure (some (backend Primitive.reserve_timeout r.connection_id c))

-- The first session of `ReserveTimeoutJob`, and the backend's call.
unfoldable pub timeout_call : Backend → Session (Option Reply)
unfolding timeout_held
timeout_call backend = do
  r ← read
  c ← one_connection
  timeout_held backend c (reservation_fsm r.reservation_state reserve_timeout_notification)

-- The second session.
timeout_result : Reply → Session TimingOut
timeout_result (nsi_error e) = pure (failed e)
timeout_result (circuit circuit_id) = do
  add_path_segment
  set_circuit circuit_id
  r ← read
  write (record r { reservation_timeout = true })
  pure timed_out
timeout_result other_exception = raise detached_instance_error

-- What follows the first session of `ReserveTimeoutJob`. The handler of an exception that is no
-- NsiException reads the state of the reservation, whose session is closed: that raises a
-- DetachedInstanceError.
unfoldable pub timeout_update : Option Reply → Session TimingOut
unfolding timeout_result
timeout_update none = pure no_op
timeout_update (some b) = do _ ← one_connection; timeout_result b

timeout_after : ℕ → TimingOut → List Call
timeout_after i no_op = []
timeout_after i timed_out = notification i Message.reserve_timeout
timeout_after i (failed e) = result i (error e)

-- `ReserveTimeoutJob.__call__`.
unfoldable pub reserve_timeout_job_run : Backend → Reservation → Run
unfolding timeout_call timeout_update timeout_after
reserve_timeout_job_run backend r =
    run_job (timeout_call backend) timeout_update (timeout_after r.connection_id) r
