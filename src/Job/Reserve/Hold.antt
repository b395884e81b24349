-- ===== src/Job/Reserve/Hold.antt =====
-- `ReserveJob` of src/supa/job/reserve.py. The reservations and the topology are what the first
-- session reads of the database; the choices of a VLAN are an argument.
pub mod Granted
pub mod Outcomes
pub mod Modification
use su_pa.Base.{
  Text, is_empty, text_eq, ℕ, List, [], ◌∷◌, Option, none, some, ltb, ◌==◌, if◌then◌else◌, length,
}
use su_pa.Connection.Fsm.{ReservationEvent, reserve_confirmed}
use su_pa.Connection.Error.{NsiError, no_serviceplane_path_found}
use su_pa.Db.Model.{
  Reservation, Connection, Topology, Endpoint, P2PCriteria, schedule, p2p_criteria,
}
use su_pa.Job.Session.{
  Session, reserve_timeout_job, Primitive, Message, attribute_error, integrity_error,
  unbound_local_error, value_error, remove_job, nrm, ◌>>=◌, ◌>>◌, pure, raise, read, write, call,
  get, one_connection, fire_reservation, add_path_segment, Backend, Caught, caught, set_circuit,
  Run, run_job, result,
}
use su_pa.Job.Reserve.Resources.{stp_resources_in_use}
use su_pa.Job.Reserve.Stp.{
  Checked, ok, refuse, crash, Candidates, process_stp, Choice, select_vlans,
}
use su_pa.Job.Reserve.Stp.{◌>>=◌ as ◌then_check◌}

-- What the job reads besides its reservation.
pub record Database : Type 0 where
  pub topology_id : Text
  pub reservations : List Reservation
  pub topology : List Topology
  pub choice : Choice

-- The ports and VLANs that the job keeps on itself; a modification leaves them unset.
pub record Ports : Type 0 where
  pub bandwidth : ℕ
  pub src_port_id : Text
  pub src_selected_vlan : ℕ
  pub dst_port_id : Text
  pub dst_selected_vlan : ℕ

abbrev pub process : Database → Reservation → P2PCriteria → Endpoint → Checked Candidates
process d r c e =
    process_stp d.topology_id d.topology (stp_resources_in_use d.reservations r e.stp_id)
      c.bandwidth e

abbrev pub check_ends : Database → Reservation → P2PCriteria → Checked Ports
check_ends d r c = ◌then_check◌ (process d r c c.src) λ src.
    ◌then_check◌ (process d r c c.dst) λ dst.
      ◌then_check◌ (select_vlans d.choice src.vlans dst.vlans) λ vlans. ok (record {
        bandwidth = c.bandwidth;
        src_port_id = src.port_id;
        src_selected_vlan = vlans.0;
        dst_port_id = dst.port_id;
        dst_selected_vlan = vlans.1;
      })

-- The checks of a new reservation.
unfoldable pub check_criteria : Database → Reservation → P2PCriteria → Checked Ports
check_criteria d r c =
    if text_eq c.src.stp_id c.dst.stp_id
    then refuse no_serviceplane_path_found
    else check_ends d r c

-- The selected VLANs go into the criteria of the reservation's version.
abbrev pub select_in : ℕ → Ports → List P2PCriteria → List P2PCriteria
select_in v p [] = []
select_in v p (c ∷ cs) =
    let here : P2PCriteria = record c {
      src = record (c.src) { selected_vlan = some p.src_selected_vlan };
      dst = record (c.dst) { selected_vlan = some p.dst_selected_vlan };
    } in
    if c.version == v then here ∷ cs else c ∷ select_in v p cs

-- The job after its first session: what it keeps, or the exception that it caught.
pub data Processed : Type 0 where
  ports : Ports → Processed
  refused : NsiError → Processed

keep_checked : Checked Ports → Session Processed
keep_checked (ok p) = do
  r ← read
  write (record r { p2p_criteria_list = select_in r.version p r.p2p_criteria_list })
  pure (ports p)
keep_checked (refuse e) = pure (refused e)
keep_checked crash = raise value_error

-- The first session of `ReserveJob`.
process_request : Database → Session Processed
unfolding keep_checked
process_request d = do
  r ← read
  _ ← get attribute_error (schedule r)
  c ← get attribute_error (p2p_criteria r)
  if ltb 1 (length r.schedules)
      then pure (
          ports (record {
            bandwidth = c.bandwidth;
            src_port_id = [];
            src_selected_vlan = 0;
            dst_port_id = [];
            dst_selected_vlan = 0;
          }))
      else keep_checked (check_criteria d r c)

-- The NRM is asked only for what was not refused.
pub record Reserving : Type 0 where
  pub nsi_exception : Option NsiError
  pub circuit_id : Option Text
  pub src_port_id : Text
  pub dst_port_id : Text

call_reserve : Backend → Processed → Session Reserving
call_reserve backend (refused e) =
    pure (record { nsi_exception = some e; circuit_id = none; src_port_id = []; dst_port_id = [] })
call_reserve backend (ports p) = do
  r ← read
  call (nrm Primitive.reserve r.connection_id)
  let asked : Connection = record {
    bandwidth = p.bandwidth;
    src_port_id = p.src_port_id;
    src_vlan = some p.src_selected_vlan;
    dst_port_id = p.dst_port_id;
    dst_vlan = some p.dst_selected_vlan;
    circuit_id = none;
  }
  let b : Caught = caught (backend Primitive.reserve r.connection_id asked)
  pure (record {
    nsi_exception = b.nsi_exception;
    circuit_id = b.circuit_id;
    src_port_id = p.src_port_id;
    dst_port_id = p.dst_port_id;
  })

unfoldable pub hold_call : Backend → Database → Session Reserving
unfolding process_request call_reserve
hold_call backend d = do p ← process_request d; call_reserve backend p

-- A new connection, which must not be there yet.
add_connection : P2PCriteria → Reserving → Option Connection → Session (Unit {0})
add_connection c b (some _) = raise integrity_error
add_connection c b none = do
  r ← read
  write (record r {
    connection = some (record {
      bandwidth = c.bandwidth;
      src_port_id = b.src_port_id;
      src_vlan = c.src.selected_vlan;
      dst_port_id = b.dst_port_id;
      dst_vlan = c.dst.selected_vlan;
      circuit_id = b.circuit_id;
    });
  })

-- `if circuit_id: connection.circuit_id = circuit_id` where `connection` is not bound.
set_unbound : Option Text → Session (Unit {0})
set_unbound none = pure tt
set_unbound (some i) = if is_empty i then pure tt else raise unbound_local_error

-- The branch for a new reservation binds no `connection`, the one for a modification does.
hold_connection : P2PCriteria → Reserving → Session (Unit {0})
unfolding add_connection set_unbound
hold_connection c b = do
  r ← read
  if length r.schedules == 1
      then (do add_connection c b r.connection; set_unbound b.circuit_id)
      else (do
        o ← one_connection
        write (record r { connection = some (record o { bandwidth = c.bandwidth }) })
        set_circuit b.circuit_id)

hold_result : Option NsiError → Reserving → Session Message
unfolding hold_connection
hold_result (some e) b = do
  r ← read
  fire_reservation ReservationEvent.reserve_failed
  call (remove_job reserve_timeout_job r.connection_id)
  pure (Message.reserve_failed e)
hold_result none b = do
  fire_reservation reserve_confirmed
  add_path_segment
  r ← read
  c ← get attribute_error (p2p_criteria r)
  hold_connection c b
  pure Message.reserve_confirmed

-- The second session of `ReserveJob`; it yields the message.
unfoldable pub hold_update : Reserving → Session Message
unfolding hold_result
hold_update b = hold_result b.nsi_exception b

-- `ReserveJob.__call__`.
unfoldable pub reserve_job_run : Backend → Database → Reservation → Run
unfolding hold_call hold_update
reserve_job_run backend d r = run_job (hold_call backend d) hold_update (result r.connection_id) r
