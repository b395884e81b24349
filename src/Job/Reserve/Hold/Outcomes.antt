-- ===== src/Job/Reserve/Hold/Outcomes.antt =====
-- How `ReserveJob` ends for a new reservation.
use su_pa.Base.{
  if◌then◌else◌, Text, false, is_empty, ℕ, ◌≡◌, List, [], ◌∷◌, none, some, arith, ◌==◌, length, inl,
  inr, Bool-cases,
}
use su_pa.Connection.Fsm.{ReservationState, reserve_checking, reserve_held, reservation_fsm}
use su_pa.Connection.Error.{NsiError}
use su_pa.Db.Model.{
  Reservation, Connection, Schedule, P2PCriteria, schedule, p2p_criteria, criteria_at,
}
use su_pa.Job.Session.{
  Backend, circuit, Primitive, nrm, reserve_timeout_job, remove_job, Message, result,
  unbound_local_error, type_error,
}
use su_pa.Job.Reserve.Stp.{ok, refuse}
use su_pa.Job.Reserve.Hold.{Database, Ports, select_in, check_criteria, reserve_job_run}

-- If a check refuses a new reservation that is in ReserveChecking, then it is ReserveFailed, the
-- job that would time it out is removed, the requester is told the error, and the NRM is not
-- asked.
reserve_job_refuses :
    (backend : Backend) (d : Database) (r : Reservation) (s : Schedule) (c : P2PCriteria)
    (e : NsiError)
    → r.reservation_state ≡ reserve_checking
    → length r.schedules ≡ 1
    → schedule r ≡ some s
    → p2p_criteria r ≡ some c
    → check_criteria d r c ≡ refuse e
    → reserve_job_run backend d r ≡ record {
      row = record r { reservation_state = ReservationState.reserve_failed };
      calls =
          remove_job reserve_timeout_job r.connection_id
          ∷ result r.connection_id (Message.reserve_failed e);
      failure = none;
    }
unfolding reserve_job_run reservation_fsm
reserve_job_refuses backend d r s c e hr one hs hc h = ground arith

abbrev pub selected : Ports → P2PCriteria → P2PCriteria
selected p c = record c {
  src = record (c.src) { selected_vlan = some p.src_selected_vlan };
  dst = record (c.dst) { selected_vlan = some p.dst_selected_vlan };
}

criteria_at-select_in :
    (v : ℕ) (p : Ports) (cs : List P2PCriteria) (c : P2PCriteria)
    → criteria_at v cs ≡ some c
    → criteria_at v (select_in v p cs) ≡ some (selected p c)
criteria_at-select_in v p [] c h = ground arith
criteria_at-select_in v p (d ∷ cs) c h = elim (Bool-cases (d.version == v)) [
  | inl e ↦ ground arith
  | inr e ↦ ground (arith, criteria_at-select_in v p cs c)
]

-- The connection that the job asks the NRM for.
abbrev pub asked : Ports → Connection
asked p = record {
  bandwidth = p.bandwidth;
  src_port_id = p.src_port_id;
  src_vlan = some p.src_selected_vlan;
  dst_port_id = p.dst_port_id;
  dst_vlan = some p.dst_selected_vlan;
  circuit_id = none;
}

-- If the checks of a new reservation, in ReserveChecking, without a connection and whose request
-- came without a path, yield ports
-- and VLANs, and the NRM reserves them and returns no circuit ID, then the reservation is
-- ReserveHeld, its criteria have the selected VLANs, it has a connection with the bandwidth,
-- ports and VLANs that the NRM was asked for, and the requester is told so.
pub reserve_job_holds :
    (backend : Backend) (d : Database) (r : Reservation) (s : Schedule) (c : P2PCriteria)
    (p : Ports)
    → r.has_path ≡ false
    → r.reservation_state ≡ reserve_checking
    → r.connection ≡ none
    → length r.schedules ≡ 1
    → schedule r ≡ some s
    → p2p_criteria r ≡ some c
    → check_criteria d r c ≡ ok p
    → p.bandwidth ≡ c.bandwidth
    → backend Primitive.reserve r.connection_id (asked p) ≡ circuit none
    → reserve_job_run backend d r ≡ record {
      row = record r {
        reservation_state = reserve_held;
        p2p_criteria_list = select_in r.version p r.p2p_criteria_list;
        connection = some (asked p);
      };
      calls =
          nrm Primitive.reserve r.connection_id ∷ result r.connection_id Message.reserve_confirmed;
      failure = none;
    }
unfolding reserve_job_run reservation_fsm
reserve_job_holds backend d r s c p ht hr hn one hs hc h hp hb =
    ground (arith, criteria_at-select_in r.version p r.p2p_criteria_list c hc)

-- If the NRM reserves a new reservation that passed the checks, and returns a circuit ID, then
-- the job fails, with the TypeError of the path segment if the request came with a path, and on
-- the unbound circuit ID if it did not: the requester is told nothing, no connection is stored, and the reservation
-- stays in ReserveChecking with the selected VLANs.
pub reserve_job_loses_circuit :
    (backend : Backend) (d : Database) (r : Reservation) (s : Schedule) (c : P2PCriteria)
    (p : Ports) (i : Text)
    → r.reservation_state ≡ reserve_checking
    → r.connection ≡ none
    → length r.schedules ≡ 1
    → schedule r ≡ some s
    → p2p_criteria r ≡ some c
    → check_criteria d r c ≡ ok p
    → backend Primitive.reserve r.connection_id (asked p) ≡ circuit (some i)
    → is_empty i ≡ false
    → reserve_job_run backend d r ≡ record {
      row = record r { p2p_criteria_list = select_in r.version p r.p2p_criteria_list };
      calls = nrm Primitive.reserve r.connection_id ∷ [];
      failure = some (if r.has_path then type_error else unbound_local_error);
    }
unfolding reserve_job_run reservation_fsm
reserve_job_loses_circuit backend d r s c p i hr hn one hs hc h hb hi =
    ground (arith, criteria_at-select_in r.version p r.p2p_criteria_list c hc)
