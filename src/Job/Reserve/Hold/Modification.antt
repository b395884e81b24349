-- ===== src/Job/Reserve/Hold/Modification.antt =====
-- What `ReserveJob` checks of a modification.
use su_pa.Base.{false, ℕ, ◌<◌, ◌≡◌, [], ◌∷◌, Option, none, some, arith, length, Text}
use su_pa.Connection.Fsm.{reserve_checking, reserve_held, reservation_fsm}
use su_pa.Db.Model.{Reservation, Connection, Schedule, P2PCriteria, schedule, p2p_criteria}
use su_pa.Job.Session.{Backend, circuit, Primitive, nrm, Message, result, with_circuit}
use su_pa.Job.Reserve.Hold.{Database, reserve_job_run}

-- The connection that the NRM is asked for: the new bandwidth, and neither ports nor VLANs.
abbrev pub asked_of_modify : ℕ → Connection
asked_of_modify bandwidth = record {
  bandwidth = bandwidth;
  src_port_id = [];
  src_vlan = some 0;
  dst_port_id = [];
  dst_vlan = some 0;
  circuit_id = none;
}

-- `ReserveJob` of a modification in ReserveChecking checks nothing: whatever the other
-- reservations and the topology are, if its request came without a path and the NRM agrees to the new bandwidth, it being asked
-- without ports and for the VLAN 0, then the modification is held, the connection gets that
-- bandwidth, and the requester is told so.
pub modification_unchecked :
    (backend : Backend) (d : Database) (r : Reservation) (s : Schedule) (c : P2PCriteria)
    (o : Connection) (k : Option Text)
    → r.has_path ≡ false
    → r.reservation_state ≡ reserve_checking
    → 1 < length r.schedules
    → schedule r ≡ some s
    → p2p_criteria r ≡ some c
    → r.connection ≡ some o
    → backend Primitive.reserve r.connection_id (asked_of_modify c.bandwidth) ≡ circuit k
    → reserve_job_run backend d r ≡ record {
      row = record r {
        reservation_state = reserve_held;
        connection = with_circuit k (some (record o { bandwidth = c.bandwidth }));
      };
      calls =
          nrm Primitive.reserve r.connection_id ∷ result r.connection_id Message.reserve_confirmed;
      failure = none;
    }
unfolding reserve_job_run reservation_fsm
modification_unchecked backend d r s c o k ht hr several hs hc ho hb = ground arith
