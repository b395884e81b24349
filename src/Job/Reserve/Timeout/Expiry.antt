-- ===== src/Job/Reserve/Timeout/Expiry.antt =====
-- How the hold of a reservation expires.
use su_pa.Base.{
  Text, ℕ, ◌≡◌, refl, Bool, true, false, [], ◌∷◌, Option, none, some, arith, if◌then◌else◌,
}
use su_pa.Connection.Fsm.{ReservationState, reserve_held, reserve_timeout, reservation_fsm}
use su_pa.Connection.Provider.{Context, Header, validate_message_header}
use su_pa.Connection.Provider.Requests.{reserve_commit}
use su_pa.Connection.Provider.Acceptance.{Refused, reserve_commit_handles}
use su_pa.Db.Model.{Reservation, Connection}
use su_pa.Job.Session.{Backend, Run, circuit, Primitive, nrm, Message, notification, with_circuit}
use su_pa.Job.Reserve.Timeout.{reserve_timeout_job_run}

abbrev pub is_held : ReservationState → Bool
is_held reserve_held = true
is_held _ = false

abbrev pub expired : Reservation → Option Connection → Run
expired r c = record {
  row = record r {
    reservation_state = reserve_timeout;
    reservation_timeout = true;
    connection = c;
  };
  calls =
      nrm Primitive.reserve_timeout r.connection_id
      ∷ notification r.connection_id Message.reserve_timeout;
  failure = none;
}

-- `ReserveTimeoutJob` of a reservation with a connection, whose request came without a path, with
-- an NRM that succeeds: a held
-- reservation becomes ReserveTimeout and is flagged as timed out, and the requester is notified;
-- a reservation in any other state is left as it is, without a call.
timeout_runs :
    (backend : Backend) (r : Reservation) (c : Connection) (k : Option Text)
    → r.has_path ≡ false
    → r.connection ≡ some c
    → backend Primitive.reserve_timeout r.connection_id c ≡ circuit k
    → reserve_timeout_job_run backend r ≡ (
        if is_held r.reservation_state
        then expired r (with_circuit k (some c))
        else record { row = r; calls = []; failure = none })
unfolding reserve_timeout_job_run reservation_fsm
timeout_runs backend r c k ht hc hb = ground arith

-- After `ReserveTimeoutJob` of a held reservation with a connection, whose request came without a
-- path, with an NRM that succeeds, a
-- valid `ReserveCommit` is refused and changes nothing.
expired-Refused :
    (backend : Backend) (r : Reservation) (c : Connection) (k : Option Text) (x : Context)
    (header : Header) (i : ℕ)
    → r.has_path ≡ false
    → r.connection ≡ some c
    → backend Primitive.reserve_timeout r.connection_id c ≡ circuit k
    → r.reservation_state ≡ reserve_held
    → validate_message_header x header ≡ none
    → let row = (reserve_timeout_job_run backend r).row in
      Refused (some row) (reserve_commit x header i (some row))
expired-Refused backend r c k x header i ht hc hb held valid =
    rw (timeout_runs backend r c k ht hc hb, held)
      ((reserve_commit_handles x header i _ valid).1 refl)
