-- ===== src/Job/Reserve/Commit/Failure.antt =====
-- A failed commit of a reservation's first version.
use su_pa.Base.{◌≡◌, ◌≤◌, none, some, arith}
use su_pa.Connection.Fsm.{
  released, reserve_committing, reserve_start, reservation_fsm, provision_fsm,
}
use su_pa.Connection.Error.{NsiError}
use su_pa.Connection.Provider.{Context, Header, validate_message_header, handle, acknowledgment}
use su_pa.Connection.Provider.Requests.{provision}
use su_pa.Db.Model.{Reservation, Connection, Schedule, schedule}
use su_pa.Job.Session.{Caught}
use su_pa.Job.Reserve.Commit.{commit_update}
use su_pa.Program.{committed}

-- If the NRM fails to commit a committing reservation that has a connection and no provision
-- state, its provision state becomes Released all the same, and a valid `Provision` that comes
-- before the end time is acknowledged.
pub failed_commit_opens_provision :
    (b : Caught) (e : NsiError) (r : Reservation) (c : Connection) (s : Schedule) (x : Context)
    (header : Header)
    → b.nsi_exception ≡ some e
    → r.connection ≡ some c
    → r.reservation_state ≡ reserve_committing
    → r.provision_state ≡ none
    → schedule r ≡ some s
    → validate_message_header x header ≡ none
    → x.now ≤ s.end_time
    → let failed = committed r (commit_update b r) in
      (failed.reservation_state ≡ reserve_start)
      × (failed.provision_state ≡ some released)
      × ((provision x header r.connection_id (some failed)).response ≡ some acknowledgment)
unfolding commit_update reservation_fsm provision_fsm provision handle
failed_commit_opens_provision b e r c s x header hb hc hr hp hs valid early =
    (ground arith, ground arith, ground arith)
