-- ===== src/Program.antt =====
-- The program as it acts on one reservation: request handlers and the sessions of the jobs, in any
-- order. A job that calls the NRM between two sessions is two steps, between which others may run;
-- what the NRM answered is part of the second step. A session that raises is rolled back.
pub mod Monotone
pub mod Versions
pub mod Undo
use su_pa.Base.{ℕ, List, [], ◌∷◌, Option, none, some}
use su_pa.Connection.Provider.{Header, Context, Handled}
use su_pa.Connection.Provider.Requests.{
  reserve_commit, reserve_abort, provision, release, terminate,
}
use su_pa.Connection.Provider.Reserve.{ReserveRequest, reserve}
use su_pa.Connection.Fsm.{activate_request}
use su_pa.Db.Model.{Reservation}
use su_pa.Job.Session.{
  Outcome, done, raised, Session, ◌>>◌, Backend, Caught, Reply, new_data_plane_machine,
  fire_data_plane,
}
use su_pa.Job.Provision.{provision_update, release_update}
use su_pa.Job.Dataplane.{activate_update, deactivate_update, auto_end_update}
use su_pa.Job.Lifecycle.{terminate_update, force_end}
use su_pa.Job.Reserve.Abort.{abort_update}
use su_pa.Job.Reserve.Commit.{commit_call, commit_update}
use su_pa.Job.Reserve.Hold.{Database, Reserving, hold_call, hold_update}
use su_pa.Job.Reserve.Timeout.{timeout_call, timeout_update}

pub data Step : Type 0 where
  -- The handlers, for a request that names the reservation.
  modifies : Context → Header → ReserveRequest → Step
  commits aborts provisions releases terminates : Context → Header → Step
  -- The sessions of the jobs of src/supa/job/reserve.py.
  hold_first : Backend → Database → Step
  hold_second : Reserving → Step
  commit_first : Backend → Step
  commit_second abort_second : Caught → Step
  timeout_first : Backend → Step
  timeout_second : Option Reply → Step
  -- Those of provision.py, with the time, of dataplane.py and of lifecycle.py.
  provision_second : ℕ → Caught → Step
  release_second activate_second deactivate_second terminate_second : Caught → Step
  auto_starts auto_ends forces_end : Step

abbrev pub committed : {A : Type 0} → Reservation → Outcome A → Reservation
committed r (done r' cs a) = r'
committed r (raised cs e) = r

abbrev pub row_or : Reservation → Option Reservation → Reservation
row_or r none = r
row_or r (some r') = r'

abbrev pub handled : Reservation → Handled → Reservation
handled r h = row_or r h.row

-- The row after a step.
unfoldable pub exec : Step → Reservation → Reservation
exec (modifies x header q) r =
    handled r (reserve x header 0 (record q { connection_id = some r.connection_id }) (some r))
exec (commits x header) r = handled r (reserve_commit x header r.connection_id (some r))
exec (aborts x header) r = handled r (reserve_abort x header r.connection_id (some r))
exec (provisions x header) r = handled r (provision x header r.connection_id (some r))
exec (releases x header) r = handled r (release x header r.connection_id (some r))
exec (terminates x header) r = handled r (terminate x header r.connection_id (some r))
exec (hold_first backend d) r = committed r (hold_call backend d r)
exec (hold_second b) r = committed r (hold_update b r)
exec (commit_first backend) r = committed r (commit_call backend r)
exec (commit_second b) r = committed r (commit_update b r)
exec (abort_second b) r = committed r (abort_update b r)
exec (timeout_first backend) r = committed r (timeout_call backend r)
exec (timeout_second b) r = committed r (timeout_update b r)
exec (provision_second now b) r = committed r (provision_update now b r)
exec (release_second b) r = committed r (release_update b r)
exec (activate_second b) r = committed r (activate_update b r)
exec (deactivate_second b) r = committed r (deactivate_update b r)
exec (terminate_second b) r = committed r (terminate_update b r)
exec auto_starts r = committed r ((do new_data_plane_machine; fire_data_plane activate_request) r)
exec auto_ends r = committed r (auto_end_update r)
exec forces_end r = committed r (force_end r)

unfoldable pub exec_all : List Step → Reservation → Reservation
unfolding exec
exec_all [] r = r
exec_all (s ∷ ss) r = exec_all ss (exec s r)
