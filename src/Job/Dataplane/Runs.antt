-- ===== src/Job/Dataplane/Runs.antt =====
-- What the jobs of the data plane leave behind.
use su_pa.Base.{
  false, Text, ℕ, ◌≡◌, ◌≢◌, true, List, [], ◌∷◌, ◌++◌, Option, none, some, arith, ◌==◌,
  if◌then◌else◌,
}
use su_pa.Connection.Fsm.{
  DataPlaneState, activating, activated, auto_end, deactivated, created, passed_end_time,
  data_plane_fsm, lifecycle_fsm,
}
use su_pa.Connection.Error.{NsiError}
use su_pa.Db.Model.{Reservation, Connection, Schedule, schedule, no_end_date}
use su_pa.Job.Session.{
  Backend, circuit, caught, Primitive, Call, nrm, auto_end_job, deactivate_job, immediately,
  add_job, at, notification, activate_failed_event, data_plane_state_change, with_circuit,
}
use su_pa.Job.Dataplane.{activate_job_run, deactivate_job_run, auto_end_job_run}

abbrev plane_until : ℕ → DataPlaneState
plane_until end_time = if end_time == no_end_date then activated else auto_end

abbrev auto_end_at : ℕ → ℕ → List Call
auto_end_at i end_time =
    if end_time == no_end_date then [] else add_job auto_end_job i (at end_time) ∷ []

-- `ActivateJob` on an activating data plane, when the NRM succeeds and the request came without a
-- path: without an end date the data
-- plane is Activated, with one it is AutoEnd and its end is scheduled. The requester is notified
-- that it is active.
activate_confirms :
    (backend : Backend) (r : Reservation) (c : Connection) (s : Schedule) (k : Option Text)
    → r.has_path ≡ false
    → r.connection ≡ some c
    → backend Primitive.activate r.connection_id c ≡ circuit k
    → r.data_plane_state ≡ some activating
    → schedule r ≡ some s
    → activate_job_run backend r ≡ record {
      row = record r {
        data_plane_state = some (plane_until s.end_time);
        connection = with_circuit k (some c);
      };
      calls =
          nrm Primitive.activate r.connection_id ∷ auto_end_at r.connection_id s.end_time
          ++ notification r.connection_id (data_plane_state_change true);
      failure = none;
    }
unfolding activate_job_run data_plane_fsm
activate_confirms backend r c s k ht hc hb hd hs = ground arith

-- `ActivateJob` on an activating data plane, when the NRM fails and there is an address to reply to: the data plane is ActivateFailed
-- and nothing else changes; the requester is notified of the error.
activate_fails :
    (backend : Backend) (r : Reservation) (c : Connection) (e : NsiError) (t : Text)
    → r.reply_to ≡ some t
    → r.connection ≡ some c
    → (caught (backend Primitive.activate r.connection_id c)).nsi_exception ≡ some e
    → r.data_plane_state ≡ some activating
    → activate_job_run backend r ≡ record {
      row = record r { data_plane_state = some DataPlaneState.activate_failed };
      calls =
          nrm Primitive.activate r.connection_id
          ∷ notification r.connection_id (activate_failed_event e);
      failure = none;
    }
unfolding activate_job_run data_plane_fsm
activate_fails backend r c e t hr hc hb hd = ground arith

-- From activation to the end time, for a created reservation with an end date, whose request came
-- without a path, and an NRM that succeeds: `ActivateJob`, `AutoEndJob` and `DeactivateJob` each schedule the next, the last does
-- not fail, and in the end the data plane is Deactivated and the lifecycle PassedEndTime.
pub runs_to_end :
    (backend : Backend) (r : Reservation) (c : Connection) (s : Schedule)
    → r.has_path ≡ false
    → r.connection ≡ some c
    → backend Primitive.activate r.connection_id c ≡ circuit none
    → backend Primitive.deactivate r.connection_id c ≡ circuit none
    → r.data_plane_state ≡ some activating
    → r.lifecycle_state ≡ created
    → schedule r ≡ some s
    → s.end_time ≢ no_end_date
    → let a = activate_job_run backend r in
      let e = auto_end_job_run a.row in
      let d = deactivate_job_run backend e.row in
      (a.calls
        ≡ nrm Primitive.activate r.connection_id
          ∷ add_job auto_end_job r.connection_id (at s.end_time)
          ∷ notification r.connection_id (data_plane_state_change true))
      × (e.calls ≡ add_job deactivate_job r.connection_id immediately ∷ [])
      × (d.failure ≡ none)
      × (d.row ≡ record r {
        data_plane_state = some deactivated;
        lifecycle_state = passed_end_time;
        connection = some c;
      })
unfolding activate_job_run deactivate_job_run auto_end_job_run data_plane_fsm lifecycle_fsm
runs_to_end backend r c s ht hc hb hb' hd hl hs he =
    (ground arith, ground arith, ground arith, ground arith)
