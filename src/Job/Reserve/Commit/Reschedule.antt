-- ===== src/Job/Reserve/Commit/Reschedule.antt =====
-- What a committed modification does to the scheduled end of the data plane.
use su_pa.Base.{
  ℕ, ◌≡◌, ◌≢◌, ◌<◌, Bool, true, false, List, [], ◌∷◌, ◌++◌, none, some, arith, ◌==◌, if◌then◌else◌,
  length, second_last?,
}
use su_pa.Connection.Fsm.{
  DataPlaneState, activated, auto_end, auto_start, provisioned, reserve_committing, reserve_start,
  reservation_fsm, data_plane_fsm,
}
use su_pa.Db.Model.{Reservation, Connection, Schedule, schedule, no_end_date}
use su_pa.Job.Session.{
  Caught, done, Call, auto_start_job, auto_end_job, add_job, remove_job, at,
  reserve_commit_confirmed, with_circuit,
}
use su_pa.Job.Reserve.Commit.{commit_update}

abbrev pub is_running : DataPlaneState → Bool
is_running activated = true
is_running auto_end = true
is_running _ = false

abbrev pub plane_until : ℕ → DataPlaneState
plane_until end_time = if end_time == no_end_date then activated else auto_end

abbrev pub cancelled : ℕ → DataPlaneState → List Call
cancelled i auto_end = remove_job auto_end_job i ∷ []
cancelled i _ = []

abbrev pub end_calls : ℕ → ℕ → List Call
end_calls i end_time =
    if end_time == no_end_date then [] else add_job auto_end_job i (at end_time) ∷ []

-- The second session of `ReserveCommitJob` for a modification of a provisioned reservation with
-- an Activated or AutoEnd data plane, when its request came without a path, the NRM succeeded and
-- the end time changes: a
-- scheduled end is cancelled, the new one is scheduled unless there is no end date, and the data
-- plane is AutoEnd if it is scheduled and Activated if not. The reservation is committed.
pub commit_moves_end :
    (b : Caught) (r : Reservation) (c : Connection) (old new : Schedule) (p : DataPlaneState)
    → r.has_path ≡ false
    → b.nsi_exception ≡ none
    → r.connection ≡ some c
    → r.reservation_state ≡ reserve_committing
    → r.provision_state ≡ some provisioned
    → r.data_plane_state ≡ some p
    → is_running p ≡ true
    → 1 < length r.schedules
    → second_last? r.schedules ≡ some old
    → schedule r ≡ some new
    → new.end_time ≢ old.end_time
    → commit_update b r
      ≡ done
          (record r {
            reservation_state = reserve_start;
            data_plane_state = some (plane_until new.end_time);
            connection = with_circuit b.circuit_id (some c);
          })
          (cancelled r.connection_id p ++ end_calls r.connection_id new.end_time)
          reserve_commit_confirmed
unfolding commit_update reservation_fsm data_plane_fsm
commit_moves_end b r c old new p ht hb hc hr hp hd run several ho hn changed = ground arith

-- The second session of `ReserveCommitJob` for a modification of a provisioned reservation whose
-- data plane waits in AutoStart, when its request came without a path and the NRM succeeded: if the start time changes, the scheduled
-- start is replaced by one at the new time, and if not, it is left; nothing else is scheduled and
-- the data plane waits on.
commit_moves_start :
    (b : Caught) (r : Reservation) (c : Connection) (old new : Schedule)
    → r.has_path ≡ false
    → b.nsi_exception ≡ none
    → r.connection ≡ some c
    → r.reservation_state ≡ reserve_committing
    → r.provision_state ≡ some provisioned
    → r.data_plane_state ≡ some auto_start
    → 1 < length r.schedules
    → second_last? r.schedules ≡ some old
    → schedule r ≡ some new
    → commit_update b r
      ≡ done
          (record r {
            reservation_state = reserve_start;
            connection = with_circuit b.circuit_id (some c);
          })
          (if new.start_time == old.start_time
            then []
            else remove_job auto_start_job r.connection_id
              ∷ add_job auto_start_job r.connection_id (at new.start_time)
              ∷ [])
          reserve_commit_confirmed
unfolding commit_update reservation_fsm data_plane_fsm
commit_moves_start b r c old new ht hb hc hr hp hd several ho hn = ground arith
