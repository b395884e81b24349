-- ===== src/Job/Provision/Runs.antt =====
-- What provisioning and releasing do to the data plane and the scheduler.
use su_pa.Base.{
  Text, ℕ, ◌≡◌, Bool, true, false, List, [], ◌∷◌, ◌++◌, Option, none, some, arith, ltb,
  if◌then◌else◌,
}
use su_pa.Connection.Fsm.{
  released, provisioning, provisioned, releasing, created, DataPlaneState, deactivated,
  deactivating, activated, auto_end, activating, auto_start, data_plane_fsm, provision_fsm,
}
use su_pa.Db.Model.{Reservation, Connection, Schedule, schedule}
use su_pa.Job.Session.{
  Backend, circuit, Primitive, Call, nrm, auto_start_job, auto_end_job, deactivate_job, add_job,
  remove_job, at, activate_job, immediately, Message, result, with_circuit,
}
use su_pa.Job.Provision.{provision_job, release_job}

-- `ProvisionJob` of a created, provisioning reservation with a deactivated data plane, when its
-- request came without a path and the NRM succeeds: the provision is confirmed. Before the start time the data plane waits in
-- AutoStart and its start is scheduled; from then on it is Activating and its activation is
-- scheduled at once.
provision_confirms :
    (backend : Backend) (now : ℕ) (r : Reservation) (c : Connection) (s : Schedule)
    (k : Option Text)
    → r.has_path ≡ false
    → r.connection ≡ some c
    → backend Primitive.provision r.connection_id c ≡ circuit k
    → r.lifecycle_state ≡ created
    → r.provision_state ≡ some provisioning
    → r.data_plane_state ≡ some deactivated
    → schedule r ≡ some s
    → provision_job backend now r ≡ record {
      row = record r {
        provision_state = some provisioned;
        data_plane_state = some (if ltb now s.start_time then auto_start else activating);
        connection = with_circuit k (some c);
      };
      calls =
          nrm Primitive.provision r.connection_id
          ∷ (if ltb now s.start_time
              then add_job auto_start_job r.connection_id (at s.start_time)
              else add_job activate_job r.connection_id immediately)
          ∷ result r.connection_id Message.provision_confirmed;
      failure = none;
    }
unfolding provision_job provision_fsm data_plane_fsm
provision_confirms backend now r c s k ht hc hb hl hp hd hs = ground arith

-- The states of a data plane that is started or is going to be.
abbrev pub is_started : DataPlaneState → Bool
is_started auto_start = true
is_started activated = true
is_started auto_end = true
is_started _ = false

abbrev pub plane_released : DataPlaneState → DataPlaneState
plane_released auto_start = deactivated
plane_released _ = deactivating

abbrev pub calls_released : ℕ → DataPlaneState → List Call
calls_released i auto_start = remove_job auto_start_job i ∷ []
calls_released i auto_end = remove_job auto_end_job i ∷ add_job deactivate_job i immediately ∷ []
calls_released i _ = add_job deactivate_job i immediately ∷ []

-- `ReleaseJob` of a created, releasing reservation whose data plane is AutoStart, Activated or
-- AutoEnd, when its request came without a path and the NRM succeeds: the release is confirmed. The start of an AutoStart data plane
-- is cancelled and it is Deactivated; any other is Deactivating and its deactivation scheduled,
-- and the end of an AutoEnd one is cancelled.
release_confirms :
    (backend : Backend) (r : Reservation) (c : Connection) (p : DataPlaneState) (k : Option Text)
    → r.has_path ≡ false
    → r.connection ≡ some c
    → backend Primitive.release r.connection_id c ≡ circuit k
    → r.lifecycle_state ≡ created
    → r.provision_state ≡ some releasing
    → r.data_plane_state ≡ some p
    → is_started p ≡ true
    → release_job backend r ≡ record {
      row = record r {
        provision_state = some released;
        data_plane_state = some (plane_released p);
        connection = with_circuit k (some c);
      };
      calls =
          nrm Primitive.release r.connection_id ∷ calls_released r.connection_id p
          ++ result r.connection_id Message.release_confirmed;
      failure = none;
    }
unfolding release_job provision_fsm data_plane_fsm
release_confirms backend r c p k ht hc hb hl hp hd hs = ground arith
