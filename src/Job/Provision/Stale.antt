-- ===== src/Job/Provision/Stale.antt =====
-- The data plane of a released reservation that was not started.
use su_pa.Base.{false, ◌≡◌, ◌≢◌, [], ◌∷◌, none, some, arith}
use su_pa.Connection.Fsm.{
  releasing, created, DataPlaneState, deactivating, deactivate_request, data_plane_fsm,
  provision_fsm,
}
use su_pa.Db.Model.{Reservation, Connection}
use su_pa.Job.Session.{
  Backend, circuit, Primitive, nrm, deactivate_job, add_job, immediately, result, Message,
  transition_not_allowed,
}
use su_pa.Job.Provision.{release_job}
use su_pa.Job.Dataplane.{deactivate_job_run}

-- If the data plane of a created, releasing reservation, whose request came without a path, is in a state that allows no
-- deactivation, and not Deactivating already, then `ReleaseJob` with an NRM that succeeds
-- schedules `DeactivateJob` nevertheless, which calls the NRM and then fails, and leaves the data
-- plane in that state.
release_of_unstarted :
    (backend : Backend) (r : Reservation) (c : Connection) (p : DataPlaneState)
    → r.has_path ≡ false
    → r.connection ≡ some c
    → backend Primitive.release r.connection_id c ≡ circuit none
    → backend Primitive.deactivate r.connection_id c ≡ circuit none
    → r.lifecycle_state ≡ created
    → r.provision_state ≡ some releasing
    → r.data_plane_state ≡ some p
    → data_plane_fsm p deactivate_request ≡ none
    → p ≢ deactivating
    → let a = release_job backend r in
      let d = deactivate_job_run backend a.row in
      (a.calls
        ≡ nrm Primitive.release r.connection_id
          ∷ add_job deactivate_job r.connection_id immediately
          ∷ result r.connection_id Message.release_confirmed)
      × (d.calls ≡ nrm Primitive.deactivate r.connection_id ∷ [])
      × (d.failure ≡ some transition_not_allowed)
      × (d.row.data_plane_state ≡ some p)
unfolding release_job deactivate_job_run provision_fsm data_plane_fsm
release_of_unstarted backend r c p ht hc hb hb' hl hp hd stuck np =
    (ground arith, ground arith, ground arith, ground arith)
