-- ===== src/Job/Lifecycle/Ending.antt =====
-- What `TerminateJob` leaves behind.
use su_pa.Base.{
  false, ℕ, ◌≡◌, List, [], ◌∷◌, ◌++◌, Option, none, some, arith, inl, inr, Option-cases,
}
use su_pa.Connection.Fsm.{
  DataPlaneState, deactivated, auto_start, activated, auto_end, deactivating, terminating,
  terminated, lifecycle_fsm, data_plane_fsm,
}
use su_pa.Db.Model.{Reservation, Connection}
use su_pa.Job.Session.{
  Backend, circuit, Primitive, Call, nrm, auto_start_job, auto_end_job, deactivate_job, immediately,
  add_job, remove_job, Message, result, data_plane_state_of,
}
use su_pa.Job.Lifecycle.{terminate_job_run}

-- The data plane after a deactivation request, where it is allowed.
abbrev pub plane_terminated : DataPlaneState → DataPlaneState
plane_terminated auto_start = deactivated
plane_terminated activated = deactivating
plane_terminated auto_end = deactivating
plane_terminated p = p

abbrev pub calls_terminated : ℕ → DataPlaneState → List Call
calls_terminated i auto_start = remove_job auto_start_job i ∷ []
calls_terminated i auto_end = remove_job auto_end_job i ∷ add_job deactivate_job i immediately ∷ []
calls_terminated i activated = add_job deactivate_job i immediately ∷ []
calls_terminated i _ = []

abbrev pub calls_nrm : ℕ → Option Connection → List Call
calls_nrm i none = []
calls_nrm i (some c) = nrm Primitive.terminate i ∷ []

-- `TerminateJob` of a terminating reservation whose request came without a path, with or without a
-- connection, whose NRM does not fail and returns no circuit ID: the reservation is Terminated and the requester is told so. A
-- scheduled start or end is cancelled, and `DeactivateJob` is scheduled exactly for an Activated
-- or AutoEnd data plane; one that allows no deactivation stays as it is.
terminate_confirms :
    (backend : Backend) (r : Reservation)
    → r.has_path ≡ false
    → ((c : Connection) → backend Primitive.terminate r.connection_id c ≡ circuit none)
    → r.lifecycle_state ≡ terminating
    → let p = data_plane_state_of r.data_plane_state in
      terminate_job_run backend r ≡ record {
        row = record r {
          lifecycle_state = terminated;
          data_plane_state = some (plane_terminated p);
        };
        calls =
            calls_nrm r.connection_id r.connection
            ++ calls_terminated r.connection_id p
            ++ result r.connection_id Message.terminate_confirmed;
        failure = none;
      }
unfolding terminate_job_run lifecycle_fsm data_plane_fsm
terminate_confirms backend r ht hb hl = elim (Option-cases r.connection) [
  | inl e ↦ ground arith
  | inr (c, e) ↦ ground (arith, hb c)
]
