-- ===== src/Connection/Provider/Requests.antt =====
-- The handlers `ReserveCommit`, `ReserveAbort`, `Provision`, `Release` and `Terminate` of
-- src/supa/connection/provider/server.py.
use su_pa.Base.{ℕ, Bool, true, false, [], ◌∷◌, Option, none, some, ltb, leb, if◌then◌else◌, length}
use su_pa.Connection.Fsm.{
  ProvisionState, ProvisionEvent, reserve_commit_request, reserve_abort_request, provision_request,
  release_request, terminate_request, is_terminating,
}
use su_pa.Connection.Error.{NsiError, generic_service_error, invalid_transition}
use su_pa.Connection.Provider.{
  Header, Context, Response, acknowledgment, service_exception, Handled, handle,
}
use su_pa.Db.Model.{Reservation, schedule}
use su_pa.Job.Session.{
  Session, reserve_commit_job, reserve_abort_job, reserve_timeout_job, provision_job, release_job,
  terminate_job, immediately, RequestType, attribute_error, add_job, remove_job, add_job_once,
  register_request, ◌>>=◌, pure, read, get, try_reservation, try_provision, try_lifecycle,
}

-- The response to an event of a state machine, allowed or not.
abbrev acknowledge : ℕ → Bool → Session Response
acknowledge i true = pure acknowledgment
acknowledge i false = pure (service_exception invalid_transition (some i))

abbrev refuse : ℕ → NsiError → Session Response
refuse i e = pure (service_exception e (some i))

reserve_commit_body : ℕ → Session Response
reserve_commit_body i = do
  r ← read
  if r.reservation_timeout
      then refuse i generic_service_error
      else (do allowed ← try_reservation reserve_commit_request; acknowledge i allowed)

-- `ReserveCommit`.
unfoldable pub reserve_commit : Context → Header → ℕ → Option Reservation → Handled
unfolding reserve_commit_body
reserve_commit x header i = handle x header i (reserve_commit_body i) (
    remove_job reserve_timeout_job i
    ∷ register_request RequestType.reserve_commit i
    ∷ add_job reserve_commit_job i immediately
    ∷ [])

reserve_abort_body : ℕ → Session Response
reserve_abort_body i = do
  r ← read
  if leb (length r.p2p_criteria_list) 1
      then refuse i invalid_transition
      else (do allowed ← try_reservation reserve_abort_request; acknowledge i allowed)

-- `ReserveAbort`.
unfoldable pub reserve_abort : Context → Header → ℕ → Option Reservation → Handled
unfolding reserve_abort_body
reserve_abort x header i =
    handle x header i (reserve_abort_body i)
      (register_request RequestType.reserve_abort i ∷ add_job reserve_abort_job i immediately ∷ [])

-- What `Provision` and `Release` ask of the reservation before their event.
provision_event_body : ℕ → ℕ → ProvisionEvent → Option ProvisionState → Session Response
provision_event_body now i e none = refuse i invalid_transition
provision_event_body now i e (some _) = do
  r ← read
  s ← get attribute_error (schedule r)
  if ltb s.end_time now
      then refuse i generic_service_error
      else (do allowed ← try_provision e; acknowledge i allowed)

provision_body : ℕ → ℕ → ProvisionEvent → Session Response
unfolding provision_event_body
provision_body now i e = do r ← read; provision_event_body now i e r.provision_state

-- `Provision`.
unfoldable pub provision : Context → Header → ℕ → Option Reservation → Handled
unfolding provision_body
provision x header i =
    handle x header i (provision_body x.now i provision_request)
      (register_request RequestType.provision i ∷ add_job provision_job i immediately ∷ [])

-- `Release`.
unfoldable pub release : Context → Header → ℕ → Option Reservation → Handled
unfolding provision_body
release x header i =
    handle x header i (provision_body x.now i release_request)
      (register_request RequestType.release i ∷ add_job release_job i immediately ∷ [])

terminate_body : ℕ → Session Response
terminate_body i = do
  r ← read
  if is_terminating r.lifecycle_state
      then pure acknowledgment
      else (do allowed ← try_lifecycle terminate_request; acknowledge i allowed)

-- `Terminate`.
unfoldable pub terminate : Context → Header → ℕ → Option Reservation → Handled
unfolding terminate_body
terminate x header i =
    handle x header i (terminate_body i)
      (register_request RequestType.terminate i ∷ add_job_once terminate_job i immediately ∷ [])
