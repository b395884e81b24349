-- ===== src/Connection/Provider/Acceptance.antt =====
-- When the handlers of src/supa/connection/provider/server.py accept a request, what they change,
-- and what they schedule.
use su_pa.Base.{
  ℕ, ◌≡◌, Bool, true, false, List, [], ◌∷◌, Option, none, some, length, arith, ltb, leb, not, ◌&&◌,
}
use su_pa.Connection.Fsm.{
  reserve_held, reserve_timeout, reserve_committing, reserve_aborting, released, provisioning,
  provisioned, releasing, terminating, terminated, LifecycleState, ProvisionState, ReservationState,
  reservation_fsm, provision_fsm, lifecycle_fsm,
}
use su_pa.Connection.Provider.{
  Header, Context, Response, acknowledgment, service_exception, Handled, validate_message_header,
  handle,
}
use su_pa.Connection.Provider.Requests.{
  reserve_commit, reserve_abort, provision, release, terminate,
}
use su_pa.Db.Model.{Reservation, Schedule, schedule}
use su_pa.Job.Session.{
  reserve_commit_job, reserve_abort_job, reserve_timeout_job, provision_job, release_job,
  terminate_job, immediately, RequestType, add_job, remove_job, add_job_once, register_request,
  Call,
}

abbrev pub is_exception : Option Response → Bool
is_exception none = false
is_exception (some acknowledgment) = false
is_exception (some (service_exception e i)) = true

-- The answer is a service exception, and nothing else happened.
abbrev pub Refused : Option Reservation → Handled → Type 0
Refused r h = (h.row ≡ r) × (h.calls ≡ []) × (h.failure ≡ none) × (is_exception h.response ≡ true)

-- The request was accepted: the row is changed to `r'`, and the calls are made.
abbrev pub Accepted : Reservation → List Call → Handled → Type 0
Accepted r' calls h =
    h ≡ record { row = some r'; response = some acknowledgment; calls = calls; failure = none }

abbrev pub is_held_or_timeout : ReservationState → Bool
is_held_or_timeout reserve_held = true
is_held_or_timeout reserve_timeout = true
is_held_or_timeout _ = false

abbrev pub may_commit : Reservation → Bool
may_commit r = not r.reservation_timeout && is_held_or_timeout r.reservation_state

-- `ReserveCommit` of a valid message: a reservation in ReserveHeld or ReserveTimeout that is not
-- flagged as timed out goes to ReserveCommitting, its timeout job is to be removed and the commit to
-- be scheduled, and the response is an acknowledgment if the scheduler does both. Any other is refused and left as it is, and nothing is scheduled.
pub reserve_commit_handles :
    (x : Context) (header : Header) (i : ℕ) (r : Reservation)
    → validate_message_header x header ≡ none
    → (may_commit r ≡ true
        → Accepted
            (record r { reservation_state = reserve_committing })
            (remove_job reserve_timeout_job i
              ∷ register_request RequestType.reserve_commit i
              ∷ add_job reserve_commit_job i immediately
              ∷ [])
            (reserve_commit x header i (some r)))
      × (may_commit r ≡ false → Refused (some r) (reserve_commit x header i (some r)))
unfolding reserve_commit reservation_fsm handle
reserve_commit_handles x header i r valid = (λ h. ground arith, λ h. ground arith)

abbrev pub is_abortable : ReservationState → Bool
is_abortable ReservationState.reserve_failed = true
is_abortable reserve_held = true
is_abortable reserve_timeout = true
is_abortable _ = false

abbrev pub may_abort : Reservation → Bool
may_abort r = ltb 1 (length r.p2p_criteria_list) && is_abortable r.reservation_state

-- `ReserveAbort` of a valid message: a reservation with more than one version that failed, is
-- held or timed out goes to ReserveAborting and the abort is scheduled; the job that times out
-- the hold is not removed. Any other is refused and left as it is, and nothing is scheduled.
reserve_abort_cases :
    (x : Context) (header : Header) (i : ℕ) (r : Reservation)
    → validate_message_header x header ≡ none
    → (may_abort r ≡ true
        → Accepted
            (record r { reservation_state = reserve_aborting })
            (register_request RequestType.reserve_abort i
              ∷ add_job reserve_abort_job i immediately
              ∷ [])
            (reserve_abort x header i (some r)))
      × (may_abort r ≡ false → Refused (some r) (reserve_abort x header i (some r)))
unfolding reserve_abort reservation_fsm handle
reserve_abort_cases x header i r valid = (λ h. ground arith, λ h. ground arith)

abbrev pub is_in : ProvisionState → Option ProvisionState → Bool
is_in released (some released) = true
is_in provisioned (some provisioned) = true
is_in _ _ = false

-- `Provision` and `Release` of a valid message, on a reservation that has a schedule: one that is
-- Released, or Provisioned, and whose end time has not passed goes to Provisioning, or to
-- Releasing, and the job is scheduled. Any other is refused and left as it is, and nothing is
-- scheduled.
provision_cases :
    (x : Context) (header : Header) (i : ℕ) (r : Reservation) (s : Schedule)
    → validate_message_header x header ≡ none
    → schedule r ≡ some s
    → ((is_in released r.provision_state && leb x.now s.end_time) ≡ true
        → Accepted
            (record r { provision_state = some provisioning })
            (register_request RequestType.provision i ∷ add_job provision_job i immediately ∷ [])
            (provision x header i (some r)))
      × ((is_in released r.provision_state && leb x.now s.end_time) ≡ false
          → Refused (some r) (provision x header i (some r)))
      × ((is_in provisioned r.provision_state && leb x.now s.end_time) ≡ true
          → Accepted
              (record r { provision_state = some releasing })
              (register_request RequestType.release i ∷ add_job release_job i immediately ∷ [])
              (release x header i (some r)))
      × ((is_in provisioned r.provision_state && leb x.now s.end_time) ≡ false
          → Refused (some r) (release x header i (some r)))
unfolding provision release provision_fsm handle
provision_cases x header i r s valid hs =
    (λ h. ground arith, λ h. ground arith, λ h. ground arith, λ h. ground arith)

abbrev pub may_terminate : LifecycleState → Bool
may_terminate terminated = false
may_terminate _ = true

-- `Terminate` of a valid message: every reservation that is not terminated is terminating, also
-- one that was so before, and the job is scheduled unless it is queued. A terminated one is
-- refused and left as it is, and nothing is scheduled.
pub terminate_cases :
    (x : Context) (header : Header) (i : ℕ) (r : Reservation)
    → validate_message_header x header ≡ none
    → (may_terminate r.lifecycle_state ≡ true
        → Accepted
            (record r { lifecycle_state = terminating })
            (register_request RequestType.terminate i
              ∷ add_job_once terminate_job i immediately
              ∷ [])
            (terminate x header i (some r)))
      × (may_terminate r.lifecycle_state ≡ false → Refused (some r) (terminate x header i (some r)))
unfolding terminate lifecycle_fsm handle
terminate_cases x header i r valid = (λ h. ground arith, λ h. ground arith)

-- The handlers but `Reserve` answer a request for a connection that is not there by a service
-- exception, and schedule nothing.
pub unknown-Refused :
    (x : Context) (header : Header) (i : ℕ)
    → Refused none (reserve_commit x header i none)
      × Refused none (reserve_abort x header i none)
      × Refused none (provision x header i none)
      × Refused none (release x header i none)
      × Refused none (terminate x header i none)
unfolding reserve_commit reserve_abort provision release terminate handle
unknown-Refused x header i = (ground arith, ground arith, ground arith, ground arith, ground arith)
