-- ===== src/Job/Scheduler/Leftover.antt =====
-- Requests that find a timeout job where they expect none, or none where they expect one.
use mathlib.Core.Path.{subst}
use su_pa.Base.{
  ℕ, ◌≡◌, refl, Bool, true, false, List, [], ◌∷◌, some, arith, All, Option-cases, inl, inr, ◌∙◌,
}
use su_pa.Connection.Fsm.{reservation_fsm}
use su_pa.Connection.Provider.{Header, Context, acknowledgment, handle, on_row}
use su_pa.Connection.Provider.Requests.{reserve_abort}
use su_pa.Connection.Provider.Reserve.{
  ReserveRequest, reserve, modify_body, modify_state, append_version,
}
use su_pa.Db.Model.{Reservation}
use su_pa.Job.Reserve.Abort.{reserve_abort_job_run}
use su_pa.Job.Scheduler.{JobId, same_job, Scheduler}
use su_pa.Job.Scheduler.Calls.{job_id, run_call, run_calls}
use su_pa.Job.Session.{
  JobKind, reserve_job, reserve_timeout_job, Trigger, immediately, hold_timeout, Call, add_job,
  remove_job, add_job_once, nrm, register_request, register_result, register_notification, send,
  Backend, RequestType, Outcome, done, raised,
}

abbrev is_timeout : JobKind → Bool
is_timeout reserve_timeout_job = true
is_timeout _ = false

-- A call for a timeout job.
abbrev touches : Call → Bool
touches (add_job k i t) = is_timeout k
touches (remove_job k i) = is_timeout k
touches (add_job_once k i t) = is_timeout k
touches _ = false

other_kind :
    (k : JobKind) (i j : ℕ)
    → is_timeout k ≡ false
    → same_job (job_id k j) (job_id reserve_timeout_job i) ≡ false
other_kind reserve_timeout_job i j h = absurd (cc)
other_kind _ i j h = refl

abbrev calls_of : {A : Type 0} → Outcome A → List Call
calls_of (done r cs a) = cs
calls_of (raised cs e) = cs

abort-Untouched :
    (x : Context) (header : Header) (i : ℕ) (r : Reservation)
    → All (λ c. touches c ≡ false) (reserve_abort x header i (some r)).calls
unfolding reserve_abort handle reservation_fsm
abort-Untouched x header i r = ground arith

abort_job-Untouched :
    (backend : Backend) (r : Reservation)
    → All (λ c. touches c ≡ false) (reserve_abort_job_run backend r).calls
unfolding reserve_abort_job_run reservation_fsm
abort_job-Untouched backend r = ground arith

modify_body-silent :
    (x : Context) (i : ℕ) (q : ReserveRequest) (r : Reservation)
    → calls_of (modify_body x i q r) ≡ []
unfolding modify_body modify_state append_version reservation_fsm
modify_body-silent x i q r = ground arith

modify_after :
    (x : Context) (header : Header) (fresh i : ℕ) (q : ReserveRequest) (r : Reservation)
    → q.connection_id ≡ some i
    → (reserve x header fresh q (some r)).response ≡ some acknowledgment
    → (reserve x header fresh q (some r)).calls
      ≡ register_request RequestType.reserve i
        ∷ add_job reserve_job i immediately
        ∷ add_job reserve_timeout_job i hold_timeout
        ∷ []
unfolding reserve on_row
modify_after x header fresh i q r e h = ground (arith, modify_body-silent x i q r)

module _ (scheduler : Scheduler) where
  open scheduler use {State, get_job, added, removed, conflict, lookup_error}

  add_job-keeps :
      (i j : JobId) (t : Trigger) (s s' : State)
      → same_job j i ≡ false
      → scheduler.add_job j t s ≡ some s'
      → get_job s' i ≡ get_job s i
  add_job-keeps i j t s s' d e = elim (Option-cases (get_job s j)) [
    | inr (u, present) ↦ absurd (ground (arith, conflict s j t u))
    | inl absent ↦
        let a = added s j t absent in
        let same : a.0 ≡ s' = ground arith in
        subst (λ x. get_job x i ≡ get_job s i) same (ground (arith, a.2 i))
  ]

  remove_job-keeps :
      (i j : JobId) (s s' : State)
      → same_job j i ≡ false
      → scheduler.remove_job j s ≡ some s'
      → get_job s' i ≡ get_job s i
  remove_job-keeps i j s s' d e = elim (Option-cases (get_job s j)) [
    | inl absent ↦ absurd (ground (arith, lookup_error s j))
    | inr (u, present) ↦
        let a = removed s j u present in
        let same : a.0 ≡ s' = ground arith in
        subst (λ x. get_job x i ≡ get_job s i) same (ground (arith, a.2 i))
  ]

  run_call-keeps :
      (i : ℕ) (c : Call) (s s' : State)
      → touches c ≡ false
      → run_call scheduler c s ≡ some s'
      → get_job s' (job_id reserve_timeout_job i) ≡ get_job s (job_id reserve_timeout_job i)
  unfolding run_call
  run_call-keeps i (add_job k j t) s s' h e =
      add_job-keeps _ (job_id k j) t s s' (other_kind k i j h) e
  run_call-keeps i (remove_job k j) s s' h e =
      remove_job-keeps _ (job_id k j) s s' (other_kind k i j h) e
  run_call-keeps i (add_job_once k j t) s s' h e = elim (Option-cases (get_job s (job_id k j))) [
    | inl absent ↦ add_job-keeps _ (job_id k j) t s s' (other_kind k i j h) (rw absent at e)
    | inr (u, present) ↦ ground arith
  ]
  run_call-keeps i (nrm p j) s s' h e = ground arith
  run_call-keeps i (register_request y j) s s' h e = ground arith
  run_call-keeps i (register_result j m) s s' h e = ground arith
  run_call-keeps i (register_notification j m) s s' h e = ground arith
  run_call-keeps i (send m) s s' h e = ground arith

  run_calls-keeps :
      (i : ℕ) (cs : List Call) (s : State)
      → All (λ c. touches c ≡ false) cs
      → get_job (run_calls scheduler cs s).state (job_id reserve_timeout_job i)
        ≡ get_job s (job_id reserve_timeout_job i)
  unfolding run_calls
  run_calls-keeps i [] s h = refl
  run_calls-keeps i (c ∷ cs) s h = elim (Option-cases (run_call scheduler c s)) [
    | inl e ↦ rw (run_calls, e) refl
    | inr (s', e) ↦ rw (run_calls, e) (run_calls-keeps i cs s' h.1 ∙ run_call-keeps i c s s' h.0 e)
  ]

  conflicts :
      (i : ℕ) (s : State) (u : Trigger)
      → get_job s (job_id reserve_timeout_job i) ≡ some u
      → (run_calls scheduler
          (register_request RequestType.reserve i
            ∷ add_job reserve_job i immediately
            ∷ add_job reserve_timeout_job i hold_timeout
            ∷ [])
          s).succeeds
        ≡ false
  unfolding run_calls
  conflicts i s u held = elim (Option-cases (get_job s (job_id reserve_job i))) [
    | inr (v, present) ↦ ground (arith, conflict s (job_id reserve_job i) immediately v)
    | inl absent ↦
        let a = added s (job_id reserve_job i) immediately absent in
        ground (
          arith,
          a.1,
          a.2 (job_id reserve_timeout_job i),
          conflict a.0 (job_id reserve_timeout_job i) hold_timeout u,
        )
  ]

  -- A reservation is aborted while its timeout job is scheduled. Neither the handler nor the job
  -- removes it, so that the next acknowledged modification ends in an exception of the scheduler.
  pub modify_after_abort_conflicts :
      (x x' : Context) (header header' : Header) (fresh i : ℕ) (q : ReserveRequest)
      (backend : Backend) (r r' r'' : Reservation) (s : State) (u : Trigger)
      → get_job s (job_id reserve_timeout_job i) ≡ some u
      → q.connection_id ≡ some i
      → (reserve x' header' fresh q (some r'')).response ≡ some acknowledgment
      → let aborting = (run_calls scheduler (reserve_abort x header i (some r)).calls s).state in
        let aborted =
          (run_calls scheduler (reserve_abort_job_run backend r').calls aborting).state in
        (run_calls scheduler (reserve x' header' fresh q (some r'')).calls aborted).succeeds ≡ false
  modify_after_abort_conflicts x x' header header' fresh i q backend r r' r'' s u held e ok =
      rw (modify_after x' header' fresh i q r'' e ok) (
        conflicts i _ u (
          run_calls-keeps i _ _ (abort_job-Untouched backend r')
          ∙ run_calls-keeps i _ s (abort-Untouched x header i r)
          ∙ held))
