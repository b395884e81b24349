-- ===== src/Job/Scheduler/Calls.antt =====
-- What the calls of a handler or a job do to the scheduler. An exception of the scheduler ends them.
use su_pa.Base.{if◌then◌else◌, ℕ, Bool, true, false, List, [], ◌∷◌, Option, none, some}
use su_pa.Connection.Provider.{Handled, Response}
use su_pa.Db.Model.{Reservation}
use su_pa.Job.Session.{
  JobKind, Trigger, Call, add_job, remove_job, add_job_once, nrm, register_request, register_result,
  register_notification, send,
}
use su_pa.Job.Scheduler.{JobId, Scheduler}

abbrev pub job_id : JobKind → ℕ → JobId
job_id k i = record { kind = k; connection_id = i }

module _ (scheduler : Scheduler) where
  open scheduler use {State, get_job}

  -- `if not scheduler.get_job(job_id): scheduler.add_job(…)`.
  abbrev pub add_unless : Option Trigger → JobId → Trigger → State → Option State
  add_unless none j t s = scheduler.add_job j t s
  add_unless (some u) j t s = some s

  -- none is a ConflictingIdError or a JobLookupError.
  unfoldable pub run_call : Call → State → Option State
  run_call (add_job k i t) s = scheduler.add_job (job_id k i) t s
  run_call (remove_job k i) s = scheduler.remove_job (job_id k i) s
  run_call (add_job_once k i t) s = add_unless (get_job s (job_id k i)) (job_id k i) t s
  run_call (nrm p i) s = some s
  run_call (register_request x i) s = some s
  run_call (register_result i m) s = some s
  run_call (register_notification i m) s = some s
  run_call (send m) s = some s

  -- The scheduler after the calls, and whether all of them succeeded.
  pub record Scheduled : Type 0 where
    pub state : State
    pub succeeds : Bool

  unfoldable pub run_calls : List Call → State → Scheduled
  unfolding run_call
  run_calls [] s = record { state = s; succeeds = true }
  run_calls (c ∷ cs) s = elim (run_call c s) [
    | none ↦ record { state = s; succeeds = false }
    | some s' ↦ run_calls cs s'
  ]

  -- What the request and its handler leave behind, when the scheduler is in `s`: the row is committed
  -- before the calls, and an exception of the scheduler is raised in the place of the response.
  pub record Served : Type 0 where
    pub row : Option Reservation
    pub response : Option Response
    pub state : State

  unfoldable pub served : Handled → State → Served
  unfolding run_calls
  served h s =
      let run = run_calls h.calls s in
      record {
        row = h.row;
        response = if run.succeeds then h.response else none;
        state = run.state;
      }
