-- ===== src/Job/Scheduler/Commit.antt =====
-- The handler `ReserveCommit` of src/supa/connection/provider/server.py and the scheduler.
use su_pa.Base.{ℕ, ◌≡◌, true, false, none, some, arith, if◌then◌else◌}
use su_pa.Connection.Fsm.{reserve_committing, reservation_fsm}
use su_pa.Connection.Provider.{Header, Context, acknowledgment, validate_message_header, handle}
use su_pa.Connection.Provider.Acceptance.{may_commit, is_exception}
use su_pa.Connection.Provider.Requests.{reserve_commit}
use su_pa.Db.Model.{Reservation}
use su_pa.Job.Scheduler.{JobId, same_job, Scheduler}
use su_pa.Job.Scheduler.Calls.{job_id, Served, served}
use su_pa.Job.Session.{reserve_commit_job, reserve_timeout_job, Trigger, immediately}

module _ (scheduler : Scheduler) where
  open scheduler use {State, get_job, added, removed, conflict, lookup_error}

  -- The row is ReserveCommitting and the commit is acknowledged; of the scheduled jobs, only the
  -- timeout job is removed and the commit job added, to run at once.
  abbrev pub Committing : ℕ → Reservation → State → Served scheduler → Type 0
  Committing i r s h =
      (h.row ≡ some (record r { reservation_state = reserve_committing }))
      × (h.response ≡ some acknowledgment)
      × ((j : JobId)
          → get_job h.state j ≡ (
              if same_job (job_id reserve_commit_job i) j
              then some immediately
              else if same_job (job_id reserve_timeout_job i) j
              then none
              else get_job s j))

  -- The row is ReserveCommitting, but no response is returned and nothing is scheduled.
  abbrev pub Stuck : Reservation → State → Served scheduler → Type 0
  Stuck r s h =
      (h.row ≡ some (record r { reservation_state = reserve_committing }))
      × (h.response ≡ none)
      × (h.state ≡ s)

  -- The response is a service exception, and nothing changed.
  abbrev pub Rejected : Reservation → State → Served scheduler → Type 0
  Rejected r s h = (h.row ≡ some r) × (is_exception h.response ≡ true) × (h.state ≡ s)

  accepted :
      (x : Context) (header : Header) (i : ℕ) (r : Reservation) (s : State) (u : Trigger)
      → validate_message_header x header ≡ none
      → get_job s (job_id reserve_commit_job i) ≡ none
      → may_commit r ≡ true
      → get_job s (job_id reserve_timeout_job i) ≡ some u
      → Committing i r s (served scheduler (reserve_commit x header i (some r)) s)
  unfolding reserve_commit handle reservation_fsm served
  accepted x header i r s u valid idle may present =
      let a = removed s (job_id reserve_timeout_job i) u present in
      let free : get_job a.0 (job_id reserve_commit_job i) ≡ none =
        ground (arith, a.2 (job_id reserve_commit_job i)) in
      let b = added a.0 (job_id reserve_commit_job i) immediately free in
      (
        ground (arith, a.1, b.1),
        ground (arith, a.1, b.1),
        λ j. ground (arith, a.1, b.1, a.2 j, b.2 j),
      )

  unscheduled :
      (x : Context) (header : Header) (i : ℕ) (r : Reservation) (s : State)
      → validate_message_header x header ≡ none
      → may_commit r ≡ true
      → get_job s (job_id reserve_timeout_job i) ≡ none
      → Stuck r s (served scheduler (reserve_commit x header i (some r)) s)
  unfolding reserve_commit handle reservation_fsm served
  unscheduled x header i r s valid may absent =
      ground (arith, lookup_error s (job_id reserve_timeout_job i))

  rejected :
      (x : Context) (header : Header) (i : ℕ) (r : Reservation) (s : State)
      → validate_message_header x header ≡ none
      → may_commit r ≡ false
      → Rejected r s (served scheduler (reserve_commit x header i (some r)) s)
  unfolding reserve_commit handle reservation_fsm served
  rejected x header i r s valid may = ground arith

  -- `ReserveCommit` of a valid message, on any scheduler that has no commit job of the reservation. A
  -- reservation in ReserveHeld or ReserveTimeout that is not flagged as timed out goes to
  -- ReserveCommitting; if its timeout job is scheduled, that job is removed, the commit is
  -- scheduled and the request acknowledged, and if it is not, an exception is raised in the place
  -- of the response, and nothing is scheduled. Any other reservation is left as it is, with a
  -- service exception, and so is the scheduler.
  pub reserve_commit_cases :
      (x : Context) (header : Header) (i : ℕ) (r : Reservation) (s : State)
      → validate_message_header x header ≡ none
      → get_job s (job_id reserve_commit_job i) ≡ none
      → let h = served scheduler (reserve_commit x header i (some r)) s in
        (may_commit r ≡ true
          → (u : Trigger) → get_job s (job_id reserve_timeout_job i) ≡ some u
          → Committing i r s h)
        × (may_commit r ≡ true → get_job s (job_id reserve_timeout_job i) ≡ none → Stuck r s h)
        × (may_commit r ≡ false → Rejected r s h)
  reserve_commit_cases x header i r s valid idle = (
    λ may u present. accepted x header i r s u valid idle may present,
    λ may absent. unscheduled x header i r s valid may absent,
    λ may. rejected x header i r s valid may,
  )
