-- ===== src/Job/Recover/Added.antt =====
-- When a list of jobs can be added to the scheduler, and what it then holds.
use su_pa.Base.{
  ℕ, ◌+◌, ◌≤◌, ◌≡◌, refl, true, List, [], ◌∷◌, none, some, ◌==◌, if◌then◌else◌, arith, Option-cases,
  Bool-cases, inl, inr, All, ◌∙◌,
}
use su_pa.Db.Model.{Reservation}
use su_pa.Job.Session.{Trigger}
use su_pa.Job.Scheduler.{JobId, same_job, same_job-eq, same_job_refl, Scheduler}
use su_pa.Job.Recover.{trigger, add_jobs}

abbrev pub count : JobId → List JobId → ℕ
count j [] = 0
count j (k ∷ ks) = (if same_job k j then 1 else 0) + count j ks

-- Each job has a trigger.
abbrev pub Triggered : List Reservation → List JobId → Type 0
Triggered rs js = All (λ j. (t : Trigger) × (trigger j rs ≡ some t)) js

module _ (scheduler : Scheduler) where
  open scheduler use {State, get_job, add_job, conflict, added}

  abbrev pub present : State → JobId → ℕ
  present s j = elim (get_job s j) [ none ↦ 0 | some _ ↦ 1 ]

  -- The first job of a list is added, or not.
  add_first :
      (k : JobId) (ks : List JobId) (rs : List Reservation) (s s' : State) (t : Trigger)
      → trigger k rs ≡ some t
      → add_job k t s ≡ some s'
      → add_jobs scheduler (k ∷ ks) rs s ≡ add_jobs scheduler ks rs s'
  unfolding add_jobs
  add_first k ks rs s s' t e p = rw (add_jobs, e, p) refl

  add_first_untriggered :
      (k : JobId) (ks : List JobId) (rs : List Reservation) (s : State)
      → trigger k rs ≡ none
      → add_jobs scheduler (k ∷ ks) rs s ≡ none
  unfolding add_jobs
  add_first_untriggered k ks rs s e = rw (add_jobs, e) refl

  add_first_conflict :
      (k : JobId) (ks : List JobId) (rs : List Reservation) (s : State) (u : Trigger)
      → get_job s k ≡ some u
      → add_jobs scheduler (k ∷ ks) rs s ≡ none
  unfolding add_jobs
  add_first_conflict k ks rs s u h = elim (Option-cases (trigger k rs)) [
    | inl e ↦ add_first_untriggered k ks rs s e
    | inr (t, e) ↦ rw (add_jobs, e, conflict s k t u h) refl
  ]

  -- The first job cannot be added, or it is and the rest of the list has to fail.
  first_fails_or :
      (k : JobId) (ks : List JobId) (rs : List Reservation) (s : State)
      → ((s' : State) (t : Trigger)
          → ((j : JobId) → get_job s' j ≡ (if same_job k j then some t else get_job s j))
          → add_jobs scheduler ks rs s' ≡ none)
      → add_jobs scheduler (k ∷ ks) rs s ≡ none
  first_fails_or k ks rs s rest = elim (Option-cases (get_job s k)) [
    | inr (v, e) ↦ add_first_conflict k ks rs s v e
    | inl e ↦ elim (Option-cases (trigger k rs)) [
      | inl n ↦ add_first_untriggered k ks rs s n
      | inr (t, n) ↦ let a = added s k t e in add_first k ks rs s a.0 t n a.1 ∙ rest a.0 t a.2
    ]
  ]

  -- A job that the scheduler has already cannot be added.
  pub add_jobs-present :
      (js : List JobId) (rs : List Reservation) (s : State) (i : JobId) (u : Trigger)
      → get_job s i ≡ some u
      → 1 ≤ count i js
      → add_jobs scheduler js rs s ≡ none
  add_jobs-present [] rs s i u h c = absurd (omega arith)
  add_jobs-present (k ∷ ks) rs s i u h c = elim (Bool-cases (same_job k i)) [
    | inl same ↦ add_first_conflict k ks rs s u (rw (same_job-eq k i same) h)
    | inr other ↦
        first_fails_or k ks rs s
          λ s' t holds. add_jobs-present ks rs s' i u (ground (arith, holds i)) (ground arith)
  ]

  -- A job that is listed twice cannot be added twice.
  pub add_jobs-twice :
      (js : List JobId) (rs : List Reservation) (s : State) (i : JobId)
      → 2 ≤ count i js
      → add_jobs scheduler js rs s ≡ none
  add_jobs-twice [] rs s i c = absurd (omega arith)
  add_jobs-twice (k ∷ ks) rs s i c = elim (Bool-cases (same_job k i)) [
    | inl same ↦
        first_fails_or k ks rs s
          λ s' t holds. add_jobs-present ks rs s' i t (ground (arith, holds i)) (ground arith)
    | inr other ↦ first_fails_or k ks rs s λ s' t holds. add_jobs-twice ks rs s' i (ground arith)
  ]

  -- What the scheduler holds when all jobs were added.
  abbrev pub Adds : List JobId → List Reservation → State → Type 0
  Adds js rs s =
      (s' : State) × (add_jobs scheduler js rs s ≡ some s')
      × ((j : JobId) → get_job s' j ≡ (if count j js == 0 then get_job s j else trigger j rs))

  first_absent :
      (k : JobId) (ks : List JobId) (s : State)
      → count k (k ∷ ks) + present s k ≤ 1
      → get_job s k ≡ none
  first_absent k ks s c = ground (arith, same_job_refl k)

  rest_absent :
      (k : JobId) (ks : List JobId) (s s' : State) (t : Trigger) (j : JobId)
      → count j (k ∷ ks) + present s j ≤ 1
      → get_job s' j ≡ (if same_job k j then some t else get_job s j)
      → count j ks + present s' j ≤ 1
  rest_absent k ks s s' t j c holds = ground arith

  same_holds :
      (k : JobId) (ks : List JobId) (rs : List Reservation) (s s' s'' : State) (t : Trigger)
      (j : JobId)
      → k ≡ j
      → trigger k rs ≡ some t
      → get_job s' j ≡ (if same_job k j then some t else get_job s j)
      → get_job s'' j ≡ (if count j ks == 0 then get_job s' j else trigger j rs)
      → get_job s'' j ≡ (if count j (k ∷ ks) == 0 then get_job s j else trigger j rs)
  same_holds k ks rs s s' s'' t j same e p q =
      let e' : trigger j rs ≡ some t = rw (← same) e in
      let one : same_job k j ≡ true = rw same (same_job_refl j) in ground arith

  first_holds :
      (k : JobId) (ks : List JobId) (rs : List Reservation) (s s' s'' : State) (t : Trigger)
      (j : JobId)
      → trigger k rs ≡ some t
      → get_job s' j ≡ (if same_job k j then some t else get_job s j)
      → get_job s'' j ≡ (if count j ks == 0 then get_job s' j else trigger j rs)
      → get_job s'' j ≡ (if count j (k ∷ ks) == 0 then get_job s j else trigger j rs)
  first_holds k ks rs s s' s'' t j e p q = elim (Bool-cases (same_job k j)) [
    | inl same ↦ same_holds k ks rs s s' s'' t j (same_job-eq k j same) e p q
    | inr other ↦ ground arith
  ]

  -- Jobs that have triggers, no two with one ID and none that the scheduler has, are all added.
  pub add_jobs-Adds :
      (js : List JobId) (rs : List Reservation) (s : State)
      → Triggered rs js
      → ((j : JobId) → count j js + present s j ≤ 1)
      → Adds js rs s
  unfolding add_jobs
  add_jobs-Adds [] rs s h c = (s, refl, λ j. refl)
  add_jobs-Adds (k ∷ ks) rs s h c =
      let a = added s k h.0.0 (first_absent k ks s (c k)) in
      let b = add_jobs-Adds ks rs a.0 h.1 (λ j. rest_absent k ks s a.0 h.0.0 j (c j) (a.2 j)) in
      (
        b.0,
        add_first k ks rs s a.0 h.0.0 h.0.1 a.1 ∙ b.1,
        λ j. first_holds k ks rs s a.0 b.0 h.0.0 j h.0.1 (a.2 j) (b.2 j),
      )
