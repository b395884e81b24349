-- ===== src/Program/Versions/Exec.antt =====
-- The versions of a reservation after any steps of the program.
use native.Mathlib.Nat.{le_refl}
use su_pa.Base.{
  ◌≢◌, ℕ, suc, ◌<◌, ◌≡◌, refl, Bool, true, false, List, [], ◌∷◌, none, some, arith, last?, ◌⊎◌, inl,
  inr,
}
use su_pa.Connection.Provider.{Context, Header, handle}
use su_pa.Connection.Provider.Requests.{
  reserve_commit, reserve_abort, provision, release, terminate,
}
use su_pa.Connection.Provider.Reserve.{
  ReserveRequest, blank_reservation, reserve, new_body, new_schedule,
}
use su_pa.Db.Model.{Reservation, Schedule, P2PCriteria, schedule_at, schedule}
use su_pa.Job.Session.{Call, Outcome, done, raised, Exception}
use su_pa.Connection.Provider.{Response}
use su_pa.Job.Provision.{provision_update, release_update}
use su_pa.Job.Dataplane.{activate_update, deactivate_update, auto_end_update}
use su_pa.Job.Lifecycle.{terminate_update, force_end}
use su_pa.Job.Reserve.Commit.{commit_call, commit_update}
use su_pa.Job.Reserve.Hold.{hold_update}
use su_pa.Job.Reserve.Timeout.{timeout_call, timeout_update}
use su_pa.Program.{Step, modifies, hold_first, abort_second, exec, exec_all}
use su_pa.Program.Monotone.{modifies_cases}
use su_pa.Program.Versions.{Aligned, IsVersioned, Frame, begun-Aligned, IsVersioned-Frame}
use su_pa.Program.Versions.Modify.{IsVersioned-modify_body}
use su_pa.Program.Versions.Reserve.{IsVersioned-hold_call, IsVersioned-abort_update}

abbrev changes_versions : Step → Bool
changes_versions (modifies x h q) = true
changes_versions (hold_first b d) = true
changes_versions (abort_second b) = true
changes_versions _ = false

Frame-exec : (s : Step) (r : Reservation) → changes_versions s ≡ false → Frame r (exec s r)
unfolding exec commit_call commit_update timeout_call timeout_update provision_update release_update
    activate_update deactivate_update terminate_update auto_end_update force_end hold_update handle
    reserve_commit reserve_abort provision release terminate
Frame-exec (modifies x h q) r e = cc
Frame-exec (hold_first b d) r e = cc
Frame-exec (abort_second b) r e = cc
Frame-exec _ r e = ground arith

IsVersioned-modifies :
    (first : ℕ) (x : Context) (k : Header) (q : ReserveRequest) (r : Reservation)
    → IsVersioned first r
    → IsVersioned first (exec (modifies x k q) r)
IsVersioned-modifies first x k q r h = elim (modifies_cases x k q r) [
  | inl same ↦ rw same h
  | inr e ↦ rw e (
      IsVersioned-modify_body first x r.connection_id
        (record q { connection_id = some r.connection_id }) r h)
]

pub IsVersioned-exec :
    (first : ℕ) (s : Step) (r : Reservation) → IsVersioned first r → IsVersioned first (exec s r)
unfolding exec
IsVersioned-exec first (modifies x k q) r h = IsVersioned-modifies first x k q r h
IsVersioned-exec first (hold_first backend d) r h = IsVersioned-hold_call first backend d r h
IsVersioned-exec first (abort_second b) r h = IsVersioned-abort_update first b r h
IsVersioned-exec first s r h = IsVersioned-Frame first r (exec s r) (Frame-exec s r refl) h

-- If the schedules and the criteria of a reservation have the consecutive versions from `first`
-- to the current one, and each schedule starts before it ends, then so it is after any steps of
-- the program.
pub IsVersioned-exec_all :
    (first : ℕ) (ss : List Step) (r : Reservation)
    → IsVersioned first r
    → IsVersioned first (exec_all ss r)
unfolding exec_all
IsVersioned-exec_all first [] r h = h
IsVersioned-exec_all first (s ∷ ss) r h =
    IsVersioned-exec_all first ss (exec s r) (IsVersioned-exec first s r h)

Aligned-last :
    (v last : ℕ) (ss : List Schedule) (cs : List P2PCriteria)
    → Aligned v last ss cs
    → schedule_at last ss ≡ last? ss
Aligned-last v last [] cs h = refl
Aligned-last v last (u ∷ ss) [] h = absurd h
Aligned-last v last (u ∷ []) (d ∷ []) h = ground arith
Aligned-last v last (u ∷ []) (d ∷ e ∷ cs) h = absurd h.3
Aligned-last v last (u ∷ w ∷ ss) (d ∷ []) h = absurd h.3
Aligned-last v last (u ∷ w ∷ ss) (d ∷ e ∷ cs) h = ground (
  arith,
  Aligned-last (suc v) last (w ∷ ss) (e ∷ cs) h.3,
  begun-Aligned (suc (suc v)) last ss cs h.3.3,
)

-- If a reservation has the consecutive versions from `first`, then after any steps of the program
-- the schedule of the current version, which the jobs read, is the last of the list, which the
-- handler `Reserve` reads.
schedule_is_last :
    (first : ℕ) (ss : List Step) (r : Reservation)
    → IsVersioned first r
    → schedule (exec_all ss r) ≡ last? (exec_all ss r).schedules
schedule_is_last first ss r h = Aligned-last first _ _ _ (IsVersioned-exec_all first ss r h).aligned

new_body_versions :
    (x : Context) (q : ReserveRequest) (r r' : Reservation) (cs : List Call) (a : Response)
    → new_body x q r ≡ done r' cs a
    → let s = new_schedule x.now q.version q.start_time q.end_time in
      (r'.version ≡ r.version)
      × (r'.schedules ≡ r.schedules)
      × (s.start_time < s.end_time)
      × Aligned q.version q.version (s ∷ []) r'.p2p_criteria_list
unfolding new_body
new_body_versions x q r r' cs a h = ground arith

Outcome-cases :
    (o : Outcome Response)
    → ((r : Reservation) × (cs : List Call) × (a : Response) × (o ≡ done r cs a))
      ⊎ ((cs : List Call) × (e : Exception) × (o ≡ raised cs e))
Outcome-cases (done r cs a) = inl (r, cs, a, refl)
Outcome-cases (raised cs e) = inr (cs, e, refl)

reserve_done :
    (x : Context) (k : Header) (fresh : ℕ) (q : ReserveRequest) (r r' : Reservation)
    (cs : List Call) (a : Response)
    → q.connection_id ≡ none
    → (reserve x k fresh q none).row ≡ some r
    → new_body x q (blank_reservation x k fresh q) ≡ done r' cs a
    → r ≡ r'
unfolding reserve
reserve_done x k fresh q r r' cs a e h d = ground arith

reserve_raised :
    (x : Context) (k : Header) (fresh : ℕ) (q : ReserveRequest) (r : Reservation) (cs : List Call)
    (y : Exception)
    → q.connection_id ≡ none
    → (reserve x k fresh q none).row ≡ some r
    → new_body x q (blank_reservation x k fresh q) ≢ raised cs y
unfolding reserve
reserve_raised x k fresh q r cs y e h d = ground arith

-- A new reservation that the handler `Reserve` stores has one schedule and one criteria, both of
-- the requested version, and the schedule starts before it ends.
reserve_new-IsVersioned :
    (x : Context) (k : Header) (fresh : ℕ) (q : ReserveRequest) (r : Reservation)
    → q.connection_id ≡ none
    → (reserve x k fresh q none).row ≡ some r
    → IsVersioned q.version r
reserve_new-IsVersioned x k fresh q r e h =
    elim (Outcome-cases (new_body x q (blank_reservation x k fresh q))) [
      | inl (r', cs, a, d) ↦
          rw (reserve_done x k fresh q r r' cs a e h d)
            (from_body r' (new_body_versions x q _ r' cs a d))
      | inr (cs, y, d) ↦ absurd (reserve_raised x k fresh q r cs y e h d)
    ]
  where
    from_body :
        (r' : Reservation)
        → let s = new_schedule x.now q.version q.start_time q.end_time in
          (r'.version ≡ q.version)
            × (r'.schedules ≡ s ∷ [])
            × (s.start_time < s.end_time)
            × Aligned q.version q.version (s ∷ []) r'.p2p_criteria_list
          → IsVersioned q.version r'
    from_body r' (v, ss, t, al) = record {
      begun = rw v (le_refl q.version);
      aligned = rw (v, ss) al;
    }
