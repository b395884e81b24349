-- ===== src/Program/Versions.antt =====
-- The versions of the schedules and criteria of a reservation.
pub mod Modify
pub mod Reserve
pub mod Exec
use su_pa.Base.{
  Text, ℕ, zero, suc, ◌+◌, ◌-◌, ◌≤◌, ◌<◌, ◌≡◌, refl, ap, Bool, true, false, List, [], ◌∷◌, ◌++◌,
  Option, none, some, arith, length, ltb, drop_last, last?, second_last?, ◌⊎◌, inl, inr,
  Option-cases, Bool-cases, ◌==◌,
}
use su_pa.Connection.Fsm.{reserve_checking, reservation_fsm}
use su_pa.Connection.Provider.{Context, Header, handle}
use su_pa.Connection.Provider.Requests.{
  reserve_commit, reserve_abort, provision, release, terminate,
}
use su_pa.Connection.Provider.Reserve.{
  ReserveRequest, new_version, new_schedule, modify_body, modify_state, append_version,
}
use su_pa.Db.Model.{
  Reservation, Schedule, P2PCriteria, schedule_at, criteria_at, schedule, p2p_criteria,
}
use su_pa.Connection.Error.{NsiError}
use su_pa.Job.Reserve.Stp.{Checked, ok, refuse, crash}
use su_pa.Job.Session.{Backend, Caught}
use su_pa.Job.Provision.{provision_update, release_update}
use su_pa.Job.Dataplane.{activate_update, deactivate_update, auto_end_update}
use su_pa.Job.Lifecycle.{terminate_update, force_end}
use su_pa.Job.Reserve.Abort.{abort_update}
use su_pa.Job.Reserve.Commit.{commit_call, commit_update}
use su_pa.Job.Reserve.Hold.{Database, Ports, select_in, check_criteria, hold_call, hold_update}
use su_pa.Job.Reserve.Timeout.{timeout_call, timeout_update}
use su_pa.Program.{Step, modifies, hold_first, abort_second, commits, committed, exec, exec_all}
use su_pa.Program.Monotone.{modifies_cases}

abbrev pub Aligned : ℕ → ℕ → List Schedule → List P2PCriteria → Type 0
Aligned v last [] [] = v ≡ suc last
Aligned v last [] (c ∷ cs) = ⊥
Aligned v last (s ∷ ss) [] = ⊥
Aligned v last (s ∷ ss) (c ∷ cs) =
    (s.version ≡ v) × (c.version ≡ v) × (s.start_time < s.end_time) × Aligned (suc v) last ss cs

-- From the version `first` to the current one there is a schedule and there are criteria for each,
-- in order, and each schedule starts before it ends.
pub record IsVersioned (first : ℕ) (r : Reservation) : Type 0 where
  pub begun : first ≤ r.version
  pub aligned : Aligned first r.version r.schedules r.p2p_criteria_list

pub Aligned-append :
    (v last : ℕ) (ss : List Schedule) (cs : List P2PCriteria) (s : Schedule) (c : P2PCriteria)
    → Aligned v last ss cs
    → s.version ≡ suc last
    → c.version ≡ suc last
    → s.start_time < s.end_time
    → Aligned v (suc last) (ss ++ s ∷ []) (cs ++ c ∷ [])
Aligned-append v last [] [] s c h p q t = (ground arith, ground arith, t, ground arith)
Aligned-append v last [] (d ∷ cs) s c h p q t = absurd h
Aligned-append v last (u ∷ ss) [] s c h p q t = absurd h
Aligned-append v last (u ∷ ss) (d ∷ cs) s c h p q t =
    (h.0, h.1, h.2, Aligned-append (suc v) last ss cs s c h.3 p q t)

-- The versions go up to the current one.
pub begun-Aligned :
    (v last : ℕ) (ss : List Schedule) (cs : List P2PCriteria) → Aligned v last ss cs → v ≤ suc last
begun-Aligned v last [] [] h = omega arith
begun-Aligned v last [] (d ∷ cs) h = absurd h
begun-Aligned v last (u ∷ ss) [] h = absurd h
begun-Aligned v last (u ∷ ss) (d ∷ cs) h = omega (arith, begun-Aligned (suc v) last ss cs h.3)

pub Aligned-drop_last :
    (v last : ℕ) (ss : List Schedule) (cs : List P2PCriteria)
    → Aligned v (suc last) ss cs
    → v ≤ suc last
    → Aligned v last (drop_last ss) (drop_last cs)
Aligned-drop_last v last [] [] h k = omega arith
Aligned-drop_last v last [] (d ∷ cs) h k = absurd h
Aligned-drop_last v last (u ∷ ss) [] h k = absurd h
Aligned-drop_last v last (u ∷ []) (d ∷ []) h k = omega (arith, h.3)
Aligned-drop_last v last (u ∷ []) (d ∷ e ∷ cs) h k = absurd h.3
Aligned-drop_last v last (u ∷ w ∷ ss) (d ∷ []) h k = absurd h.3
Aligned-drop_last v last (u ∷ w ∷ ss) (d ∷ e ∷ cs) h k =
    (h.0, h.1, h.2, Aligned-drop_last (suc v) last (w ∷ ss) (e ∷ cs) h.3 begun)
  where
    begun : suc v ≤ suc last
    begun = omega (arith, begun-Aligned (suc (suc v)) (suc last) ss cs h.3.3)

pub Aligned-select_in :
    (v last n : ℕ) (p : Ports) (ss : List Schedule) (cs : List P2PCriteria)
    → Aligned v last ss cs
    → Aligned v last ss (select_in n p cs)
Aligned-select_in v last n p [] [] h = h
Aligned-select_in v last n p [] (d ∷ cs) h = absurd h
Aligned-select_in v last n p (u ∷ ss) [] h = absurd h
Aligned-select_in v last n p (u ∷ ss) (d ∷ cs) h = elim (Bool-cases (d.version == n)) [
  | inl e ↦ rw e (h.0, h.1, h.2, h.3)
  | inr e ↦ rw e (h.0, h.1, h.2, Aligned-select_in (suc v) last n p ss cs h.3)
]

pub record Frame (r r' : Reservation) : Type 0 where
  pub version : r'.version ≡ r.version
  pub schedules : r'.schedules ≡ r.schedules
  pub p2p_criteria_list : r'.p2p_criteria_list ≡ r.p2p_criteria_list

pub IsVersioned-Frame :
    (first : ℕ) (r r' : Reservation) → Frame r r' → IsVersioned first r → IsVersioned first r'
IsVersioned-Frame first r r' f h = record {
  begun = rw f.version h.begun;
  aligned = rw (f.version, f.schedules, f.p2p_criteria_list) h.aligned;
}
