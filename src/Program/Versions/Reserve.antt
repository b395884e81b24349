-- ===== src/Program/Versions/Reserve.antt =====
-- What the sessions of `ReserveJob` and of `ReserveAbortJob` do to the versions.
use su_pa.Base.{
  ℕ, suc, ◌+◌, ◌-◌, ◌<◌, ◌≡◌, refl, List, [], ◌∷◌, none, some, arith, length, drop_last, ◌⊎◌, inl,
  inr, Option-cases,
}
use su_pa.Db.Model.{Reservation, Schedule, P2PCriteria, p2p_criteria}
use su_pa.Connection.Error.{NsiError}
use su_pa.Job.Reserve.Stp.{Checked, ok, refuse, crash}
use su_pa.Job.Session.{Backend, Caught}
use su_pa.Job.Reserve.Abort.{abort_update}
use su_pa.Job.Reserve.Hold.{Database, Ports, select_in, check_criteria, hold_call}
use su_pa.Program.{committed}
use su_pa.Program.Versions.{
  Aligned, IsVersioned, Frame, Aligned-drop_last, Aligned-select_in, IsVersioned-Frame,
}

Checked-cases :
    (k : Checked Ports)
    → ((p : Ports) × (k ≡ ok p)) ⊎ (((e : NsiError) × (k ≡ refuse e)) ⊎ (k ≡ crash))
Checked-cases (ok p) = inl (p, refl)
Checked-cases (refuse e) = inr (inl (e, refl))
Checked-cases crash = inr (inr refl)

hold_call-ok :
    (backend : Backend) (d : Database) (c : P2PCriteria) (p : Ports) (r : Reservation)
    → p2p_criteria r ≡ some c
    → check_criteria d r c ≡ ok p
    → (committed r (hold_call backend d r) ≡ r)
      ⊎ (committed r (hold_call backend d r)
          ≡ record r { p2p_criteria_list = select_in r.version p r.p2p_criteria_list })
unfolding hold_call
hold_call-ok backend d c p r e k = ground arith

hold_call_not :
    (backend : Backend) (d : Database) (r : Reservation)
    → p2p_criteria r ≡ none
    → committed r (hold_call backend d r) ≡ r
unfolding hold_call
hold_call_not backend d r e = ground arith

hold_call-refuse :
    (backend : Backend) (d : Database) (c : P2PCriteria) (x : NsiError) (r : Reservation)
    → p2p_criteria r ≡ some c
    → check_criteria d r c ≡ refuse x
    → committed r (hold_call backend d r) ≡ r
unfolding hold_call
hold_call-refuse backend d c x r e k = ground arith

hold_call-crash :
    (backend : Backend) (d : Database) (c : P2PCriteria) (r : Reservation)
    → p2p_criteria r ≡ some c
    → check_criteria d r c ≡ crash
    → committed r (hold_call backend d r) ≡ r
unfolding hold_call
hold_call-crash backend d c r e k = ground arith

IsVersioned-selecting :
    (first : ℕ) (p : Ports) (r : Reservation)
    → IsVersioned first r
    → IsVersioned first (record r { p2p_criteria_list = select_in r.version p r.p2p_criteria_list })
IsVersioned-selecting first p r h = record {
  begun = h.begun;
  aligned = Aligned-select_in first r.version r.version p r.schedules r.p2p_criteria_list h.aligned;
}

IsVersioned-hold_ok :
    (first : ℕ) (backend : Backend) (d : Database) (c : P2PCriteria) (p : Ports) (r : Reservation)
    → p2p_criteria r ≡ some c
    → check_criteria d r c ≡ ok p
    → IsVersioned first r
    → IsVersioned first (committed r (hold_call backend d r))
IsVersioned-hold_ok first backend d c p r e k h = elim (hold_call-ok backend d c p r e k) [
  | inl same ↦ rw same h
  | inr new ↦ rw new (IsVersioned-selecting first p r h)
]

-- The VLANs that `ReserveJob` selects leave the versions as they are.
pub IsVersioned-hold_call :
    (first : ℕ) (backend : Backend) (d : Database) (r : Reservation)
    → IsVersioned first r
    → IsVersioned first (committed r (hold_call backend d r))
IsVersioned-hold_call first backend d r h = elim (Option-cases (p2p_criteria r)) [
  | inl e ↦ rw (hold_call_not backend d r e) h
  | inr (c, e) ↦ elim (Checked-cases (check_criteria d r c)) [
    | inl (p, k) ↦ IsVersioned-hold_ok first backend d c p r e k h
    | inr (inl (x, k)) ↦ rw (hold_call-refuse backend d c x r e k) h
    | inr (inr k) ↦ rw (hold_call-crash backend d c r e k) h
  ]
]

record Dropped (r r' : Reservation) : Type 0 where
  pub several : 1 < length r.p2p_criteria_list
  pub version : r'.version ≡ r.version - 1
  pub schedules : r'.schedules ≡ drop_last r.schedules
  pub p2p_criteria_list : r'.p2p_criteria_list ≡ drop_last r.p2p_criteria_list

abort_update_cases :
    (b : Caught) (r : Reservation)
    → Frame r (committed r (abort_update b r)) ⊎ Dropped r (committed r (abort_update b r))
unfolding abort_update
abort_update_cases b r = ground arith

Aligned-length :
    (v last : ℕ) (ss : List Schedule) (cs : List P2PCriteria)
    → Aligned v last ss cs
    → v + length cs ≡ suc last
Aligned-length v last [] [] h = omega arith
Aligned-length v last [] (d ∷ cs) h = absurd h
Aligned-length v last (u ∷ ss) [] h = absurd h
Aligned-length v last (u ∷ ss) (d ∷ cs) h = omega (arith, Aligned-length (suc v) last ss cs h.3)

IsVersioned-Dropped :
    (first : ℕ) (r r' : Reservation) → Dropped r r' → IsVersioned first r → IsVersioned first r'
IsVersioned-Dropped first r r' d h = record {
  begun = rw d.version (omega (arith, h.begun, d.several, counted));
  aligned =
      rw (d.version, d.schedules, d.p2p_criteria_list)
        (Aligned-drop_last first (r.version - 1) r.schedules r.p2p_criteria_list
          (rw (← positive) h.aligned) (omega (arith, h.begun, positive)));
}
  where
    counted : first + length r.p2p_criteria_list ≡ suc r.version
    counted = Aligned-length first r.version r.schedules r.p2p_criteria_list h.aligned

    positive : r.version ≡ suc (r.version - 1)
    positive = omega (arith, d.several, counted)

-- `ReserveAbortJob` removes the last version, or none.
pub IsVersioned-abort_update :
    (first : ℕ) (b : Caught) (r : Reservation)
    → IsVersioned first r
    → IsVersioned first (committed r (abort_update b r))
IsVersioned-abort_update first b r h = elim (abort_update_cases b r) [
  | inl f ↦ IsVersioned-Frame first r _ f h
  | inr d ↦ IsVersioned-Dropped first r _ d h
]
