-- ===== src/Program/Versions/Modify.antt =====
-- What the handler `Reserve` does to the versions.
use su_pa.Base.{
  ℕ, suc, ◌<◌, ◌≡◌, refl, [], ◌∷◌, ◌++◌, none, some, arith, ◌⊎◌, inl, inr, Option-cases,
}
use su_pa.Connection.Fsm.{reserve_checking, reservation_fsm}
use su_pa.Connection.Provider.{Context}
use su_pa.Connection.Provider.Reserve.{
  ReserveRequest, new_version, new_schedule, modify_body, modify_state, append_version,
}
use su_pa.Db.Model.{Reservation, P2PCriteria, p2p_criteria}
use su_pa.Program.{committed}
use su_pa.Program.Versions.{IsVersioned, Aligned-append}

abbrev pub appended : Context → ReserveRequest → P2PCriteria → Reservation → Reservation
appended x q c r = record r {
  version = new_version q r;
  schedules = r.schedules ++ new_schedule x.now (new_version q r) q.start_time q.end_time ∷ [];
  p2p_criteria_list =
      r.p2p_criteria_list ++ record c { version = new_version q r; bandwidth = q.capacity } ∷ [];
}

append_version_cases :
    (x : Context) (q : ReserveRequest) (c : P2PCriteria) (r : Reservation)
    → let s = new_schedule x.now (new_version q r) q.start_time q.end_time in
      (committed r (append_version x q c r) ≡ r)
      ⊎ ((committed r (append_version x q c r) ≡ appended x q c r) × (s.start_time < s.end_time))
unfolding append_version
append_version_cases x q c r = ground arith

IsVersioned-appended :
    (first : ℕ) (x : Context) (q : ReserveRequest) (c : P2PCriteria) (r : Reservation)
    → let s = new_schedule x.now (new_version q r) q.start_time q.end_time in
      IsVersioned first r
      → new_version q r ≡ suc r.version
      → s.start_time < s.end_time
      → IsVersioned first (appended x q c r)
IsVersioned-appended first x q c r h e t = record {
  begun = omega (arith, h.begun);
  aligned = rw e (
      Aligned-append first r.version r.schedules r.p2p_criteria_list
        (new_schedule x.now (suc r.version) q.start_time q.end_time)
        (record c { version = suc r.version; bandwidth = q.capacity }) h.aligned refl refl t);
}

-- A modification that is allowed to change the state appends a version, or is rolled back.
modify_state_cases :
    (x : Context) (i : ℕ) (q : ReserveRequest) (c : P2PCriteria) (r : Reservation)
    → let s = new_schedule x.now (new_version q r) q.start_time q.end_time in
      p2p_criteria r ≡ some c
      → (committed r (modify_state x i q r) ≡ r)
        ⊎ ((committed r (modify_state x i q r)
              ≡ appended x q c (record r { reservation_state = reserve_checking }))
            × (s.start_time < s.end_time))
unfolding modify_state append_version reservation_fsm
modify_state_cases x i q c r e = ground arith

modify_state_without :
    (x : Context) (i : ℕ) (q : ReserveRequest) (r : Reservation)
    → p2p_criteria r ≡ none
    → committed r (modify_state x i q r) ≡ r
unfolding modify_state append_version reservation_fsm
modify_state_without x i q r e = ground arith

modify_body_cases :
    (x : Context) (i : ℕ) (q : ReserveRequest) (r : Reservation)
    → (committed r (modify_body x i q r) ≡ r)
      ⊎ ((committed r (modify_body x i q r) ≡ committed r (modify_state x i q r))
          × (new_version q r ≡ suc r.version))
unfolding modify_body
modify_body_cases x i q r = ground arith

IsVersioned-modify_state :
    (first : ℕ) (x : Context) (i : ℕ) (q : ReserveRequest) (r : Reservation)
    → IsVersioned first r
    → new_version q r ≡ suc r.version
    → IsVersioned first (committed r (modify_state x i q r))
IsVersioned-modify_state first x i q r h n = elim (Option-cases (p2p_criteria r)) [
  | inl e ↦ rw (modify_state_without x i q r e) h
  | inr (c, e) ↦ elim (modify_state_cases x i q c r e) [
    | inl same ↦ rw same h
    | inr (new, t) ↦ rw new (
        IsVersioned-appended first x q c (record r { reservation_state = reserve_checking })
          (record { begun = h.begun; aligned = h.aligned }) n t)
  ]
]

pub IsVersioned-modify_body :
    (first : ℕ) (x : Context) (i : ℕ) (q : ReserveRequest) (r : Reservation)
    → IsVersioned first r
    → IsVersioned first (committed r (modify_body x i q r))
IsVersioned-modify_body first x i q r h = elim (modify_body_cases x i q r) [
  | inl same ↦ rw same h
  | inr (e, n) ↦ rw e (IsVersioned-modify_state first x i q r h n)
]
