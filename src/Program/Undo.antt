-- ===== src/Program/Undo.antt =====
-- A modification and its abort: the handler `Reserve`, then `ReserveAbortJob`.
use su_pa.Base.{
  false, ℕ, suc, ◌-◌, ◌<◌, ◌≡◌, ◌≢◌, refl, ap, ◌∙◌, List, [], ◌∷◌, ◌++◌, none, some, arith, length,
  length-append, drop_last, last?, second_last?, inl, inr, Option-cases,
}
use su_pa.Connection.Fsm.{reservation_fsm, reserve_aborting, reserve_start}
use su_pa.Connection.Provider.{Context, acknowledgment}
use su_pa.Connection.Provider.Reserve.{
  ReserveRequest, modify_body, modify_state, append_version, new_version, new_schedule,
}
use su_pa.Db.Model.{Reservation, Connection, Schedule, P2PCriteria, p2p_criteria}
use su_pa.Job.Session.{with_circuit, Caught, Call, done}
use su_pa.Job.Reserve.Abort.{abort_update}
use su_pa.Program.{committed}
use su_pa.Program.Versions.{Frame}

drop_last-append : {A : Type 0} → (xs : List A) (x : A) → drop_last (xs ++ x ∷ []) ≡ xs
drop_last-append [] x = refl
drop_last-append (y ∷ []) x = refl
drop_last-append (y ∷ z ∷ ys) x = ap (λ w. y ∷ w) (drop_last-append (z ∷ ys) x)

second_last-append : {A : Type 0} → (xs : List A) (x : A) → second_last? (xs ++ x ∷ []) ≡ last? xs
second_last-append [] x = refl
second_last-append (y ∷ []) x = refl
second_last-append (y ∷ z ∷ []) x = refl
second_last-append (y ∷ z ∷ w ∷ ys) x = second_last-append (z ∷ w ∷ ys) x

last-append : {A : Type 0} → (xs : List A) (x : A) → last? (xs ++ x ∷ []) ≡ some x
last-append [] x = refl
last-append (y ∷ []) x = refl
last-append (y ∷ z ∷ ys) x = last-append (z ∷ ys) x

-- What the modification added.
record Extended (r r' : Reservation) : Type 0 where
  pub added_schedule : Schedule
  pub added_criteria : P2PCriteria
  pub version : r'.version ≡ suc r.version
  pub schedules : r'.schedules ≡ r.schedules ++ added_schedule ∷ []
  pub p2p_criteria_list : r'.p2p_criteria_list ≡ r.p2p_criteria_list ++ added_criteria ∷ []

modify_known :
    (x : Context) (i : ℕ) (q : ReserveRequest) (c : P2PCriteria) (r r' : Reservation)
    (cs : List Call)
    → p2p_criteria r ≡ some c
    → modify_body x i q r ≡ done r' cs acknowledgment
    → (r'.version ≡ suc r.version)
      × (r'.schedules
          ≡ r.schedules ++ new_schedule x.now (new_version q r) q.start_time q.end_time ∷ [])
      × (r'.p2p_criteria_list
          ≡ r.p2p_criteria_list
            ++ record c { version = new_version q r; bandwidth = q.capacity } ∷ [])
unfolding modify_body modify_state append_version reservation_fsm
modify_known x i q c r r' cs e h = ground arith

modify_unknown :
    (x : Context) (i : ℕ) (q : ReserveRequest) (r r' : Reservation) (cs : List Call)
    → p2p_criteria r ≡ none
    → modify_body x i q r ≢ done r' cs acknowledgment
unfolding modify_body modify_state append_version reservation_fsm
modify_unknown x i q r r' cs e h = ground arith

modify_extends :
    (x : Context) (i : ℕ) (q : ReserveRequest) (r r' : Reservation) (cs : List Call)
    → modify_body x i q r ≡ done r' cs acknowledgment
    → Extended r r'
modify_extends x i q r r' cs h = elim (Option-cases (p2p_criteria r)) [
  | inl n ↦ absurd (modify_unknown x i q r r' cs n h)
  | inr (c, e) ↦
      let (v, ss, ks) = modify_known x i q c r r' cs e h in
      record {
        added_schedule = _;
        added_criteria = _;
        version = v;
        schedules = ss;
        p2p_criteria_list = ks;
      }
]

abort_drops :
    (b : Caught) (r : Reservation) (c : Connection) (previous : P2PCriteria) (s : Schedule)
    → r.has_path ≡ false
    → b.nsi_exception ≡ none
    → r.reservation_state ≡ reserve_aborting
    → r.connection ≡ some c
    → 1 < length r.p2p_criteria_list
    → second_last? r.p2p_criteria_list ≡ some previous
    → last? r.schedules ≡ some s
    → let r' = committed r (abort_update b r) in
      (r'.reservation_state ≡ reserve_start)
      × (r'.version ≡ r.version - 1)
      × (r'.schedules ≡ drop_last r.schedules)
      × (r'.p2p_criteria_list ≡ drop_last r.p2p_criteria_list)
      × (r'.connection
          ≡ with_circuit b.circuit_id (some (record c { bandwidth = previous.bandwidth })))
unfolding abort_update reservation_fsm
abort_drops b r c previous s ht no_error h k several p q = ground arith

several : {A : Type 0} → (xs : List A) (x y : A) → last? xs ≡ some y → 1 < length (xs ++ x ∷ [])
several [] x y h = ground arith
several (z ∷ zs) x y h = omega (arith, length-append zs (x ∷ []))

-- If a modification is acknowledged and later aborted, from a row that still has the versions it
-- made, that has a connection, and whose request came without a path, with an NRM that does not
-- fail, then the reservation has its former version, schedules and criteria again and can be
-- modified anew, and its connection has the bandwidth of the last of those criteria.
pub abort_undoes_modify :
    (x : Context) (i : ℕ) (q : ReserveRequest) (r r' aborting : Reservation) (cs : List Call)
    (b : Caught) (c : Connection) (previous : P2PCriteria)
    → aborting.has_path ≡ false
    → modify_body x i q r ≡ done r' cs acknowledgment
    → Frame r' aborting
    → aborting.reservation_state ≡ reserve_aborting
    → aborting.connection ≡ some c
    → b.nsi_exception ≡ none
    → last? r.p2p_criteria_list ≡ some previous
    → let restored = committed aborting (abort_update b aborting) in
      Frame r restored
      × (restored.reservation_state ≡ reserve_start)
      × (restored.connection
          ≡ with_circuit b.circuit_id (some (record c { bandwidth = previous.bandwidth })))
abort_undoes_modify x i q r r' aborting cs b c previous ht h same k con no_error p =
    let e = modify_extends x i q r r' cs h in
    let criteria = same.p2p_criteria_list ∙ e.p2p_criteria_list in
    let schedules = same.schedules ∙ e.schedules in
    let (state, v, ss, ks, connection) =
      abort_drops b aborting c previous e.added_schedule ht no_error k con
        (rw criteria (several r.p2p_criteria_list e.added_criteria previous p))
        (rw criteria (second_last-append r.p2p_criteria_list e.added_criteria ∙ p))
        (rw schedules (last-append r.schedules e.added_schedule)) in
    (
      record {
        version = omega (arith, v, same.version, e.version);
        schedules = ss ∙ ap drop_last schedules ∙ drop_last-append r.schedules e.added_schedule;
        p2p_criteria_list =
            ks ∙ ap drop_last criteria ∙ drop_last-append r.p2p_criteria_list e.added_criteria;
      },
      state,
      connection,
    )
