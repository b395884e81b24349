-- ===== src/Program/Monotone.antt =====
-- The lifecycle of a reservation under the steps of the program.
use native.Mathlib.Nat.{le_refl}
use su_pa.Base.{
  ◌≢◌, if◌then◌else◌, ◌⊎◌, inl, inr, ℕ, ◌≤◌, ◌≡◌, List, [], ◌∷◌, Option, some, arith, Bool,
}
use su_pa.Connection.Fsm.{lifecycle_fsm, reservation_fsm, terminated, created}
use su_pa.Connection.Fsm.Paths.{lifecycle_rank}
use su_pa.Connection.Provider.{Context, Header, Response, refused, if_valid, on_row, handle}
use su_pa.Connection.Provider.Requests.{
  reserve_commit, reserve_abort, provision, release, terminate,
}
use su_pa.Connection.Provider.Reserve.{
  ReserveRequest, reserve, modify_body, append_version, modify_state,
}
use su_pa.Db.Model.{Reservation, P2PCriteria}
use su_pa.Job.Provision.{provision_update, release_update}
use su_pa.Job.Dataplane.{activate_update, deactivate_update, auto_end_update}
use su_pa.Job.Lifecycle.{terminate_update, force_end}
use su_pa.Job.Reserve.Abort.{abort_update}
use su_pa.Job.Reserve.Commit.{commit_call, commit_update}
use su_pa.Job.Reserve.Hold.{hold_call, hold_update}
use su_pa.Job.Reserve.Timeout.{timeout_call, timeout_update}
use su_pa.Connection.Error.{NsiError}
use su_pa.Job.Session.{Session, Call}
use su_pa.Program.{Step, committed, handled, exec, exec_all, modifies, commits}

guarded_cases :
    (e : Option NsiError) (fixed : Bool) (x : Response) (i : ℕ) (body : Session Response)
    (after : List Call) (r : Reservation)
    → let h =
        if_valid e (some r) (if fixed then refused (some r) x else on_row i body after (some r)) in
      (handled r h ≡ r) ⊎ (handled r h ≡ committed r (body r))
unfolding on_row
guarded_cases e fixed x i body after r = ground arith

-- A modification leaves the row as it is, or as the session of its body commits it.
pub modifies_cases :
    (x : Context) (h : Header) (q : ReserveRequest) (r : Reservation)
    → let q' = record q { connection_id = some r.connection_id } in
      (exec (modifies x h q) r ≡ r)
      ⊎ (exec (modifies x h q) r ≡ committed r (modify_body x r.connection_id q' r))
unfolding exec reserve
modifies_cases x h q r = guarded_cases _ _ _ _ _ _ r

abbrev rank : Reservation → ℕ
rank r = lifecycle_rank r.lifecycle_state

rank-append_version :
    (x : Context) (q : ReserveRequest) (c : P2PCriteria) (r : Reservation)
    → rank r ≤ rank (committed r (append_version x q c r))
unfolding append_version
rank-append_version x q c r = ground arith

rank-modify_body :
    (x : Context) (i : ℕ) (q : ReserveRequest) (r : Reservation)
    → rank r ≤ rank (committed r (modify_body x i q r))
unfolding modify_body modify_state append_version reservation_fsm
rank-modify_body x i q r = ground arith

-- No step moves the lifecycle of a reservation backwards.
pub rank-exec : (s : Step) (r : Reservation) → rank r ≤ rank (exec s r)
unfolding exec commit_call commit_update abort_update timeout_call timeout_update provision_update
    release_update activate_update deactivate_update terminate_update auto_end_update force_end
    hold_call hold_update handle reserve_commit reserve_abort provision release terminate
    lifecycle_fsm
rank-exec (modifies x h q) r = elim (modifies_cases x h q r) [
  | inl same ↦ rw same (le_refl (rank r))
  | inr e ↦
      rw e
        (rank-modify_body x r.connection_id (record q { connection_id = some r.connection_id }) r)
]
rank-exec (commits x h) r = ground arith
rank-exec _ r = ground arith

pub rank-exec_all : (ss : List Step) (r : Reservation) → rank r ≤ rank (exec_all ss r)
unfolding exec_all
rank-exec_all [] r = omega arith
rank-exec_all (s ∷ ss) r = omega (arith, rank-exec s r, rank-exec_all ss (exec s r))

-- A reservation that is terminated is terminated after any further steps of the program.
pub terminated_for_good :
    (ss : List Step) (r : Reservation)
    → r.lifecycle_state ≡ terminated
    → (exec_all ss r).lifecycle_state ≡ terminated
terminated_for_good ss r h = ground (arith, rank-exec_all ss r)

-- A lifecycle that has left Created never returns to it.
pub created_never_again :
    (ss : List Step) (r : Reservation)
    → r.lifecycle_state ≢ created
    → (exec_all ss r).lifecycle_state ≢ created
created_never_again ss r h e = h (ground (arith, rank-exec_all ss r))
