-- ===== src/Examples/Versions.antt =====
-- Steps of the program on examples.

use su_pa.Base.{◌≡◌, refl, List, [], ◌∷◌, some, arith}
use su_pa.Connection.Fsm.{
  reserve_start, reserve_aborting, terminated, reservation_fsm, reserve_checking,
}
use su_pa.Connection.Provider.Reserve.{modify_body, modify_state, append_version}
use su_pa.Db.Model.{Reservation}
use su_pa.Job.Reserve.Abort.{abort_update}
use su_pa.Program.{
  Step, modifies, hold_first, aborts, abort_second, terminates, terminate_second, committed,
  exec_all,
}
use su_pa.Program.Monotone.{terminated_for_good}
use su_pa.Program.Undo.{abort_undoes_modify}
use su_pa.Program.Versions.{IsVersioned, Frame}
use su_pa.Program.Versions.Exec.{IsVersioned-exec_all}
use su_pa.Examples.Data.{
  committed_row, criteria, circuit_of, from_to, database, working, success, context, header,
  modification,
}

committed-IsVersioned : IsVersioned 0 committed_row
committed-IsVersioned = record { begun = omega arith; aligned = (refl, refl, omega arith, refl) }

-- A modification, its check, its abort and its termination.
abbrev steps : List Step
steps =
    modifies context header modification
    ∷ hold_first working database
    ∷ aborts context header
    ∷ abort_second success
    ∷ terminates context header
    ∷ terminate_second success
    ∷ []

IsVersioned-exec_all_example : IsVersioned 0 (exec_all steps committed_row)
IsVersioned-exec_all_example = IsVersioned-exec_all 0 steps committed_row committed-IsVersioned

terminated_for_good_example :
    (exec_all steps (record committed_row { lifecycle_state = terminated })).lifecycle_state
    ≡ terminated
terminated_for_good_example =
    terminated_for_good steps (record committed_row { lifecycle_state = terminated }) refl

-- The row of `committed_row` after the modification, and while its abort is requested.
abbrev modified : Reservation
modified = record committed_row {
  reservation_state = reserve_checking;
  version = 1;
  schedules = from_to 0 1000 2000 ∷ from_to 1 1000 3000 ∷ [];
  p2p_criteria_list =
      criteria 0 10 (some 101) (some 101) ∷ criteria 1 40 (some 101) (some 101) ∷ [];
}

abort_undoes_modify_example :
    let aborting : Reservation = record modified {
      reservation_state = reserve_aborting;
      connection = some (circuit_of 40 101);
    } in
    let restored = committed aborting (abort_update success aborting) in
    Frame committed_row restored
    × (restored.reservation_state ≡ reserve_start)
    × (restored.connection ≡ some (circuit_of 10 101))
unfolding modify_body modify_state append_version reservation_fsm
abort_undoes_modify_example =
    abort_undoes_modify context 7 modification committed_row modified
      (record modified {
        reservation_state = reserve_aborting;
        connection = some (circuit_of 40 101);
      })
      [] success (circuit_of 40 101) (criteria 0 10 (some 101) (some 101)) refl refl
      (record { version = refl; schedules = refl; p2p_criteria_list = refl }) refl refl refl refl
