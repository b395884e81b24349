-- ===== src/Examples/Holds.antt =====
-- The checks of a new reservation on examples.
use su_pa.Base.Strings.{text_eq}
use su_pa.Base.{Text, codes, ◌≡◌, refl, false, [], ◌∷◌, none, some, arith}
use su_pa.Connection.Fsm.{reserve_held}
use su_pa.Db.Model.{Reservation, Topology}
use su_pa.Job.Session.{Backend, circuit, unbound_local_error, nrm, Primitive, Message, result}
use su_pa.Job.Reserve.Resources.{usage_rows, group_resources, stp_resources_in_use, StpResources}
use su_pa.Job.Reserve.Resources.Uncounted.{pending_is_uncounted}
use su_pa.Job.Reserve.Hold.Modification.{modification_unchecked}
use su_pa.Connection.Fsm.{reserve_checking, reserve_timeout, provisioned, activated}
use su_pa.Job.Reserve.Stp.{ok, find_stp, Candidates, process_stp, select_vlans}
use su_pa.Job.Reserve.Stp.Sound.{process_stp_complete, find_stp-All}
use su_pa.Job.Reserve.Stp.Select.{IsChoice}
use su_pa.Job.Reserve.Hold.{Ports, check_criteria, reserve_job_run}
use su_pa.Job.Reserve.Hold.Granted.{IsGranted, check_criteria-IsGranted}
use su_pa.Job.Reserve.Hold.Outcomes.{reserve_job_holds, reserve_job_loses_circuit}
use su_pa.Util.Functional.{to_ranges, expand_ranges}
use su_pa.Util.Functional.Grouping.{iter}
use su_pa.Util.Functional.Sorted.{mem}
use su_pa.Util.Vlan.{init, contains, elements, len, and, sub}
use su_pa.Util.Vlan.Algebra.{InRange}
use su_pa.Examples.Data.{
  held_row, other_row, low_vlans, high_vlans, left, right, end_at, criteria, circuit_of, from_to,
  new_row, table, stp_of, first, topology_id, database, working,
}
use su_pa.Examples.Vlans.{low-InRange, high-InRange}

first-IsChoice : IsChoice first
unfolding mem
first-IsChoice n [] h = absurd (h refl)
first-IsChoice n (x ∷ xs) h = ground arith

-- The VLAN 101 is in use at the first STP.
abbrev in_use : StpResources
in_use = record {
  bandwidth = 30;
  vlans = record { vlan_ranges = record { start = 101; stop = 102 } ∷ [] };
}

process_stp_complete_example :
    (c : Candidates) × (process_stp topology_id table
        (some (some in_use))
        70
        (end_at left low_vlans none)
      ≡ ok c)
unfolding find_stp text_eq contains
process_stp_complete_example =
    process_stp_complete topology_id table (some in_use) 70 (end_at left low_vlans none)
      (stp_of left (codes "1") low_vlans) 100 low-InRange low-InRange refl (refl, refl, omega arith)
      refl

abbrev ports : Ports
ports = record {
  bandwidth = 10;
  src_port_id = codes "1";
  src_selected_vlan = 100;
  dst_port_id = codes "2";
  dst_selected_vlan = 101;
}

checked : check_criteria database new_row (criteria 0 10 none none) ≡ ok ports
unfolding check_criteria text_eq stp_resources_in_use usage_rows group_resources process_stp
    find_stp select_vlans sub and init expand_ranges to_ranges elements len contains iter mem
checked = refl

table-InRange : (stp : Text) (t : Topology) → find_stp stp table ≡ some t → InRange t.vlans
table-InRange stp t h =
    find_stp-All (λ t. InRange t.vlans) stp table t (low-InRange, (high-InRange, tt)) h

check_criteria-IsGranted_example :
    (text_eq left right ≡ false)
    × IsGranted database new_row 10 (end_at left low_vlans none) (codes "1") 100
    × IsGranted database new_row 10 (end_at right high_vlans none) (codes "2") 101
check_criteria-IsGranted_example =
    check_criteria-IsGranted database new_row (criteria 0 10 none none) ports first-IsChoice
      low-InRange high-InRange table-InRange checked

reserve_job_holds_example : reserve_job_run working database new_row ≡ record {
  row = record new_row {
    reservation_state = reserve_held;
    p2p_criteria_list = criteria 0 10 (some 100) (some 101) ∷ [];
    connection = some (record (circuit_of 10 100) { dst_vlan = some 101 });
  };
  calls = nrm Primitive.reserve 7 ∷ result 7 Message.reserve_confirmed;
  failure = none;
}
reserve_job_holds_example =
    reserve_job_holds working database new_row (from_to 0 1000 2000) (criteria 0 10 none none) ports
      refl refl refl refl refl refl checked refl refl

-- An NRM that names the circuit.
abbrev naming : Backend
naming p i c = circuit (some (codes "c7"))

reserve_job_loses_circuit_example : reserve_job_run naming database new_row ≡ record {
  row = record new_row { p2p_criteria_list = criteria 0 10 (some 100) (some 101) ∷ [] };
  calls = nrm Primitive.reserve 7 ∷ [];
  failure = some unbound_local_error;
}
reserve_job_loses_circuit_example =
    reserve_job_loses_circuit naming database new_row (from_to 0 1000 2000)
      (criteria 0 10 none none) ports (codes "c7") refl refl refl refl refl checked refl refl

-- A committed reservation whose modification timed out.
abbrev pending_row : Reservation
pending_row = record other_row {
  version = 1;
  reservation_state = reserve_timeout;
  provision_state = some provisioned;
  data_plane_state = some activated;
  schedules = from_to 0 1500 2500 ∷ from_to 1 1500 2600 ∷ [];
  p2p_criteria_list =
      criteria 0 30 (some 101) (some 103) ∷ criteria 1 30 (some 101) (some 103) ∷ [];
}

pending_is_uncounted_example :
    stp_resources_in_use (pending_row ∷ []) new_row left ≡ stp_resources_in_use [] new_row left
pending_is_uncounted_example = pending_is_uncounted [] pending_row new_row left refl

-- A modification to more bandwidth than the STPs have.
abbrev greedy_row : Reservation
greedy_row = record held_row {
  version = 1;
  reservation_state = reserve_checking;
  schedules = from_to 0 1000 2000 ∷ from_to 1 1000 2000 ∷ [];
  p2p_criteria_list =
      criteria 0 10 (some 101) (some 101) ∷ criteria 1 500 (some 101) (some 101) ∷ [];
}

modification_unchecked_example : reserve_job_run working database greedy_row ≡ record {
  row = record greedy_row {
    reservation_state = reserve_held;
    connection = some (circuit_of 500 101);
  };
  calls = nrm Primitive.reserve 7 ∷ result 7 Message.reserve_confirmed;
  failure = none;
}
modification_unchecked_example =
    modification_unchecked working database greedy_row (from_to 1 1000 2000)
      (criteria 1 500 (some 101) (some 101)) (circuit_of 10 101) none refl refl (omega arith) refl
      refl refl refl
