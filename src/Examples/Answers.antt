-- ===== src/Examples/Answers.antt =====
-- Queries, their answers and printed VLANs on examples.
use su_pa.Base.{codes, ◌≡◌, refl, true, false, List, [], ◌∷◌, none, some, arith, inl}
use su_pa.Connection.Error.{generic_rm_error}
use su_pa.Connection.Fsm.{reserve_checking, reserve_committing}
use su_pa.Db.Model.{Reservation}
use su_pa.Job.Reserve.Commit.{commit_update}
use su_pa.Program.{committed}
use su_pa.Program.Versions.{IsVersioned}
use su_pa.Util.Converter.{
  ConnectionStates, Criteria, listed, selected_stp, to_connection_states, to_criteria_list,
  to_p2p_service, to_data_plane_state_change_request,
}
use su_pa.Util.Headers.{built, type_error, Origin, to_header, to_generic_confirmed_request}
use su_pa.Util.Converter.Committed.{versions, queried_versions, failed_commit_is_listed}
use su_pa.Util.Converter.Header.{copied, to_header_cases}
use su_pa.Util.Converter.Selected.{selected_stp-reads}
use su_pa.Util.Functional.{count_up, expand_ranges, to_ranges}
use su_pa.Util.Nsi.{parse_stp}
use su_pa.Util.Nsi.RoundTrip.{IsLabel, IsStp}
use su_pa.Util.Vlan.{init}
use su_pa.Util.Vlan.Parse.{init_text, vlan_ranges}
use su_pa.Util.Vlan.Print.{to_string, decimal, decimal_rounds}
use su_pa.Util.Vlan.Print.RoundTrip.{init_text-to_string}
use su_pa.Examples.Data.{held_row, committed_row, low_vlans, criteria, circuit_of, from_to}

init_text-to_string_example : init_text (to_string low_vlans) ≡ some low_vlans
unfolding init expand_ranges to_ranges
init_text-to_string_example = init_text-to_string (101 ∷ 100 ∷ []) low_vlans refl

-- Two committed versions and one that is being checked.
abbrev pub modified_row : Reservation
modified_row = record committed_row {
  version = 2;
  reservation_state = reserve_checking;
  schedules = from_to 0 1000 2000 ∷ from_to 1 1000 2500 ∷ from_to 2 1000 3000 ∷ [];
  p2p_criteria_list =
      criteria 0 10 (some 101) (some 101)
      ∷ criteria 1 20 (some 101) (some 101)
      ∷ criteria 2 30 (some 101) (some 101)
      ∷ [];
}

pub modified-IsVersioned : IsVersioned 0 modified_row
modified-IsVersioned = record {
  begun = omega arith;
  aligned = (refl, refl, omega arith, (refl, refl, omega arith, (refl, refl, omega arith, refl)));
}

queried_versions_example :
    ((cs : List Criteria) × (to_criteria_list [] modified_row ≡ listed cs)
      × (versions cs ≡ count_up 0 2))
    × (to_connection_states false modified_row
        ≡ some (record {
          reservation_state = reserve_checking;
          provision_state = modified_row.provision_state;
          lifecycle_state = modified_row.lifecycle_state;
          data_plane_status = record { active = false; version = 1; version_consistent = true };
        }))
queried_versions_example = queried_versions [] false 0 modified_row modified-IsVersioned

abbrev committing_row : Reservation
committing_row = record modified_row { reservation_state = reserve_committing }

committing-IsVersioned : IsVersioned 0 committing_row
committing-IsVersioned = record {
  begun = omega arith;
  aligned = (refl, refl, omega arith, (refl, refl, omega arith, (refl, refl, omega arith, refl)));
}

failed_commit_is_listed_example :
    let failed = committed committing_row (
      commit_update
        (record { nsi_exception = some generic_rm_error; circuit_id = none })
        committing_row) in
    ((cs : List Criteria) × (to_criteria_list [] failed ≡ listed cs) × (versions cs ≡ count_up 0 3))
    × ((s : ConnectionStates) × (to_connection_states false failed ≡ some s)
        × (s.data_plane_status.version ≡ 2))
failed_commit_is_listed_example =
    failed_commit_is_listed [] false 0
      (record { nsi_exception = some generic_rm_error; circuit_id = none }) generic_rm_error
      committing_row (circuit_of 10 101) committing-IsVersioned refl refl refl

-- A request that came with a path trace of one path.
abbrev traced : Origin
traced = record {
  correlation_id = 5;
  session_security_attributes = [];
  path_trace =
      some (record { path_trace_id = codes "pt"; ag_connection_id = codes "ag"; paths = [] ∷ [] });
}

to_header_cases_example :
    (to_header false traced held_row ≡ built (copied traced held_row))
    × (to_header true traced held_row ≡ type_error)
    × (to_generic_confirmed_request traced held_row ≡ type_error)
    × (to_data_plane_state_change_request traced held_row ≡ type_error)
to_header_cases_example = to_header_cases traced held_row

vlan-IsLabel : IsLabel (some (codes "vlan=101"))
vlan-IsLabel = (
  refl,
  (refl, (refl, (refl, (refl, (refl, (refl, (refl, (refl, tt)))))))),
  (refl, (refl, (refl, (refl, (refl, (refl, (refl, (refl, tt)))))))),
)

left-IsStp : IsStp (selected_stp (criteria 0 10 (some 101) (some 101)).src)
unfolding selected_stp decimal decimal_rounds
left-IsStp = record {
  topology_part = (refl, (refl, tt));
  id_colon = (refl, (refl, tt));
  id_question = (refl, (refl, tt));
  label = vlan-IsLabel;
  present = refl;
  domain_form = inl ((refl, (refl, tt)), refl, refl, refl);
}

right-IsStp : IsStp (selected_stp (criteria 0 10 (some 101) (some 101)).dst)
unfolding selected_stp decimal decimal_rounds
right-IsStp = record {
  topology_part = (refl, (refl, tt));
  id_colon = (refl, (refl, tt));
  id_question = (refl, (refl, tt));
  label = vlan-IsLabel;
  present = refl;
  domain_form = inl ((refl, (refl, tt)), refl, refl, refl);
}

selected_stp-reads_example :
    let c = criteria 0 10 (some 101) (some 101) in
    let s = to_p2p_service c [] in
    (parse_stp s.source_stp ≡ some (selected_stp c.src))
    × (vlan_ranges (selected_stp c.src) ≡ init (101 ∷ []))
    × (parse_stp s.dest_stp ≡ some (selected_stp c.dst))
    × (vlan_ranges (selected_stp c.dst) ≡ init (101 ∷ []))
selected_stp-reads_example =
    selected_stp-reads (criteria 0 10 (some 101) (some 101)) [] 101 101 refl refl left-IsStp
      right-IsStp
