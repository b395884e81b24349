-- ===== src/Examples/Topologies.antt =====
-- The table of STPs on examples: refreshes from the NRM, and commands.
use su_pa.Base.Strings.{text_eq}
use su_pa.Base.{
  Text, codes, ℕ, ◌+◌, ◌*◌, ◌≡◌, ◌≤◌, refl, true, false, List, [], ◌∷◌, none, some, All,
}
use su_pa.Job.Reserve.Stp.{find_stp}
use su_pa.Documents.Topology.{
  Stp, Settings, Refreshed, stps, World, is_listed, exposed, refresh_topology, refresh_all,
}
use su_pa.Documents.Topology.Refresh.{described, refresh_topology-described}
use su_pa.Documents.Topology.Freshness.{Answers, refresh_all-fetches, failed_session_stops_refresh}
use su_pa.Command.{
  TopologyRow, find_row, AddOptions, ModifyOptions, StpCommand, add, modify, delete, enable,
  disable, run_commands,
}
use su_pa.Command.Rows.{HasUniqueIds}
use su_pa.Command.Refines.{replay_all, run_commands-refines}
use su_pa.Examples.Data.{low_vlans, left, right, table}

abbrev settings : Settings
settings = record { topology = codes "t"; manual_topology = false; topology_freshness = 60 }

-- The NRM lists the first STP with another port, and a new one, but no longer the second.
abbrev listed : List Stp
listed =
    record {
      topology = codes "t";
      stp_id = left;
      port_id = codes "3";
      vlans = low_vlans;
      description = none;
      is_alias_in = none;
      is_alias_out = none;
      bandwidth = 200;
      enabled = true;
    }
    ∷ record {
      topology = codes "t";
      stp_id = codes "p3";
      port_id = codes "4";
      vlans = low_vlans;
      description = none;
      is_alias_in = none;
      is_alias_out = none;
      bandwidth = 10;
      enabled = true;
    }
    ∷ []

abbrev start : Refreshed
start = record { rows = table; last_refresh = 0; locked = false; fetches = 0 }

abbrev answering : ℕ → World
answering now = record { now = now; nrm = stps listed; session_fails = false }

refresh_topology-described_example :
    let r' = (refresh_topology settings (answering 100) start).state in
    ((i : Text) → find_stp i r'.rows ≡ described (codes "t") listed (λ k. find_stp k table) i)
    × All (λ t. is_listed t.stp_id listed ≡ true) (exposed r'.rows)
    × (r'.last_refresh ≡ 100)
    × (r'.locked ≡ false)
refresh_topology-described_example =
    refresh_topology-described settings (answering 100) start listed
      (record { automatic = refl; free = refl; stale = refl; answered = refl; succeeds = refl })

answering-Answers : (now : ℕ) → Answers (answering now)
answering-Answers now = record { listed = listed; answered = refl; succeeds = refl }

refresh_all-fetches_example :
    let r' = refresh_all settings (answering 100 ∷ answering 120 ∷ answering 160 ∷ []) start in
    0 + r'.fetches * 60 ≤ r'.last_refresh + 0 * 60
refresh_all-fetches_example =
    refresh_all-fetches settings (answering 100 ∷ answering 120 ∷ answering 160 ∷ []) start
      (answering-Answers 100, (answering-Answers 120, (answering-Answers 160, tt)))

failed_session_stops_refresh_example :
    let first = refresh_topology settings (record (answering 100) { session_fails = true }) start in
    let after = refresh_all settings (answering 200 ∷ answering 300 ∷ []) first.state in
    (first.raises ≡ true) × (after.rows ≡ table) × (after.fetches ≡ 1)
failed_session_stops_refresh_example =
    failed_session_stops_refresh settings (record (answering 100) { session_fails = true }) start
      listed (answering 200 ∷ answering 300 ∷ []) refl refl refl refl refl

abbrev added : AddOptions
added = record {
  stp_id = codes "p3";
  port_id = codes "4";
  vlans = codes "7-9";
  description = none;
  is_alias_in = none;
  is_alias_out = none;
  bandwidth = 10;
  enabled = true;
}

abbrev modified : ModifyOptions
modified = record {
  stp_id = left;
  port_id = none;
  vlans = some (codes "9,8-7");
  description = some [];
  is_alias_in = none;
  is_alias_out = some (codes "out");
  bandwidth = some 40;
}

abbrev commands : List StpCommand
commands = add added ∷ modify modified ∷ disable left ∷ delete right ∷ enable (codes "p9") ∷ []

abbrev row_of : Text → Text → TopologyRow
row_of stp port = record {
  stp_id = stp;
  port_id = port;
  vlans = codes "100-103";
  bandwidth = 100;
  description = none;
  is_alias_in = none;
  is_alias_out = none;
  enabled = true;
}

abbrev stored : List TopologyRow
stored = row_of left (codes "1") ∷ row_of right (codes "2") ∷ []

stored-HasUniqueIds : HasUniqueIds stored
unfolding find_row text_eq
stored-HasUniqueIds = (refl, (refl, tt))

run_commands-refines_example :
    HasUniqueIds (run_commands commands stored)
    × ((i : Text)
        → find_row i (run_commands commands stored)
          ≡ replay_all commands (λ k. find_row k stored) i)
run_commands-refines_example = run_commands-refines commands stored stored-HasUniqueIds
