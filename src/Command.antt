-- ===== src/Command.antt =====
-- The commands `supa stp …` of src/supa/main.py, which administer the table of STPs by hand.
pub mod Rows
pub mod Refines
use su_pa.Base.{
  Text, is_empty, text_eq, ℕ, Bool, true, false, List, [], ◌∷◌, ◌++◌, Option, none, some, ◌==◌,
  if◌then◌else◌,
}
use su_pa.Util.Vlan.{VlanRanges}
use su_pa.Util.Vlan.Parse.{init_text}
use su_pa.Util.Vlan.Print.{to_string}

-- A row of the table `Topology` as it is stored, with the VLANs as a text, which `modify` does not
-- parse.
pub record TopologyRow : Type 0 where
  pub stp_id : Text
  pub port_id : Text
  pub vlans : Text
  pub bandwidth : ℕ
  pub description : Option Text
  pub is_alias_in : Option Text
  pub is_alias_out : Option Text
  pub enabled : Bool

-- `query(Topology).filter(Topology.stp_id == …)`.
unfoldable pub find_row : Text → List TopologyRow → Option TopologyRow
find_row stp [] = none
find_row stp (t ∷ ts) = if text_eq t.stp_id stp then some t else find_row stp ts

-- The options of `stp add`.
pub record AddOptions : Type 0 where
  pub stp_id : Text
  pub port_id : Text
  pub vlans : Text
  pub description : Option Text
  pub is_alias_in : Option Text
  pub is_alias_out : Option Text
  pub bandwidth : ℕ
  pub enabled : Bool

-- The options of `stp modify`.
pub record ModifyOptions : Type 0 where
  pub stp_id : Text
  pub port_id : Option Text
  pub vlans : Option Text
  pub description : Option Text
  pub is_alias_in : Option Text
  pub is_alias_out : Option Text
  pub bandwidth : Option ℕ

pub data StpCommand : Type 0 where
  add : AddOptions → StpCommand
  modify : ModifyOptions → StpCommand
  delete enable disable : Text → StpCommand

-- What the command prints or raises.
pub data Echo : Type 0 where
  nothing cannot_add could_not_be_found value_error : Echo
  has_been : Bool → Echo

pub record Effect : Type 0 where
  pub rows : List TopologyRow
  pub echo : Echo

-- A text option is used when it is given and not empty.
abbrev pub given : Option Text → Text → Text
given none old = old
given (some t) old = if is_empty t then old else t

abbrev pub given_optional : Option Text → Option Text → Option Text
given_optional none old = old
given_optional (some t) old = if is_empty t then old else some t

-- `if bandwidth:`.
abbrev pub given_bandwidth : Option ℕ → ℕ → ℕ
given_bandwidth none old = old
given_bandwidth (some b) old = if b == 0 then old else b

abbrev pub modified_row : ModifyOptions → TopologyRow → TopologyRow
modified_row o t = record t {
  port_id = given o.port_id t.port_id;
  vlans = given o.vlans t.vlans;
  description = given_optional o.description t.description;
  is_alias_in = given_optional o.is_alias_in t.is_alias_in;
  is_alias_out = given_optional o.is_alias_out t.is_alias_out;
  bandwidth = given_bandwidth o.bandwidth t.bandwidth;
}

abbrev pub added_row : AddOptions → VlanRanges → TopologyRow
added_row o v = record {
  stp_id = o.stp_id;
  port_id = o.port_id;
  vlans = to_string v;
  bandwidth = o.bandwidth;
  description = o.description;
  is_alias_in = o.is_alias_in;
  is_alias_out = o.is_alias_out;
  enabled = o.enabled;
}

-- The row with the ID is replaced, or deleted.
unfoldable pub change_row : Text → (TopologyRow → TopologyRow) → List TopologyRow → List TopologyRow
change_row i f [] = []
change_row i f (t ∷ ts) = if text_eq t.stp_id i then f t ∷ ts else t ∷ change_row i f ts

unfoldable pub delete_row : Text → List TopologyRow → List TopologyRow
delete_row i [] = []
delete_row i (t ∷ ts) = if text_eq t.stp_id i then ts else t ∷ delete_row i ts

-- `session.add`, which the primary key refuses for an ID that the table has.
abbrev pub add_row : AddOptions → VlanRanges → Option TopologyRow → List TopologyRow → Effect
add_row o v none rows = record { rows = rows ++ added_row o v ∷ []; echo = nothing }
add_row o v (some t) rows = record { rows = rows; echo = cannot_add }

abbrev pub add_parsed : AddOptions → Option VlanRanges → List TopologyRow → Effect
add_parsed o none rows = record { rows = rows; echo = value_error }
add_parsed o (some v) rows = add_row o v (find_row o.stp_id rows) rows

-- `query(Topology).filter(Topology.stp_id == …).one()` and what follows it.
abbrev pub on_found : Option TopologyRow → List TopologyRow → Effect → Effect
on_found none rows done = record { rows = rows; echo = could_not_be_found }
on_found (some t) rows done = done

abbrev pub set_enable : Text → Bool → List TopologyRow → Effect
set_enable i enabled rows = on_found (find_row i rows) rows (record {
  rows = change_row i (λ t. record t { enabled = enabled }) rows;
  echo = has_been enabled;
})

unfoldable pub run_command : StpCommand → List TopologyRow → Effect
unfolding change_row delete_row
run_command (add o) rows = add_parsed o (init_text o.vlans) rows
run_command (modify o) rows =
    on_found (find_row o.stp_id rows) rows
      (record { rows = change_row o.stp_id (modified_row o) rows; echo = nothing })
run_command (delete i) rows =
    on_found (find_row i rows) rows (record { rows = delete_row i rows; echo = nothing })
run_command (enable i) rows = set_enable i true rows
run_command (disable i) rows = set_enable i false rows

unfoldable pub run_commands : List StpCommand → List TopologyRow → List TopologyRow
unfolding run_command
run_commands [] rows = rows
run_commands (c ∷ cs) rows = run_commands cs (run_command c rows).rows
