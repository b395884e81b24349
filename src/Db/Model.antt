-- ===== src/Db/Model.antt =====
-- src/supa/db/model.py: the tables as records. A reservation holds its schedules, its criteria and
-- its connection, which the database relates to it by `connection_id`. A UUID is a number, a point
-- in time is the number of microseconds since the epoch. The VLANs of an STP are kept as the
-- `VlanRanges` that the text in the database denotes.
use su_pa.Base.{Text, ℕ, ◌*◌, Bool, List, [], ◌∷◌, Option, none, some, ◌==◌, if◌then◌else◌}
use su_pa.Connection.Fsm.{ReservationState, ProvisionState, LifecycleState, DataPlaneState}
use su_pa.Util.Vlan.{VlanRanges}

-- `EPOCH` and `NO_END_DATE` of src/supa/util/timestamp.py, 2108-01-01.
abbrev pub epoch : ℕ
epoch = 0

abbrev pub no_end_date : ℕ
no_end_date = 4354819200 * 1000000

pub record Schedule : Type 0 where
  pub version : ℕ
  pub start_time : ℕ
  pub end_time : ℕ

-- One end of a connection: the `src_` or the `dst_` columns of `P2PCriteria`.
pub record Endpoint : Type 0 where
  pub domain : Text
  pub topology : Text
  pub stp_id : Text
  pub vlans : VlanRanges
  pub selected_vlan : Option ℕ

pub record P2PCriteria : Type 0 where
  pub version : ℕ
  pub bandwidth : ℕ
  pub bi_directional : Bool
  pub symmetric : Bool
  pub src : Endpoint
  pub dst : Endpoint

pub record Connection : Type 0 where
  pub bandwidth : ℕ
  pub src_port_id : Text
  pub src_vlan : Option ℕ
  pub dst_port_id : Text
  pub dst_vlan : Option ℕ
  pub circuit_id : Option Text

pub record Reservation : Type 0 where
  pub connection_id : ℕ
  pub version : ℕ
  pub protocol_version : Text
  pub requester_nsa : Text
  pub provider_nsa : Text
  pub reply_to : Option Text
  pub global_reservation_id : Text
  pub description : Option Text
  pub reservation_state : ReservationState
  pub provision_state : Option ProvisionState
  pub lifecycle_state : LifecycleState
  pub data_plane_state : Option DataPlaneState
  pub reservation_timeout : Bool
  -- Whether the path trace of its request has a path.
  pub has_path : Bool
  pub schedules : List Schedule
  pub p2p_criteria_list : List P2PCriteria
  pub connection : Option Connection

pub record Topology : Type 0 where
  pub stp_id : Text
  pub port_id : Text
  pub vlans : VlanRanges
  pub bandwidth : ℕ
  pub description : Option Text
  pub is_alias_in : Option Text
  pub is_alias_out : Option Text
  pub enabled : Bool

-- The row with the given version, which the relationships `schedule` and `p2p_criteria` join to.
abbrev pub schedule_at : ℕ → List Schedule → Option Schedule
schedule_at v [] = none
schedule_at v (s ∷ ss) = if s.version == v then some s else schedule_at v ss

abbrev pub criteria_at : ℕ → List P2PCriteria → Option P2PCriteria
criteria_at v [] = none
criteria_at v (c ∷ cs) = if c.version == v then some c else criteria_at v cs

abbrev pub schedule : Reservation → Option Schedule
schedule r = schedule_at r.version r.schedules

abbrev pub p2p_criteria : Reservation → Option P2PCriteria
p2p_criteria r = criteria_at r.version r.p2p_criteria_list
