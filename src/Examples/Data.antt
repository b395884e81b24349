-- ===== src/Examples/Data.antt =====
-- A topology of two STPs, a reservation between them, and an NRM.
use su_pa.Base.{Text, codes, ℕ, true, false, List, [], ◌∷◌, Option, none, some}
use su_pa.Connection.Fsm.{reserve_start, reserve_checking, reserve_held, created, released}
use su_pa.Connection.Provider.{Header, Context}
use su_pa.Connection.Provider.Reserve.{ReserveRequest}
use su_pa.Db.Model.{Schedule, Endpoint, P2PCriteria, Connection, Reservation, Topology}
use su_pa.Job.Session.{circuit, Backend, Caught}
use su_pa.Job.Reserve.Hold.{Database}
use su_pa.Job.Reserve.Stp.{Choice}
use su_pa.Util.Vlan.{VlanRanges}

-- The VLANs 100 and 101, and 101 to 103.
abbrev pub low_vlans : VlanRanges
low_vlans = record { vlan_ranges = record { start = 100; stop = 102 } ∷ [] }

abbrev pub high_vlans : VlanRanges
high_vlans = record { vlan_ranges = record { start = 101; stop = 104 } ∷ [] }

abbrev pub end_at : Text → VlanRanges → Option ℕ → Endpoint
end_at stp_id vlans selected = record {
  domain = codes "d";
  topology = codes "t";
  stp_id = stp_id;
  vlans = vlans;
  selected_vlan = selected;
}

abbrev pub left : Text
left = codes "p1"

abbrev pub right : Text
right = codes "p2"

abbrev pub criteria : ℕ → ℕ → Option ℕ → Option ℕ → P2PCriteria
criteria version bandwidth src dst = record {
  version = version;
  bandwidth = bandwidth;
  bi_directional = true;
  symmetric = false;
  src = end_at left low_vlans src;
  dst = end_at right high_vlans dst;
}

abbrev pub from_to : ℕ → ℕ → ℕ → Schedule
from_to version start_time end_time = record {
  version = version;
  start_time = start_time;
  end_time = end_time;
}

abbrev pub circuit_of : ℕ → ℕ → Connection
circuit_of bandwidth vlan = record {
  bandwidth = bandwidth;
  src_port_id = codes "1";
  src_vlan = some vlan;
  dst_port_id = codes "2";
  dst_vlan = some vlan;
  circuit_id = none;
}

-- A reservation from 1000 to 2000 that is being checked.
abbrev pub new_row : Reservation
new_row = record {
  connection_id = 7;
  version = 0;
  protocol_version = codes "2";
  requester_nsa = codes "ra";
  provider_nsa = codes "pa";
  reply_to = none;
  global_reservation_id = codes "g";
  description = none;
  reservation_state = reserve_checking;
  provision_state = none;
  lifecycle_state = created;
  data_plane_state = none;
  reservation_timeout = false;
  has_path = false;
  schedules = from_to 0 1000 2000 ∷ [];
  p2p_criteria_list = criteria 0 10 none none ∷ [];
  connection = none;
}

-- It held, with the VLAN 101 at both ends.
abbrev pub held_row : Reservation
held_row = record new_row {
  reservation_state = reserve_held;
  p2p_criteria_list = criteria 0 10 (some 101) (some 101) ∷ [];
  connection = some (circuit_of 10 101);
}

-- It committed, and provisioned with an active data plane.
abbrev pub committed_row : Reservation
committed_row = record held_row {
  reservation_state = reserve_start;
  provision_state = some released;
}

-- Another reservation that is held and overlaps, with the VLAN 101 at the first STP.
abbrev pub other_row : Reservation
other_row = record new_row {
  connection_id = 8;
  reservation_state = reserve_held;
  schedules = from_to 0 1500 2500 ∷ [];
  p2p_criteria_list = criteria 0 30 (some 101) (some 103) ∷ [];
  connection = some (circuit_of 30 101);
}

abbrev pub stp_of : Text → Text → VlanRanges → Topology
stp_of stp_id port_id vlans = record {
  stp_id = stp_id;
  port_id = port_id;
  vlans = vlans;
  bandwidth = 100;
  description = none;
  is_alias_in = none;
  is_alias_out = none;
  enabled = true;
}

abbrev pub table : List Topology
table = stp_of left (codes "1") low_vlans ∷ stp_of right (codes "2") high_vlans ∷ []

-- The first of what it chooses from.
abbrev pub first : Choice
first n [] = 0
first n (x ∷ xs) = x

abbrev pub topology_id : Text
topology_id = codes "urn:ogf:network:d:t"

abbrev pub database : Database
database = record {
  topology_id = topology_id;
  reservations = new_row ∷ other_row ∷ [];
  topology = table;
  choice = first;
}

-- An NRM that succeeds.
abbrev pub working : Backend
working p i c = circuit none

abbrev pub success : Caught
success = record { nsi_exception = none; circuit_id = none }

abbrev pub context : Context
context = record { nsa_id = codes "pa"; correlation_ids = 1 ∷ []; now = 1200 }

abbrev pub header : Header
header = record { correlation_id = 2; requester_nsa = codes "ra"; provider_nsa = codes "pa" }

-- A modification to 40 units of bandwidth, until 3000.
abbrev pub modification : ReserveRequest
modification = record {
  protocol_version = codes "2";
  reply_to = [];
  connection_id = some 7;
  global_reservation_id = [];
  description = [];
  version = 1;
  service_type = [];
  start_time = 1000;
  end_time = 3000;
  capacity = 40;
  bi_directional = true;
  symmetric_path = false;
  source_stp = [];
  dest_stp = [];
  has_eros = false;
  has_path = false;
}
