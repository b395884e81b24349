-- ===== src/Util/Converter.antt =====
-- src/supa/util/converter.py: the messages that are made of rows. A message is a record of its fields; a
-- field that is not set is none. Errors are those of Python: none is an IndexError or an
-- AttributeError, `Listed` says which one for the list of criteria, and `Built` has a TypeError.
pub mod Committed
pub mod Header
pub mod Selected
use su_pa.Base.{
  last?, second_last?, drop_last, Text, codes, is_empty, ℕ, Bool, true, false, not, ◌&&◌, ◌||◌,
  List, [], ◌∷◌, ◌++◌, Option, none, some, ◌==◌, if◌then◌else◌, length,
}
use su_pa.Connection.Fsm.{
  ReservationState, ProvisionState, LifecycleState, DataPlaneState, is_reserve_start, is_activated,
}
use su_pa.Db.Model.{
  Reservation, Schedule, P2PCriteria, Endpoint, schedule, p2p_criteria, no_end_date,
}
use su_pa.Util.Headers.{Built, built, type_error, Origin, PbHeader, to_header}
use su_pa.Util.Nsi.{Stp, to_text}
use su_pa.Util.Vlan.Print.{decimal}

-- `str` of an optional number.
abbrev pub text_of_vlan : Option ℕ → Text
text_of_vlan none = codes "None"
text_of_vlan (some v) = decimal v

-- `P2PCriteria.src_stp(selected=True)` and `dst_stp(selected=True)` of src/supa/db/model.py.
unfoldable pub selected_stp : Endpoint → Stp
selected_stp e = record {
  domain = e.domain;
  topology = e.topology;
  stp_id = e.stp_id;
  labels = some (codes "vlan=" ++ text_of_vlan e.selected_vlan);
}

pub record DataPlaneStatus : Type 0 where
  pub active : Bool
  pub version : ℕ
  pub version_consistent : Bool

pub record ConnectionStates : Type 0 where
  pub reservation_state : ReservationState
  pub provision_state : Option ProvisionState
  pub lifecycle_state : LifecycleState
  pub data_plane_status : DataPlaneStatus

abbrev pub version_of : Option Schedule → Option ℕ
version_of none = none
version_of (some s) = some s.version

-- The version that is reported.
abbrev pub states_version : Reservation → Option ℕ
states_version r =
    if length r.schedules == 1 || is_reserve_start r.reservation_state
    then some r.version
    else version_of (second_last? r.schedules)

abbrev pub states_with : Reservation → Bool → Option ℕ → Option ConnectionStates
states_with r active none = none
states_with r active (some v) = some (record {
  reservation_state = r.reservation_state;
  provision_state = r.provision_state;
  lifecycle_state = r.lifecycle_state;
  data_plane_status = record { active = active; version = v; version_consistent = true };
})

unfoldable pub to_connection_states : Bool → Reservation → Option ConnectionStates
to_connection_states data_plane_active r = states_with r data_plane_active (states_version r)

pub record PbSchedule : Type 0 where
  pub start_time : ℕ
  pub end_time : Option ℕ

unfoldable pub to_schedule : Schedule → PbSchedule
to_schedule s = record {
  start_time = s.start_time;
  end_time = if s.end_time == no_end_date then none else some s.end_time;
}

pub record PointToPointService : Type 0 where
  pub capacity : ℕ
  pub symmetric_path : Bool
  pub source_stp : Text
  pub dest_stp : Text
  pub parameters : List (Text × Text)

unfoldable pub to_p2p_service : P2PCriteria → List (Text × Text) → PointToPointService
unfolding selected_stp
to_p2p_service c parameters = record {
  capacity = c.bandwidth;
  symmetric_path = c.symmetric;
  source_stp = to_text (selected_stp c.src);
  dest_stp = to_text (selected_stp c.dst);
  parameters = parameters;
}

-- `const.SERVICE_TYPE`.
abbrev pub service_type_name : Text
service_type_name = codes "http://services.ogf.org/nsi/2013/12/descriptions/EVTS.A-GOLE"

-- `ReservationConfirmCriteria` and `QueryResultCriteria`.
pub record Criteria : Type 0 where
  pub version : ℕ
  pub schedule : PbSchedule
  pub service_type : Text
  pub ptps : PointToPointService

abbrev pub criteria_of : List (Text × Text) → ℕ → Schedule → P2PCriteria → Criteria
criteria_of parameters v s c = record {
  version = v;
  schedule = to_schedule s;
  service_type = service_type_name;
  ptps = to_p2p_service c parameters;
}

abbrev pub confirm_with :
    List (Text × Text) → ℕ → Option Schedule → Option P2PCriteria → Option Criteria
confirm_with parameters v none c = none
confirm_with parameters v (some s) none = none
confirm_with parameters v (some s) (some c) = some (criteria_of parameters v s c)

-- `to_confirm_criteria`.
unfoldable pub to_confirm_criteria : List (Text × Text) → Reservation → Option Criteria
to_confirm_criteria parameters r = confirm_with parameters r.version (schedule r) (p2p_criteria r)

-- The criteria, the ValueError of a strict `zip`, or the AssertionError.
pub data Listed : Type 0 where
  listed : List Criteria → Listed
  value_error assertion_error : Listed

abbrev pub list_cons : Criteria → Listed → Listed
list_cons c (listed cs) = listed (c ∷ cs)
list_cons c e = e

-- The loop over the zipped lists.
unfoldable pub zip_criteria : List (Text × Text) → List Schedule → List P2PCriteria → Listed
zip_criteria parameters [] [] = listed []
zip_criteria parameters [] (c ∷ cs) = value_error
zip_criteria parameters (s ∷ ss) [] = value_error
zip_criteria parameters (s ∷ ss) (c ∷ cs) =
    let rest = zip_criteria parameters ss cs in
    if s.version == c.version
    then list_cons (criteria_of parameters s.version s c) rest
    else assertion_error

-- `to_criteria_list`.
unfoldable pub to_criteria_list : List (Text × Text) → Reservation → Listed
unfolding zip_criteria
to_criteria_list parameters r =
    if is_reserve_start r.reservation_state
    then zip_criteria parameters r.schedules r.p2p_criteria_list
    else zip_criteria parameters (drop_last r.schedules) (drop_last r.p2p_criteria_list)

-- `to_notification_header`, and the fields that `to_data_plane_state_change_request` fills.
pub record StateChange : Type 0 where
  pub header : PbHeader
  pub connection_id : ℕ
  pub data_plane_status : DataPlaneStatus

abbrev pub state_change_with : Reservation → Built PbHeader → Built StateChange
state_change_with r type_error = type_error
state_change_with r (built h) = built (record {
  header = h;
  connection_id = r.connection_id;
  data_plane_status = record {
    active = is_activated r.data_plane_state;
    version = r.version;
    version_consistent = true;
  };
})

unfoldable pub to_data_plane_state_change_request : Origin → Reservation → Built StateChange
unfolding to_header
to_data_plane_state_change_request o r = state_change_with r (to_header true o r)
