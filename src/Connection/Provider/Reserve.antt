-- ===== src/Connection/Provider/Reserve.antt =====
-- The handler `Reserve` of src/supa/connection/provider/server.py. The connection ID of a new
-- reservation, which the database generates, is an argument. The path trace of the header and the
-- service parameters are not kept.
use su_pa.Base.{
  Text, is_empty, ℕ, ◌+◌, Bool, false, not, ◌&&◌, ◌||◌, List, [], ◌∷◌, ◌++◌, Option, none, some,
  ltb, ◌==◌, if◌then◌else◌, last?,
}
use su_pa.Connection.Fsm.{reserve_request, reserve_start, created, is_reserve_start, is_created}
use su_pa.Connection.Error.{
  NsiError, generic_message_pay_load_error, invalid_transition, unsupported_parameter,
}
use su_pa.Connection.Provider.{
  Header, Context, Response, acknowledgment, service_exception, validate_message_header,
  validate_schedule, Handled, refused, answer, on_row, if_valid,
}
use su_pa.Db.Model.{Reservation, Schedule, Endpoint, P2PCriteria, p2p_criteria, epoch, no_end_date}
use su_pa.Job.Session.{
  Session, reserve_job, reserve_timeout_job, immediately, hold_timeout, RequestType,
  attribute_error, index_error, integrity_error, value_error, Call, add_job, register_request,
  ◌>>=◌, ◌>>◌, pure, raise, read, write, get, fire_reservation, try_reservation,
}
use su_pa.Util.Nsi.{parse_stp}
use su_pa.Util.Vlan.Parse.{vlan_ranges}

pub record ReserveRequest : Type 0 where
  pub protocol_version : Text
  pub reply_to : Text
  pub connection_id : Option ℕ
  pub global_reservation_id : Text
  pub description : Text
  pub version : ℕ
  pub service_type : Text
  pub start_time : ℕ
  pub end_time : ℕ
  pub capacity : ℕ
  pub bi_directional : Bool
  pub symmetric_path : Bool
  pub source_stp : Text
  pub dest_stp : Text
  pub has_eros : Bool
  -- Whether the path trace of the header has an ID and a path.
  pub has_path : Bool

-- `x if x else None`.
abbrev pub text_or_none : Text → Option Text
text_or_none t = if is_empty t then none else some t

-- `is_specified`, and the defaults of the columns of `Schedule`.
abbrev pub is_specified : ℕ → Bool
is_specified t = ltb epoch t

abbrev pub new_schedule : ℕ → ℕ → ℕ → ℕ → Schedule
new_schedule now version start_time end_time = record {
  version = version;
  start_time = if is_specified start_time then start_time else now;
  end_time = if is_specified end_time then end_time else no_end_date;
}

-- The table's constraint on a schedule that is stored.
store_schedule : Schedule → Session (Unit {0})
store_schedule s = if ltb s.start_time s.end_time then pure tt else raise integrity_error

new_endpoint : Text → Session Endpoint
new_endpoint stp = do
  s ← get value_error (parse_stp stp)
  vlans ← get value_error (vlan_ranges s)
  pure (record {
    domain = s.domain;
    topology = s.topology;
    stp_id = s.stp_id;
    vlans = vlans;
    selected_vlan = none;
  })

-- The row of a new reservation before its STPs are parsed.
abbrev pub blank_reservation : Context → Header → ℕ → ReserveRequest → Reservation
blank_reservation x header i q = record {
  connection_id = i;
  version = q.version;
  protocol_version = q.protocol_version;
  requester_nsa = header.requester_nsa;
  provider_nsa = header.provider_nsa;
  reply_to = text_or_none q.reply_to;
  global_reservation_id = q.global_reservation_id;
  description = text_or_none q.description;
  reservation_state = reserve_start;
  provision_state = none;
  lifecycle_state = created;
  data_plane_state = none;
  reservation_timeout = false;
  has_path = q.has_path;
  schedules = new_schedule x.now q.version q.start_time q.end_time ∷ [];
  p2p_criteria_list = [];
  connection = none;
}

-- The branch for a new reservation; its row is stored if nothing is raised.
unfoldable pub new_body : Context → ReserveRequest → Session Response
unfolding new_endpoint store_schedule
new_body x q = do
  src ← new_endpoint q.source_stp
  dst ← new_endpoint q.dest_stp
  r ← read
  let criteria : P2PCriteria = record {
    version = q.version;
    bandwidth = q.capacity;
    bi_directional = q.bi_directional;
    symmetric = q.symmetric_path;
    src = src;
    dst = dst;
  }
  write (record r { p2p_criteria_list = criteria ∷ [] })
  fire_reservation reserve_request
  store_schedule (new_schedule x.now q.version q.start_time q.end_time)
  pure acknowledgment

-- The fields that a modification must leave unset.
abbrev pub has_fixed_field : ReserveRequest → Bool
has_fixed_field q =
    not (is_empty q.description)
    || not (is_empty q.global_reservation_id)
    || not (is_empty q.service_type)
    || not (is_empty q.source_stp)
    || not (is_empty q.dest_stp)
    || q.symmetric_path
    || q.has_eros

-- A version of 0 counts as unset.
abbrev pub new_version : ReserveRequest → Reservation → ℕ
new_version q r = if not (q.version == 0) then q.version else r.version + 1

abbrev pub cannot_change_start : ℕ → ReserveRequest → Schedule → Bool
cannot_change_start now q old =
    ltb old.start_time now && ltb now q.start_time && not (old.start_time == q.start_time)

-- The new version's schedule and criteria are appended.
unfoldable pub append_version : Context → ReserveRequest → P2PCriteria → Session (Unit {0})
unfolding store_schedule
append_version x q c = do
  r ← read
  let version : ℕ = new_version q r
  let s : Schedule = new_schedule x.now version q.start_time q.end_time
  write (record r {
    version = version;
    schedules = r.schedules ++ s ∷ [];
    p2p_criteria_list =
        r.p2p_criteria_list ++ record c { version = version; bandwidth = q.capacity } ∷ [];
  })
  store_schedule s

unfoldable pub modify_state : Context → ℕ → ReserveRequest → Session Response
modify_state x i q = do
  allowed ← try_reservation reserve_request
  if allowed
      then (do
        r ← read
        c ← get attribute_error (p2p_criteria r)
        append_version x q c
        pure acknowledgment)
      else pure (service_exception invalid_transition (some i))

-- The branch for a modification.
unfoldable pub modify_body : Context → ℕ → ReserveRequest → Session Response
modify_body x i q = do
  r ← read
  if not (is_reserve_start r.reservation_state) || not (is_created r.lifecycle_state)
      then pure (service_exception invalid_transition (some i))
      else (do
        old ← get index_error (last? r.schedules)
        if not (r.version + 1 == new_version q r)
            then pure (service_exception unsupported_parameter (some i))
            else (if cannot_change_start x.now q old
                then pure (service_exception unsupported_parameter (some i))
                else modify_state x i q))

reserve_after : ℕ → List Call
reserve_after i =
    register_request RequestType.reserve i
    ∷ add_job reserve_job i immediately
    ∷ add_job reserve_timeout_job i hold_timeout
    ∷ []

-- A new row is not there unless the handler stored it.
abbrev pub stored : Handled → Handled
stored h = elim h.failure [ none ↦ h | some e ↦ record h { row = none } ]

reserve_new : Context → Header → ℕ → ReserveRequest → Handled
unfolding reserve_after
reserve_new x header i q =
    let r = blank_reservation x header i q in stored (answer r (reserve_after i) (new_body x q r))

reserve_modify : Context → ℕ → ReserveRequest → Option Reservation → Handled
unfolding reserve_after
reserve_modify x i q r =
    if has_fixed_field q
    then refused r (service_exception generic_message_pay_load_error (some i))
    else on_row i (modify_body x i q) (reserve_after i) r

abbrev pub either_error : Option NsiError → Option NsiError → Option NsiError
either_error none e = e
either_error (some e) _ = some e

reserve_valid : Context → Header → ℕ → ReserveRequest → Option Reservation → Option ℕ → Handled
unfolding reserve_new reserve_modify
reserve_valid x header fresh q r none = reserve_new x header fresh q
reserve_valid x header fresh q r (some i) = reserve_modify x i q r

-- `Reserve`: `fresh` is the connection ID that the database generates, `r` the row of the
-- connection that the request names.
unfoldable pub reserve : Context → Header → ℕ → ReserveRequest → Option Reservation → Handled
unfolding reserve_valid
reserve x header fresh q r =
    if_valid
      (either_error (validate_message_header x header)
        (validate_schedule x.now q.start_time q.end_time))
      r (reserve_valid x header fresh q r q.connection_id)
