-- ===== src/Job/Query.antt =====
-- `create_query_confirmed_request` of src/supa/job/query.py: the query on reservations. The other two
-- queries stand in Job/Register, for the rows; here their messages are sorted by type.
pub mod Summary
pub mod Sorted
use su_pa.Base.{
  Text, text_eq, ℕ, Bool, true, false, not, ◌&&◌, ◌||◌, List, [], ◌∷◌, ◌++◌, Option, none, some,
  ltb, ◌==◌, if◌then◌else◌,
}
use su_pa.Connection.Fsm.{is_auto_end, is_activated}
use su_pa.Db.Model.{Reservation}
use su_pa.Job.Register.{Notification, Result, notification_ids, result_ids, max_of}
use su_pa.Job.Session.{
  Message, reserve_timeout, data_plane_state_change, activate_failed_event, deactivate_failed_event,
  forced_end_event,
}
use su_pa.Util.Converter.{
  ConnectionStates, Criteria, Listed, listed, to_connection_states, to_criteria_list,
}

-- A reservation's row with `last_modified`, which the first change of the row sets, and with its
-- parameters.
pub record Stored : Type 0 where
  pub row : Reservation
  pub last_modified : Option ℕ
  pub parameters : List (Text × Text)

-- `QueryRequest`, with the connection IDs as they were parsed.
pub record QueryRequest : Type 0 where
  pub connection_id : List ℕ
  pub global_reservation_id : List Text
  pub if_modified_since : ℕ

pub record QueryResult : Type 0 where
  pub connection_id : ℕ
  pub requester_nsa : Text
  pub connection_states : ConnectionStates
  pub global_reservation_id : Text
  pub description : Option Text
  pub criteria : List Criteria
  pub notification_id : ℕ
  pub result_id : ℕ

-- In SQL a comparison with NULL is not true.
abbrev pub is_modified_since : ℕ → Option ℕ → Bool
is_modified_since since none = false
is_modified_since since (some t) = ltb since t

abbrev pub any_id : ℕ → List ℕ → Bool
any_id i [] = false
any_id i (j ∷ js) = j == i || any_id i js

abbrev pub any_global : Text → List Text → Bool
any_global g [] = false
any_global g (h ∷ hs) = text_eq h g || any_global g hs

abbrev pub no_filter : List ℕ → List Text → Bool
no_filter [] [] = true
no_filter [] (g ∷ gs) = false
no_filter (i ∷ is) gs = false

-- The two filters of the query; `or_(*or_filter)` only if there is one.
abbrev pub is_wanted : QueryRequest → Stored → Bool
is_wanted q s =
    is_modified_since q.if_modified_since s.last_modified
    && (no_filter q.connection_id q.global_reservation_id
        || any_id s.row.connection_id q.connection_id
        || any_global s.row.global_reservation_id q.global_reservation_id)

unfoldable pub wanted : QueryRequest → List Stored → List Stored
wanted q [] = []
wanted q (s ∷ ss) = let rest = wanted q ss in if is_wanted q s then s ∷ rest else rest

-- `max_id if max_id else 0`.
abbrev pub or_zero : Option ℕ → ℕ
or_zero none = 0
or_zero (some n) = n

abbrev pub result_with :
    List Notification
    → List Result
    → Reservation
    → Option ConnectionStates
    → Listed
    → Option QueryResult
result_with ns rs r none cs = none
result_with ns rs r (some states) (listed cs) = some (record {
  connection_id = r.connection_id;
  requester_nsa = r.requester_nsa;
  connection_states = states;
  global_reservation_id = r.global_reservation_id;
  description = r.description;
  criteria = cs;
  notification_id = or_zero (max_of (notification_ids r.connection_id ns));
  result_id = or_zero (max_of (result_ids r.connection_id rs));
})
result_with ns rs r (some states) e = none

-- The body of the loop; none is an exception.
unfoldable pub query_result : List Notification → List Result → Stored → Option QueryResult
query_result ns rs s =
    result_with ns rs s.row
      (to_connection_states
        (is_activated s.row.data_plane_state || is_auto_end s.row.data_plane_state) s.row)
      (to_criteria_list s.parameters s.row)

abbrev pub option_cons : Option QueryResult → Option (List QueryResult) → Option (List QueryResult)
option_cons none xs = none
option_cons (some x) none = none
option_cons (some x) (some xs) = some (x ∷ xs)

unfoldable pub query_all : List Notification → List Result → List Stored → Option (List QueryResult)
unfolding query_result
query_all ns rs [] = some []
query_all ns rs (s ∷ ss) = option_cons (query_result ns rs s) (query_all ns rs ss)

-- The latest change of any reservation, `func.max(Reservation.last_modified)`.
abbrev pub changes : List Stored → List ℕ
changes [] = []
changes (s ∷ ss) = elim (s.last_modified) [ none ↦ changes ss | some t ↦ t ∷ changes ss ]

pub record QueryConfirmed : Type 0 where
  pub last_modified : Option ℕ
  pub reservation : List QueryResult

abbrev pub confirmed_with : Option ℕ → Option (List QueryResult) → Option QueryConfirmed
confirmed_with t none = none
confirmed_with t (some xs) = some (record { last_modified = t; reservation = xs })

unfoldable pub create_query_confirmed_request :
    QueryRequest → List Notification → List Result → List Stored → Option QueryConfirmed
unfolding wanted query_all
create_query_confirmed_request q ns rs ss =
    confirmed_with (max_of (changes ss)) (query_all ns rs (wanted q ss))

-- `QueryNotificationConfirmedRequest`: the messages of each type, in the order of the rows.
pub record SortedNotifications : Type 0 where
  pub reserve_timeout : List Message
  pub error_event : List Message
  pub data_plane_state_change : List Message

abbrev pub add_sorted : Message → SortedNotifications → SortedNotifications
add_sorted Message.reserve_timeout x = record x {
  reserve_timeout = Message.reserve_timeout ∷ x.reserve_timeout;
}
add_sorted (activate_failed_event e) x = record x {
  error_event = activate_failed_event e ∷ x.error_event;
}
add_sorted (deactivate_failed_event e) x = record x {
  error_event = deactivate_failed_event e ∷ x.error_event;
}
add_sorted (forced_end_event e) x = record x { error_event = forced_end_event e ∷ x.error_event }
add_sorted (Message.data_plane_state_change b) x = record x {
  data_plane_state_change = Message.data_plane_state_change b ∷ x.data_plane_state_change;
}
add_sorted m x = x

-- The loop of `create_query_notification_confirmed_request`; a message of another kind is logged.
unfoldable pub sort_notifications : List Notification → SortedNotifications
sort_notifications [] = record {
  reserve_timeout = [];
  error_event = [];
  data_plane_state_change = [];
}
sort_notifications (n ∷ ns) = add_sorted n.message (sort_notifications ns)
