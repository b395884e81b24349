-- ===== src/Examples/Queries.antt =====
-- Queries and their answers on examples.
use su_pa.Base.{codes, ℕ, ◌≡◌, ◌⊎◌, refl, true, false, List, [], ◌∷◌, none, some, arith}
use su_pa.Connection.Error.{NsiError}
use su_pa.Connection.Provider.{Header, acknowledgment, service_exception, validate_message_header}
use su_pa.Connection.Provider.Queries
use su_pa.Connection.Provider.Queries.{
  Rows, summary, recursive, notification, QueryState, QueryStep, asks, asks_sync, runs, query_steps,
  query_sync, run_query_job, sent_after, context_of,
}
use su_pa.Connection.Provider.Queries.Fresh.{query_steps-answered}
use su_pa.Connection.Fsm.{reserve_start}
use su_pa.Job.Query.{
  Stored, QueryRequest, QueryResult, QueryConfirmed, query_result, create_query_confirmed_request,
}
use su_pa.Job.Query.Summary.{
  find_stored, find_result, HasUniqueConnections, AreVersioned, answer_for, query_answers,
}
use su_pa.Job.Query.Sorted.{polls_new_notifications}
use su_pa.Job.Register.{Notification, query_notifications, register_notification}
use su_pa.Job.Session.{Message}
use su_pa.Util.Converter.{criteria_of, to_connection_states, to_criteria_list}
use su_pa.Examples.Data.{header, new_row, committed_row, criteria, from_to}
use su_pa.Examples.Answers.{modified_row, modified-IsVersioned}

-- A modified reservation, and one that was never changed.
abbrev stored : List Stored
stored =
    record { row = modified_row; last_modified = some 1200; parameters = [] }
    ∷ record { row = record new_row { connection_id = 8 }; last_modified = none; parameters = [] }
    ∷ []

abbrev query : QueryRequest
query = record {
  connection_id = 8 ∷ [];
  global_reservation_id = codes "g" ∷ [];
  if_modified_since = 0;
}

stored-HasUniqueConnections : HasUniqueConnections stored
stored-HasUniqueConnections = (refl, (refl, tt))

stored-AreVersioned : AreVersioned stored
stored-AreVersioned = (
  (0, modified-IsVersioned),
  ((0, record { begun = omega arith; aligned = (refl, refl, omega arith, refl) }), tt),
)

query_answers_example :
    (x : QueryConfirmed) × (create_query_confirmed_request query [] [] stored ≡ some x)
    × ((i : ℕ) → find_result i x.reservation ≡ answer_for query [] [] (find_stored i stored))
query_answers_example =
    query_answers query [] [] stored stored-HasUniqueConnections stored-AreVersioned

-- Two notifications of the connection 7.
abbrev notified : List Notification
notified =
    record { connection_id = 7; notification_id = 1; message = Message.reserve_timeout }
    ∷ record { connection_id = 7; notification_id = 2; message = Message.reserve_timeout }
    ∷ []

abbrev committed_stored : Stored
committed_stored = record { row = committed_row; last_modified = some 1200; parameters = [] }

abbrev answer : QueryResult
answer = record {
  connection_id = 7;
  requester_nsa = codes "ra";
  connection_states = record {
    reservation_state = reserve_start;
    provision_state = committed_row.provision_state;
    lifecycle_state = committed_row.lifecycle_state;
    data_plane_status = record { active = false; version = 0; version_consistent = true };
  };
  global_reservation_id = codes "g";
  description = none;
  criteria = criteria_of [] 0 (from_to 0 1000 2000) (criteria 0 10 (some 101) (some 101)) ∷ [];
  notification_id = 2;
  result_id = 0;
}

answered : query_result notified [] committed_stored ≡ some answer
unfolding query_result to_connection_states to_criteria_list
answered = refl

polls_new_notifications_example :
    (query_notifications 7 3 0 notified ≡ [])
    × (query_notifications 7 3 0 (register_notification 7 Message.reserve_timeout notified)
        ≡ record { connection_id = 7; notification_id = 3; message = Message.reserve_timeout } ∷ [])
polls_new_notifications_example =
    polls_new_notifications notified [] committed_stored answer Message.reserve_timeout answered

abbrev other_header : Header
other_header = record header { correlation_id = 3 }

abbrev rows : Rows
rows = record { stored = stored; notifications = notified; results = [] }

-- A query is answered between the requests.
abbrev query_sequence : List QueryStep
query_sequence =
    asks header (summary query)
    ∷ asks_sync rows header (notification 7 0 0)
    ∷ runs rows 2
    ∷ asks other_header (recursive query)
    ∷ []

abbrev idle : QueryState
idle = record { correlation_ids = 1 ∷ []; jobs = []; sent = [] }

query_steps-answered_example :
    let before = query_steps (codes "pa") query_sequence idle in
    let last = record header { correlation_id = 4 } in
    let h = Queries.query (codes "pa") last (notification 7 1 2) before in
    ((h.response ≡ some acknowledgment)
      × ((run_query_job rows 4 h.state).sent
          ≡ sent_after
              (query_sync (codes "pa") rows last (notification 7 1 2) before).answer
              before.sent))
    ⊎ ((e : NsiError) × (validate_message_header (context_of (codes "pa") before) last ≡ some e)
        × (h.response ≡ some (service_exception e none))
        × (h.state ≡ before))
query_steps-answered_example =
    query_steps-answered (codes "pa") query_sequence idle (record header { correlation_id = 4 })
      (notification 7 1 2) rows tt
