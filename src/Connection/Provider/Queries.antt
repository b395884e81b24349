-- ===== src/Connection/Provider/Queries.antt =====
-- The handlers of the queries of src/supa/connection/provider/server.py, and the jobs of
-- src/supa/job/query.py that send the answers. The rows of the database that they read are an argument.
pub mod Fresh
use su_pa.Base.{
  Text, ℕ, ◌+◌, Bool, true, false, not, ◌&&◌, ◌||◌, List, [], ◌∷◌, ◌++◌, Option, none, some, ◌==◌,
  if◌then◌else◌,
}
use su_pa.Connection.Error.{NsiError}
use su_pa.Connection.Provider.{
  Header, Context, Response, acknowledgment, service_exception, validate_message_header,
}
use su_pa.Job.Query.{
  Stored, QueryRequest, QueryConfirmed, SortedNotifications, sort_notifications,
  create_query_confirmed_request,
}
use su_pa.Job.Register.{Notification, Result, query_notifications, query_results}

-- The requests; of a notification or a result the connection, the first ID and the last.
pub data Query : Type 0 where
  summary recursive : QueryRequest → Query
  notification result : ℕ → ℕ → ℕ → Query

-- The classes QuerySummaryJob, QueryRecursiveJob, QueryNotificationJob and QueryResultJob.
abbrev pub class_of : Query → ℕ
class_of (summary q) = 0
class_of (recursive q) = 1
class_of (notification i first last) = 2
class_of (result i first last) = 3

pub record Rows : Type 0 where
  pub stored : List Stored
  pub notifications : List Notification
  pub results : List Result

pub data Confirmed : Type 0 where
  query_confirmed : QueryConfirmed → Confirmed
  notifications_confirmed : SortedNotifications → Confirmed
  results_confirmed : List Result → Confirmed

abbrev pub confirmed_query : Option QueryConfirmed → Option Confirmed
confirmed_query none = none
confirmed_query (some x) = some (query_confirmed x)

-- What the functions of src/supa/job/query.py make of the rows; none is an exception.
unfoldable pub answer_of : Rows → Query → Option Confirmed
answer_of t (summary q) =
    confirmed_query (create_query_confirmed_request q t.notifications t.results t.stored)
answer_of t (recursive q) =
    confirmed_query (create_query_confirmed_request q t.notifications t.results t.stored)
answer_of t (notification i first last) = some (
    notifications_confirmed (sort_notifications (query_notifications i first last t.notifications)))
answer_of t (result i first last) = some (results_confirmed (query_results i first last t.results))

-- A scheduled job; its ID is its class and the correlation ID of the request.
pub record QueryJob : Type 0 where
  pub correlation_id : ℕ
  pub query : Query

-- The correlation IDs of the registered requests, the scheduled jobs, and the messages sent.
pub record QueryState : Type 0 where
  pub correlation_ids : List ℕ
  pub jobs : List QueryJob
  pub sent : List Confirmed

abbrev pub has_job : QueryJob → List QueryJob → Bool
has_job j [] = false
has_job j (k ∷ ks) =
    (k.correlation_id == j.correlation_id && class_of k.query == class_of j.query) || has_job j ks

-- The response, or none for an exception: an NsiException of a synchronous query, or an error of the
-- scheduler.
pub record QueryHandled : Type 0 where
  pub state : QueryState
  pub response : Option Response
  pub answer : Option Confirmed

-- `_register_request`.
abbrev pub register_request : Header → QueryState → QueryState
register_request header s = record s { correlation_ids = header.correlation_id ∷ s.correlation_ids }

-- `scheduler.add_job`, and the acknowledgement.
abbrev pub schedule_query : Header → Query → QueryState → QueryHandled
schedule_query header q s =
    let job : QueryJob = record { correlation_id = header.correlation_id; query = q } in
    if has_job job s.jobs then record { state = s; response = none; answer = none } else record {
      state = record s { jobs = job ∷ s.jobs };
      response = some acknowledgment;
      answer = none;
    }

abbrev pub query_checked : Option NsiError → Header → Query → QueryState → QueryHandled
query_checked none header q s = schedule_query header q (register_request header s)
query_checked (some e) header q s = record {
  state = s;
  response = some (service_exception e none);
  answer = none;
}

abbrev pub context_of : Text → QueryState → Context
context_of nsa_id s = record { nsa_id = nsa_id; correlation_ids = s.correlation_ids; now = 0 }

-- `QuerySummary`, `QueryRecursive`, `QueryNotification` and `QueryResult`.
unfoldable pub query : Text → Header → Query → QueryState → QueryHandled
unfolding validate_message_header
query nsa_id header q s =
    query_checked (validate_message_header (context_of nsa_id s) header) header q s

abbrev pub sync_checked : Option NsiError → Rows → Header → Query → QueryState → QueryHandled
sync_checked none t header q s = record {
  state = register_request header s;
  response = none;
  answer = answer_of t q;
}
sync_checked (some e) t header q s = record { state = s; response = none; answer = none }

-- `QuerySummarySync`, `QueryNotificationSync` and `QueryResultSync`, which return their answer.
unfoldable pub query_sync : Text → Rows → Header → Query → QueryState → QueryHandled
unfolding validate_message_header answer_of
query_sync nsa_id t header q s =
    sync_checked (validate_message_header (context_of nsa_id s) header) t header q s

abbrev pub sent_after : Option Confirmed → List Confirmed → List Confirmed
sent_after none xs = xs
sent_after (some x) xs = x ∷ xs

-- `__call__` of the first scheduled job with the correlation ID, after which the job is gone.
abbrev pub call_job : Rows → ℕ → List QueryJob → List Confirmed → List QueryJob × List Confirmed
call_job t c [] sent = ([], sent)
call_job t c (j ∷ js) sent =
    let rest = call_job t c js sent in
    if j.correlation_id == c
    then (js, sent_after (answer_of t j.query) sent)
    else (j ∷ rest.0, rest.1)

unfoldable pub run_query_job : Rows → ℕ → QueryState → QueryState
unfolding answer_of
run_query_job t c s =
    let done = call_job t c s.jobs s.sent in record s { jobs = done.0; sent = done.1 }

-- Requests and jobs in any order; the rows may be others each time.
pub data QueryStep : Type 0 where
  asks : Header → Query → QueryStep
  asks_sync : Rows → Header → Query → QueryStep
  runs : Rows → ℕ → QueryStep

unfoldable pub query_step : Text → QueryStep → QueryState → QueryState
unfolding query query_sync run_query_job
query_step nsa_id (asks header q) s = (query nsa_id header q s).state
query_step nsa_id (asks_sync t header q) s = (query_sync nsa_id t header q s).state
query_step nsa_id (runs t c) s = run_query_job t c s

unfoldable pub query_steps : Text → List QueryStep → QueryState → QueryState
unfolding query_step
query_steps nsa_id [] s = s
query_steps nsa_id (x ∷ xs) s = query_steps nsa_id xs (query_step nsa_id x s)
