-- ===== src/Connection/Provider.antt =====
-- src/supa/connection/provider/server.py: what the request handlers of the provider service share.
-- A handler works on the row of the connection that the request names, if there is one. The answer
-- to the requester, the row and the calls are its result; an exception that leaves the handler
-- gives no answer.
pub mod Queries
pub mod Requests
pub mod Reserve
pub mod Acceptance
use su_pa.Base.{
  Text, is_empty, text_eq, ℕ, Bool, true, false, not, ◌&&◌, ◌||◌, List, [], ◌∷◌, ◌++◌, Option, none,
  some, ltb, leb, ◌==◌, if◌then◌else◌,
}
use su_pa.Connection.Error.{
  NsiError, unsupported_parameter, missing_parameter, reservation_non_existent,
}
use su_pa.Db.Model.{Reservation, epoch}
use su_pa.Job.Session.{Outcome, done, raised, Session, Call, Exception}

pub record Header : Type 0 where
  pub correlation_id : ℕ
  pub requester_nsa : Text
  pub provider_nsa : Text

-- `settings.nsa_id`, and the correlation IDs of the registered requests.
pub record Context : Type 0 where
  pub nsa_id : Text
  pub correlation_ids : List ℕ
  pub now : ℕ

abbrev pub is_registered : ℕ → List ℕ → Bool
is_registered i [] = false
is_registered i (j ∷ js) = j == i || is_registered i js

-- `_validate_message_header`.
unfoldable pub validate_message_header : Context → Header → Option NsiError
validate_message_header x header =
    if is_empty header.requester_nsa
    then some unsupported_parameter
    else if is_empty header.provider_nsa
    then some unsupported_parameter
    else if not (text_eq header.provider_nsa x.nsa_id)
    then some unsupported_parameter
    else if is_registered header.correlation_id x.correlation_ids
    then some missing_parameter
    else none

-- `_validate_schedule`; a message field always converts to true in a condition.
unfoldable pub validate_schedule : ℕ → ℕ → ℕ → Option NsiError
validate_schedule now start_time end_time =
    if not (end_time == epoch) && leb end_time now
    then some unsupported_parameter
    else if not (end_time == epoch) && leb end_time start_time
    then some unsupported_parameter
    else none

-- An acknowledgement, or a service exception with the connection that it names.
pub data Response : Type 0 where
  acknowledgment : Response
  service_exception : NsiError → Option ℕ → Response

-- `response.service_exception.connection_id`.
abbrev pub names_connection : Response → Bool
names_connection acknowledgment = false
names_connection (service_exception e none) = false
names_connection (service_exception e (some i)) = true

-- What a handler leaves behind. The response is returned after the calls, and only if the scheduler
-- raises no exception at one of them (`served` of Job/Scheduler/Calls).
pub record Handled : Type 0 where
  pub row : Option Reservation
  pub response : Option Response
  pub calls : List Call
  pub failure : Option Exception

abbrev pub refused : Option Reservation → Response → Handled
refused r e = record { row = r; response = some e; calls = []; failure = none }

-- After the session: what is scheduled, unless the response names a connection in an exception.
abbrev pub answer : Reservation → List Call → Outcome Response → Handled
answer r after (done r' cs a) = record {
  row = some r';
  response = some a;
  calls = cs ++ (if names_connection a then [] else after);
  failure = none;
}
answer r after (raised cs e) = record {
  row = some r;
  response = none;
  calls = cs;
  failure = some e;
}

-- The session on the row, or the refusal where there is none.
unfoldable pub on_row : ℕ → Session Response → List Call → Option Reservation → Handled
on_row i body after none = refused none (service_exception reservation_non_existent (some i))
on_row i body after (some r) = answer r after (body r)

abbrev pub if_valid : Option NsiError → Option Reservation → Handled → Handled
if_valid none r h = h
if_valid (some e) r h = refused r (service_exception e none)

-- The shape of the handlers for a `GenericRequest`.
unfoldable pub handle :
    Context → Header → ℕ → Session Response → List Call → Option Reservation → Handled
unfolding on_row
handle x header i body after r =
    if_valid (validate_message_header x header) r (on_row i body after r)
