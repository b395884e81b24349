-- ===== src/Job/Session.antt =====
-- How a job or a request handler works on one reservation: a database session (src/supa/db/session.py)
-- that commits or rolls back, calls that leave the database, and exceptions. The scheduler, the NRM
-- and the requester are not modelled here: what is asked of them is a list of calls, in order.
use su_pa.Base.{
  Text, is_empty, ℕ, Bool, true, false, List, [], ◌∷◌, ◌++◌, Option, none, some, if◌then◌else◌,
}
use su_pa.Connection.Fsm.{
  ReservationState, ReservationEvent, LifecycleState, ProvisionState, ProvisionEvent,
  LifecycleEvent, DataPlaneState, DataPlaneEvent, reservation_fsm, provision_fsm, lifecycle_fsm,
  data_plane_fsm, deactivated, released,
}
use su_pa.Connection.Error.{NsiError, generic_internal_error}
use su_pa.Db.Model.{Reservation, Connection}

-- The job classes, of which each has one job per connection: `job_id` is the class name and the
-- connection's ID.
pub data JobKind : Type 0 where
  reserve_job reserve_commit_job reserve_abort_job reserve_timeout_job : JobKind
  provision_job release_job activate_job deactivate_job : JobKind
  auto_start_job auto_end_job terminate_job : JobKind

-- `trigger()`: run immediately, at a time, or when the hold of the reservation times out.
pub data Trigger : Type 0 where
  immediately hold_timeout : Trigger
  at : ℕ → Trigger

-- `RequestType`, without the queries.
pub data RequestType : Type 0 where
  reserve reserve_commit reserve_abort provision release terminate : RequestType

-- The methods of the NRM backend.
pub data Primitive : Type 0 where
  reserve reserve_commit reserve_abort reserve_timeout modify : Primitive
  provision release activate deactivate terminate : Primitive

-- The messages to the requester, with the error that a failure carries.
pub data Message : Type 0 where
  reserve_confirmed reserve_commit_confirmed reserve_abort_confirmed : Message
  provision_confirmed release_confirmed terminate_confirmed : Message
  reserve_failed reserve_commit_failed error : NsiError → Message
  reserve_timeout : Message
  data_plane_state_change : Bool → Message
  activate_failed_event deactivate_failed_event forced_end_event : NsiError → Message

pub data Exception : Type 0 where
  transition_not_allowed no_result_found attribute_error index_error : Exception
  unbound_local_error integrity_error value_error : Exception
  conflicting_id_error job_lookup_error : Exception
  type_error detached_instance_error rpc_error : Exception

pub data Call : Type 0 where
  -- `scheduler.add_job`, `scheduler.remove_job`, and `add_job` unless `get_job` finds the job.
  add_job : JobKind → ℕ → Trigger → Call
  remove_job : JobKind → ℕ → Call
  add_job_once : JobKind → ℕ → Trigger → Call
  -- A method of the NRM backend.
  nrm : Primitive → ℕ → Call
  -- `_register_request`, with the connection.
  register_request : RequestType → ℕ → Call
  -- `register_result` or `register_notification`, and the call of the requester's stub.
  register_result : ℕ → Message → Call
  register_notification : ℕ → Message → Call
  send : Message → Call

-- A session's body: it ends with a changed reservation, or in an exception; the calls that it made
-- on the way stay made.
pub data Outcome (A : Type 0) : Type 0 where
  done : Reservation → List Call → A → Outcome A
  raised : List Call → Exception → Outcome A

abbrev pub Session : Type 0 → Type 0
Session A = Reservation → Outcome A

abbrev pub prepend : {A : Type 0} → List Call → Outcome A → Outcome A
prepend cs (done r ds a) = done r (cs ++ ds) a
prepend cs (raised ds e) = raised (cs ++ ds) e

abbrev pub bind : {A B : Type 0} → Outcome A → (A → Session B) → Outcome B
bind (done r cs a) f = prepend cs (f a r)
bind (raised cs e) f = raised cs e

infixl 5 ◌>>=◌ ◌>>◌
abbrev pub ◌>>=◌ : {A B : Type 0} → Session A → (A → Session B) → Session B
◌>>=◌ m f r = bind (m r) f

abbrev pub ◌>>◌ : {B : Type 0} → Session (Unit {0}) → Session B → Session B
m >> k = m >>= λ _. k

abbrev pub pure : {A : Type 0} → A → Session A
pure a r = done r [] a

abbrev pub raise : {A : Type 0} → Exception → Session A
raise e r = raised [] e

abbrev pub read : Session Reservation
read r = done r [] r

abbrev pub write : Reservation → Session (Unit {0})
write r' r = done r' [] tt

abbrev pub call : Call → Session (Unit {0})
call c r = done r (c ∷ []) tt

-- A value that an attribute or an index yields, or the exception that it raises.
abbrev pub get : {A : Type 0} → Exception → Option A → Session A
get e none = raise e
get e (some a) = pure a

-- `to_header(reservation, add_path_segment=True)` of src/supa/util/converter.py, as Util/Headers has it:
-- for a request that came with a path, the STPs of our own segment raise a TypeError.
abbrev pub add_path_segment : Session (Unit {0})
add_path_segment = do r ← read; if r.has_path then raise type_error else pure tt

-- `to_error_event` assigns `reply_to` to a field of a message, where None is a TypeError.
abbrev pub assign_reply_to : Option Text → Session (Unit {0})
assign_reply_to none = raise type_error
assign_reply_to (some t) = pure tt

abbrev pub to_error_event : Session (Unit {0})
to_error_event = do r ← read; assign_reply_to r.reply_to

-- `query(Connection)….one()`.
abbrev pub one_connection : Session Connection
one_connection = do r ← read; get no_result_found r.connection

-- An event of a state machine; the exception is raised if the event is not allowed.
abbrev pub fire_reservation : ReservationEvent → Session (Unit {0})
fire_reservation e = do
  r ← read
  s ← get transition_not_allowed (reservation_fsm r.reservation_state e)
  write (record r { reservation_state = s })

abbrev pub fire_lifecycle : LifecycleEvent → Session (Unit {0})
fire_lifecycle e = do
  r ← read
  s ← get transition_not_allowed (lifecycle_fsm r.lifecycle_state e)
  write (record r { lifecycle_state = s })

-- A state machine over an empty field starts in its initial state, and writes that to the field.
abbrev pub provision_state_of : Option ProvisionState → ProvisionState
provision_state_of none = released
provision_state_of (some s) = s

abbrev pub new_provision_machine : Session (Unit {0})
new_provision_machine = do
  r ← read
  write (record r { provision_state = some (provision_state_of r.provision_state) })

abbrev pub fire_provision : ProvisionEvent → Session (Unit {0})
fire_provision e = do
  r ← read
  s ← get transition_not_allowed (provision_fsm (provision_state_of r.provision_state) e)
  write (record r { provision_state = some s })

abbrev pub data_plane_state_of : Option DataPlaneState → DataPlaneState
data_plane_state_of none = deactivated
data_plane_state_of (some s) = s

abbrev pub new_data_plane_machine : Session (Unit {0})
new_data_plane_machine = do
  r ← read
  write (record r { data_plane_state = some (data_plane_state_of r.data_plane_state) })

abbrev pub fire_data_plane : DataPlaneEvent → Session (Unit {0})
fire_data_plane e = do
  r ← read
  s ← get transition_not_allowed (data_plane_fsm (data_plane_state_of r.data_plane_state) e)
  write (record r { data_plane_state = some s })

-- `try: … except TransitionNotAllowed`: whether the event was allowed.
abbrev pub moved : Reservation → Option DataPlaneState → Outcome Bool
moved r none = done r [] false
moved r (some s) = done (record r { data_plane_state = some s }) [] true

abbrev pub try_data_plane : DataPlaneEvent → Session Bool
try_data_plane e r = moved r (data_plane_fsm (data_plane_state_of r.data_plane_state) e)

abbrev pub moved_reservation : Reservation → Option ReservationState → Outcome Bool
moved_reservation r none = done r [] false
moved_reservation r (some s) = done (record r { reservation_state = s }) [] true

abbrev pub try_reservation : ReservationEvent → Session Bool
try_reservation e r = moved_reservation r (reservation_fsm r.reservation_state e)

abbrev pub moved_provision : Reservation → Option ProvisionState → Outcome Bool
moved_provision r none = done r [] false
moved_provision r (some s) = done (record r { provision_state = some s }) [] true

abbrev pub try_provision : ProvisionEvent → Session Bool
try_provision e r = moved_provision r (provision_fsm (provision_state_of r.provision_state) e)

abbrev pub moved_lifecycle : Reservation → Option LifecycleState → Outcome Bool
moved_lifecycle r none = done r [] false
moved_lifecycle r (some s) = done (record r { lifecycle_state = s }) [] true

abbrev pub try_lifecycle : LifecycleEvent → Session Bool
try_lifecycle e r = moved_lifecycle r (lifecycle_fsm r.lifecycle_state e)

-- What a method of the NRM backend does: it returns a circuit ID or None, or raises.
pub data Reply : Type 0 where
  circuit : Option Text → Reply
  nsi_error : NsiError → Reply
  other_exception : Reply

-- The NRM backend, which a deployment chooses: what each method does for a connection.
abbrev pub Backend : Type 0
Backend = Primitive → ℕ → Connection → Reply

-- `nsi_exception` and `circuit_id` after the call.
pub record Caught : Type 0 where
  pub nsi_exception : Option NsiError
  pub circuit_id : Option Text

abbrev pub caught : Reply → Caught
caught (circuit c) = record { nsi_exception = none; circuit_id = c }
caught (nsi_error e) = record { nsi_exception = some e; circuit_id = none }
caught other_exception = record { nsi_exception = some generic_internal_error; circuit_id = none }

-- The first part of most jobs: read the connection, and call the backend with it.
abbrev pub call_nrm : Backend → Primitive → Session Caught
call_nrm backend p = do
  c ← one_connection
  r ← read
  call (nrm p r.connection_id)
  pure (caught (backend p r.connection_id c))

-- `if circuit_id: connection.circuit_id = circuit_id`.
abbrev pub with_circuit : Option Text → Option Connection → Option Connection
with_circuit none c = c
with_circuit (some i) none = none
with_circuit (some i) (some c) =
    if is_empty i then some c else some (record c { circuit_id = some i })

abbrev pub set_circuit : Option Text → Session (Unit {0})
set_circuit i = do r ← read; write (record r { connection = with_circuit i r.connection })

-- What a job or a handler leaves behind: the row as committed, the calls, and how it failed.
pub record Run : Type 0 where
  pub row : Reservation
  pub calls : List Call
  pub failure : Option Exception

-- A session and what follows it: an exception rolls the row back.
abbrev pub commit : {A : Type 0} → Reservation → List Call → Outcome A → (A → List Call) → Run
commit r cs (done r' ds a) after = record {
  row = r';
  calls = cs ++ (ds ++ after a);
  failure = none;
}
commit r cs (raised ds e) after = record { row = r; calls = cs ++ ds; failure = some e }

-- Two sessions, the second of which works on what the first committed.
abbrev pub then_commit :
    {A B : Type 0} → Reservation → Outcome B → (B → Session A) → (A → List Call) → Run
then_commit r (done r' cs b) second after = commit r' cs (second b r') after
then_commit r (raised cs e) second after = record { row = r; calls = cs; failure = some e }

abbrev pub run_job :
    {A B : Type 0} → Session B → (B → Session A) → (A → List Call) → Reservation → Run
run_job first second after r = then_commit r (first r) second after

abbrev pub result : ℕ → Message → List Call
result i m = register_result i m ∷ send m ∷ []

abbrev pub notification : ℕ → Message → List Call
notification i m = register_notification i m ∷ send m ∷ []
