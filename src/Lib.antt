-- ===== src/Lib.antt =====
-- SuPA, the Supporting Agent: it answers the requests of the Network Service Interface (NSI)
-- for point-to-point circuits, keeps the reservations in a database, and asks a Network Resource
-- Manager (NRM) to set the circuits up. Paths below are from the root of the repository.
--
-- How the program works. A request arrives at a handler of src/supa/connection/provider/server.py,
-- which checks it, moves one of the four state machines of a reservation
-- (src/supa/connection/fsm.py), stores the row, and hands a job to the scheduler. A job
-- (src/supa/job/*.py) reads the row in a first database session, calls the NRM, writes the row in a
-- second session, may schedule or cancel further jobs, and sends the result to the requester.
-- Reservations have versions: a modification appends a schedule and criteria, and is committed or
-- aborted later. A session that raises an exception is rolled back; for a request that came with a
-- path (`has_path` of Db/Model) every confirmation and every change of the data plane raises a
-- TypeError in its session (`add_path_segment` of Job/Session).
--
-- Which file models which part.
--   Base                 tests on numbers, lists and texts that all parts use.
--   Util/Functional      src/supa/util/functional.py: expand_ranges, to_ranges. Its children prove
--                        what sorting and grouping do.
--   Util/Vlan            src/supa/util/vlan.py: VlanRanges with its set operators; Util/Vlan/Parse
--                        the constructor for texts, and Stp.vlan_ranges; Util/Vlan/Print the text of
--                        a value, with its children on decimal numbers and on reading it back.
--   Util/Nsi             src/supa/util/nsi.py: Stp, parse_stp.
--   Util/Headers         src/supa/util/converter.py: the headers of messages, and confirmations.
--   Util/Converter       src/supa/util/converter.py: connection states, schedules, services and criteria
--                        as messages; its children prove which versions are reported, what headers
--                        carry, and how the receiver reads an STP.
--   Connection/Fsm       src/supa/connection/fsm.py: the state machines as partial functions of a
--                        state and an event; none is TransitionNotAllowed.
--   Connection/Error     src/supa/connection/error.py: the errors by name.
--   Db/Model             src/supa/db/model.py: the rows as records.
--   Job/Session          src/supa/db/session.py, src/supa/job/shared.py, src/supa/nrm/backend.py: a
--                        session is a function from a row to a changed row, the calls made and a
--                        value, or to an exception.
--   Connection/Provider  src/supa/connection/provider/server.py: the checks that the handlers share;
--                        Requests has ReserveCommit, ReserveAbort, Provision, Release and Terminate,
--                        Reserve the handler for new and modified reservations, Queries the handlers
--                        of the queries with the jobs that answer them.
--   Job/Reserve          src/supa/job/reserve.py: Resources and Stp are the checks of a new
--                        reservation, Hold is ReserveJob, then Commit, Abort and Timeout.
--   Job/Register         src/supa/job/shared.py: register_notification and register_result, and the
--                        selection of rows of src/supa/job/query.py.
--   Job/Provision        src/supa/job/provision.py: ProvisionJob and ReleaseJob.
--   Job/Dataplane        src/supa/job/dataplane.py: ActivateJob, DeactivateJob, AutoStartJob,
--                        AutoEndJob.
--   Job/Lifecycle        src/supa/job/lifecycle.py: TerminateJob and HealthCheckJob.
--   Job/Scheduler        the scheduler as an interface with its laws; Calls runs the calls that a
--                        handler or a job makes and says what a handler then returns, Commit has
--                        ReserveCommit as a whole, Leftover shows where calls meet an exception.
--   Job/Recover          recover and trigger of the job classes of src/supa/job, and recover_jobs of
--                        src/supa/__init__.py; its children count the jobs that are put back.
--   Job/Query            src/supa/job/query.py: the query on reservations, and the notifications
--                        sorted by type.
--   Documents/Topology   src/supa/documents/topology.py: refresh_topology and the STPs that the
--                        document lists.
--   Command              src/supa/main.py: the commands `supa stp`; Refines has them as changes to a map.
--   Nrm/Ciena            src/supa/nrm/backends/ciena8190.py: the requests of activate, deactivate and
--                        terminate to the switch; Tables has the circuits that are found on it,
--                        Ports shows which STP is found for a port and a VLAN, Written has the
--                        requests written out, Atomic what happens when one is refused.
--   Nrm/Wfo              src/supa/nrm/backends/wfo.py: the workflows of a workflow orchestrator, with
--                        the waits for their processes and the pages of its subscriptions.
--   Nrm/Nso              src/supa/nrm/backends/nso.py: the circuit IDs.
--   Program              handlers and sessions of jobs in any order on one reservation; a job with
--                        an NRM call is two steps, so that others may run in between.
--   Examples             concrete reservations on which the theorems are applied.
--
-- How state and effects correspond. `X_update` is the second session of a job, `X_call` or
-- `call_nrm` the first with the NRM call, and `X_job` or `X_job_run` the whole `__call__`. The
-- scheduler, the requester and the NRM are not run there: what is asked of them is a list of calls,
-- in the order of the code. Job/Scheduler runs the calls on any scheduler that obeys the laws of
-- add_job, remove_job and get_job. What the NRM answers is a parameter, a function of the method and
-- of its arguments; `random.choice` is one too, of which it is assumed that it picks an element; a
-- switch accepts a request according to all requests so far, and the order in which a Python set is
-- read is a function of its elements.
--
-- Numbers and bounds. All numbers are natural numbers without a bound, as Python's are; a VLAN is
-- at most 4096, which the constructor of VlanRanges tests. A point in time is a number of
-- microseconds since the epoch. The available bandwidth, which may be negative in the code, is
-- compared without the subtraction. Most functions are by structural recursion. The waits and the pages
-- of Nrm/Wfo are loops on fuel, which one more than the polls, and one more than the subscriptions, is
-- enough of. The digits of a number
-- are made in rounds, of which there are as many as the number says and one more: each divides what is
-- left by ten, and the round trip through the text shows that they are enough.
--
-- What is not modelled. The texts of messages and errors and log entries; path traces and service
-- parameters, but for their way into messages; the error events of the converters; the web server and
-- the XML of the documents; of the command line the start-up and the commands on reservations; of the drivers the
-- sessions, the parsing of XML, the forms of workflows and the requests to the NSO, and the drivers of
-- other switches; the MCP server. In
-- Program the scheduler's state does not occur. A call of the requester's stub stands last in a job, where
-- an exception changes nothing that is modelled; the loop of HealthCheckJob has it (`deliver`). White space and digits are those of ASCII.
pub mod Base
pub mod Util
pub mod Connection
pub mod Db
pub mod Job
pub mod Documents
pub mod Command
pub mod Nrm
pub mod Program
pub mod Examples
