-- ===== src/Lib.antt =====
-- spraycc sends the compilations of a build to executors on other hosts. Clients submit tasks to a
-- server, the server starts executors and hands them tasks, and the output of a task goes from its
-- executor over the server to its client. All parts talk by the messages of src/ipc.rs.
--
-- * Ipc is src/ipc.rs: the messages and target ids; Ipc/Framing is `Connection`, over the reads of a
--   socket in pieces, and Ipc/Framing/RoundTrip its proofs; Ipc/Outputs reads off a list of messages
--   what it says of the streams and the files of a task; Ipc/Printing is the Debug text.
-- * Server is src/server.rs. Server/State is `ServerState` and `Remote`; Server/Start has
--   `start_execs` and `start_execs_in_queue`; Server/Dispatch has `check_queues` and `update`;
--   Server/Handlers has `add_remote`, `handle_dropped`, `remote_is_client`, `remote_is_exec`,
--   `exec_is_ready` and `handle_msg`; Server/Loop has `new`, `run`, `report_status`, `ok_to_shutdown`
--   and `shutdown`; Server/Gate is `handle_connection`
--   and Server/Network `get_network_addr`. Server/Queue is the interface of the crate
--   priority_queue. Server/Invariant says how remotes, queues and counters fit together, and
--   Server/Safety follows it through the handlers. Server/Relay is about the way of a task's messages
--   to its client: Relay/Frame follows what holds of some remotes through the handlers, Relay/Isolated
--   is about the remotes that an event has no part in, Relay/Trace, Relay/Ended and Relay/Delivery about
--   runs in which the messages of a task stand between others. Server/Schedule is about the order of the
--   two queues, Schedule/Release about the executors that are let go, Schedule/Update about the whole
--   of `update`, and Schedule/Next about an executor that goes on to its next task.
-- * Exec is src/exec.rs: `run`, `handle_new_task`, `run_task` and `send_output_file`. Exec/Pumping is
--   about its loop over two streams, Exec/Files about the output files, Exec/Tasks about a whole task;
--   Exec/Emitting and Exec/Protocol are about the order of the messages, Exec/Returns about the end.
-- * Task is src/task.rs: `redirect_outputs` and `generate_unique_file`, and in Task/Start
--   `Task::start`; Task/Names is about the search for one name, Task/Redirect about all output files.
-- * Client is src/client.rs: Client/CommandLine has `interpret_command_line` and `handle_gnu`,
--   Client/Connect `connect_w_retry`, Client/Output `LazyFile`, `handle_msg`, `write_output` and the
--   part of `run` that waits for the task, Client/Run the whole of `run` and `run_local_task`.
-- * Config is src/config.rs: Config/Files is the disk, Config/Contact the file by which clients find
--   the server, Config/PrivateKey the key of the user, Config/Options the executor options and
--   Config/Limits the limit on open files.
-- * History is src/history.rs, with the history file as an optional text.
-- * Main is src/main.rs, from what clap makes of the arguments to the exit code.
-- * System puts an executor and the client of its task together, System/Run adds the search for
--   the server and the connection to it, and System/Delivery the server between the two;
--   System/Admission is about what a client says at the server's gate.
-- * The files called Checks have the tests that stand in the source files, as functions into Bool that
--   take the crates as parameters.
-- * Base has what the parts share: lists by native numbers, results with `do`, and maps by text.
--
-- Fallible code returns a `Result`; a panic is a fault of its own, apart from an error that `?`
-- hands on. Times are nanoseconds. Each event of the server comes with an `Env`: the readings of
-- the clock, which channels take a message, which processes start. A channel is the list of the
-- messages sent on it, newest first. A run is a finite list of events. The run of an executor goes
-- over the list of what it reads, and each task comes with a `World`: the host, the times, and the
-- schedule by which `select!` prefers one stream or the other.
--
-- Numbers are unbounded, except where the source casts: ids are cut to 32 bits, argument indices to
-- 16, and message lengths to 32, with the bounds stated in the theorems. Subtraction on usize that
-- would go below zero is a fault. The loop that starts executors runs over the list of outcomes of
-- its attempts, and is still running when the list ends first. The fuel of the search for a unique
-- name is two rounds more than there are names that are taken, the fuel of the attempts to connect
-- is six, and a schedule has to be as long as the lines of both streams and two; each is shown to be
-- enough.
--
-- The crates bincode, serde_json, toml, priority_queue, which, home, rand, rlimit, tempfile, clap,
-- get_if_addrs and ubyte are parameters, with what they document as hypotheses. Not modelled: what is
-- printed, the back-pressure of bounded channels, sockets and processes as such, file modes, and the
-- waits between attempts to connect. A read of a message is one step: in `handle_connection`, `select!`
-- can drop `read_message` after it has taken the length off its buffer, and the reads after that are
-- not modelled. A connection that cannot be accepted is an event on which the server panics; runs
-- that go on past it do not exist.
pub mod Base
pub mod Ipc
pub mod Config
pub mod History
pub mod Server
pub mod Client
pub mod Task
pub mod Main
pub mod System
pub mod Exec
