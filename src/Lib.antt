-- ===== src/Lib.antt =====
-- BigTop schedules microVM tasks on a cluster: a server keeps jobs, tasks, nodes, logs, snapshots and
-- an address pool in one state behind a mutex, HTTP handlers and a periodic scheduling pass change it,
-- and a change that must survive a restart is acknowledged once its journal entry is
-- on disk. On startup the journal is replayed, on an empty state or on a
-- compacted snapshot.
--
-- Which file models which part:
--   Common            lists, maps, Boolean tests, sorting and the order of texts, with Common/Hex
--                     (hexadecimal numbers)
--   Core/Ids, Error, Resources, Snapshots, Network, Mac, Types, Wire
--                     crates/bigtop-core/src: the data types, resource arithmetic, node
--                     liveness, MAC addresses; Core/Ids/Fresh is about generated ids
--   Server/Ipam       crates/bigtop-server/src/ipam.rs: the address allocator; Ipam/Search is its search
--                     for a free octet, Ipam/Valid the invariant, Ipam/Contract and Ipam/Leases what a
--                     request promises
--   Server/Journal    crates/bigtop-server/src/journal.rs: the journal's operations and its writer;
--                     Journal/File is the file as bytes and its loading, Journal/Lines and
--                     Journal/Crash are about a file that an append left torn
--   Server/State      crates/bigtop-server/src/state.rs: the state, with State/Jobs (validate,
--                     create_job), State/Nodes (register_node, heartbeat), State/Tasks (set_task_state),
--                     State/Snapshots (request_snapshot, report_snapshot_result), State/Logs
--                     (push_logs), State/Views (service_endpoints, task_snapshots); State/Invariant,
--                     Preserves and Submits are about the invariant, State/Reports, Tail and
--                     Listings about reports, logs and listings
--   Server/Scheduler  crates/bigtop-server/src/scheduler.rs: tick and its three steps, with
--                     Scheduler/Pick (pick_node, cmp_load) and Scheduler/Services (services_env_for);
--                     Scheduler/Least, Chosen and Picked are about the choice of a node, Keeps about
--                     the invariant, Load, Recount, Capacity, Accounts, Orphans, Budget and Overcommit
--                     about the resources in use
--   Server/Replay     journal.rs: DurableState, apply_ops and apply_one; Replay/Same says when a
--                     replayed state stands for a live one, the files below it follow the operations,
--                     and Replay/Recovery puts a whole run together
--   Server/Lifecycle  state.rs and scheduler.rs together: what becomes of a task and its
--                     address in any calls (Lifecycle/Calls), with Passes and Placements (the tasks
--                     in the scheduling pass), Owners and Leases (the addresses there), Frames,
--                     Onward and Leasing (each operation), Steady and Room (what fits on the nodes)
--   Server/Shadow     crates/bigtop-server/src/harvest_shadow.rs: the audit's transition table and judge
--                     and, in Shadow/Handle, what the API hands to the audit; Shadow/Audit is the
--                     workflow snapshot_shadow and its activity observe_body, and Shadow/Later and
--                     Shadow/Watched are about it; Shadow/Driver is ShadowDriver with the table of verdicts (track_input,
--                     sweep, record_verdict, drive), with Driver/Reads (tracks, metrics_snapshot);
--                     Driver/Rows, Places, Tracks, Table, Ends, Live and Sweeps are about the table
--   Server/Startup    crates/bigtop-server/src/lib.rs: load_persistent_state, with the lock and
--                     the snapshot of journal.rs, whose compaction is Startup/Compact; Startup/Boot is about a start behind
--                     a crash, which leaves the lock file, Startup/Compaction about a crash in a compaction
--   Server/Serve      crates/bigtop-server/src/lib.rs and auth.rs: ServerConfig, the allocator of
--                     serve_config, maybe_enable_shadow, provision_token_store
--   Server/Api        crates/bigtop-server/src/api.rs: the handlers that change the state or can fail,
--                     Api/Reads those that only read, Api/Verdicts the audit's, Api/Html the status
--                     page; Api/Answers is about status codes, Api/Lists about the lists that agents
--                     poll, Api/Escape, Markup and Page about the markup, Api/Mesh about server and
--                     agent together
--   Server/Metrics    crates/bigtop-server/src/metrics.rs
--   Agent/Shell       the agent's errors, and the commands that it runs on the host
--   Agent/Overlay     crates/bigtop-agent/src/overlay.rs: the VXLAN mesh; Overlay/Sets and
--                     Overlay/Reconcile are about the forwarding entries
--   Agent/Tap         crates/bigtop-agent/src/tap.rs
--   Agent/Jailer      crates/bigtop-agent/src/jailer.rs
--   Agent/Firecracker crates/bigtop-agent/src/firecracker.rs and snapshot.rs: configuration, paths and
--                     bodies, with Firecracker/Cmdline (the kernel's command line),
--                     Firecracker/Machine (the host and the REST calls),
--                     Firecracker/Boot (the stages of a boot), Firecracker/Record (launch_record) and
--                     Firecracker/Spawn (spawn, take_snapshot); Quiet, Grows and Taps are about the TAP
--                     device, Quote and Line about the shell line, Sizes about numbers
--   Agent/Supervise   crates/bigtop-agent/src/lib.rs: how a running task is supervised; Supervise/Batches
--                     is about the lines, Supervise/Ends about the end of a task
--   Agent/Requests    crates/bigtop-agent/src/lib.rs: snapshots, their reports and claims, and what a
--                     poll dispatches
--   Agent/Host        crates/bigtop-agent/src/lib.rs: node_resources, mem_total_mb, local_label
--   Agent/Control     crates/bigtop-agent/src/lib.rs: AgentConfig, build_client, check_ok,
--                     register_with_retry and run_agent up to its loops; Control/Starts is about
--                     registration
--   Agent/Polling     crates/bigtop-agent/src/lib.rs: poll_loop; Polling/Rounds and Polled are about its
--                     rounds
--   Agent/Execution   crates/bigtop-agent/src/lib.rs and runtime.rs: the reports of execute_task, by how
--                     far supervise has come, and the command of ProcessRuntime; Execution/Reported is
--                     about agent and server together
--   Agent/Vsock       crates/bigtop-agent/src/vsock.rs: the log frames, their encoding and decoding, with
--                     Vsock/Hub (the hub and the handler of a connection); Vsock/Frames and Vsock/Served
--                     are about frames and connections
--   Cli               crates/bigtop/src/main.rs: get_json, cmd_run, cmd_logs, cmd_snapshot_create, with
--                     Cli/Table (truncate and the commands that print tables), Cli/Node (cmd_agent) and
--                     Cli/Restore (cmd_snapshot_restore); Cli/Columns is about the tables, Cli/Replies,
--                     Filed and Restored about a restore on a server
--   Tests             concrete runs, on which the theorems are applied
--
-- How the code is read. A function on `&mut StateInner` that may fail is an action of `State.Exec`,
-- from a state to a result and the state behind it; what was changed before an error stays changed. A
-- `HashMap` is a list of entries, in the order in which its iterators run; a text is a native text and
-- an octet, a `u64` or a time a native number, with saturating addition written out. Generated ids and
-- the clock are arguments. The JSON library's `to_string` is the parameter `to_json` of the scheduler.
-- Each append to the journal takes its outcome from the list `disk` of the writer, so that an append
-- may fail at any point. In the writer the journal holds complete lines, one operation each; in
-- Journal/File it is bytes, and the JSON library's `to_vec` and `from_slice` are parameters. In the
-- same way the host's answers to the agent (the outcome of a command, of a step, of a REST call, the
-- clock while it waits) are lists that the calls consume, and so are the outcomes of the statements of
-- the audit's database. A compaction is the list of its calls on files;
-- a file holds what the processes see of it, with what of that a crash may undo or spoil. A shell, which
-- reads the line of `shell_join`, is taken for what POSIX says of letters, digits, underscores, `=`,
-- spaces, single quotes and quotes behind a backslash, and is not sure of any other character outside of
-- quotes. The workflow engine's answers, the replies of the server to the command line
-- and to the agent, and the environment are arguments.
--
-- The invariant `State.Invariant.Inv` says that nodes are filed under their ids, that task ids are
-- unique, that the allocator is valid and that a pending task holds no address. A state `t` stands for a
-- state `s` (`Replay.Same.Same`) when its jobs, tasks, snapshots and addresses are equal, its nodes are
-- equal but for heartbeat time, underlay address and `used`, and it has no journal attached. `Replay.Recovery.Run` is a list of calls
-- that succeeded, `Lifecycle.Calls.Calls` one of any calls, whatever their results.
--
-- Loops are recursion on lists, on a count of tasks, on the polls that an audit has left, or on the 256
-- third octets and 253 host octets of the allocator's search. A loop that waits for events (the driver's,
-- the poll loop, the attempts to register) runs over the list of what it receives. Only the loop over
-- the frames of a connection has fuel, one more than there are bytes; each frame has at least five.
-- Decimal numbers have twenty digits, which every `u64` fits into, and hexadecimal ones thirty-two, which
-- every `u128` fits into.
--
-- Not modelled: routing, decoding and the check of the token in the web framework, the wiring of sockets
-- and timers in serve_config, the audit's workflow engine and the database behind its statements,
-- opening that database and ending its thread, the HTTP clients, the heartbeat loop (it keeps
-- no state), running processes and pumping their pipes, and the flag parser. The mutex is not modelled:
-- every operation runs under it from start to end. The two requests of a round of the poll loop return
-- before the round's tasks do anything.
pub mod Common
pub mod Core
pub mod Server
pub mod Agent
pub mod Cli
pub mod Tests
