-- ===== src/Lib.antt =====
-- PyCrate: a container engine, an orchestrator for one host and a cluster manager, in Python.
--
-- The master of a cluster (cluster/master.py) serves HTTP requests of agents and clients from a store
-- in SQLite (cluster/state.py). Every five seconds the reconciler (cluster/reconciler.py) marks the
-- nodes that missed their heartbeat, writes their containers off, compares each deployment's replicas
-- with its running containers and its pending creates, asks the scheduler (cluster/scheduler.py) for
-- nodes, writes assignments, and stops the containers of deployments that are gone. The agent of a
-- node (cluster/agent.py) sends heartbeats with the containers of its engine, polls the assignments,
-- executes them and acknowledges those that did not raise. On each host the engine (engine/) starts
-- containers from a configuration and confines their processes. The orchestrator of one host reads
-- a manifest of services (orchestrator/manifest.py), starts them in the order of their dependencies,
-- checks their health (orchestrator/health.py), and restarts and rescales them
-- (orchestrator/compose.py).
--
-- Files:
--   Base/*                   lists, membership, sorting, tests; Exec: state with errors; Results;
--                            Dicts: dictionaries with text keys; Strings, Splitting, Prefixes,
--                            Numbers and Decimal: `strip`, `split`, `startswith`, `int` and `str`
--   Cluster/Types            the data of cluster/state.py
--   Cluster/State/*          the methods of `ClusterState`, by table (Overview: `get_cluster_summary`)
--   Cluster/Table, Updates   UPDATE, DELETE and unique keys on the rows of a table
--   Cluster/Validity/*       the constraints of the schema as an invariant; Steps: any sequence of calls
--   Cluster/Reports          what a heartbeat does (`update_heartbeat`)
--   Cluster/Floats           Python's floats, a parameter
--   Cluster/Scheduler        `Scheduler`; Choice: what it chooses, and when it fails
--   Cluster/Reconciler       `Reconciler`: `reconcile` with its phases, one turn of `_run_loop`
--     Runs                   a pass as a sequence of calls
--     Assigning, Scaling, Stopping, Capacity, Converge   phase 3
--     Failures, Orphans      phases 1 and 2, and phase 4
--   Cluster/Deploy           cluster/deploy.py: the steps of a batch; Update: `RollingDeployer.update`;
--                            Runs, Counts and Outcome: what it keeps and leaves
--   Cluster/Master           cluster/master.py: bodies and validators; Handlers: one function for each
--                            handler; Routes: `serve`; Turns: requests, passes and rollouts in any
--                            order; Rows; Refusals: errors; Stored: the deploy request
--   Cluster/Agent            cluster/agent.py: executing assignments and the report; Loop: `_register`
--                            and the loop of `run`; Pending and Done: one cycle; Joining; Created, Rows
--                            and Counted: from a creation to the master's count; Stuck
--   Cluster/PortForward      cluster/portforward.py: the rules of an agent's host; Tracking, Removal
--   Engine/Security          engine/security.py: the seccomp program (Filter), the bounding set
--                            (Capabilities)
--   Engine/Config            engine/config.py: `ContainerConfig`
--   Engine/Cgroups           engine/cgroups.py: `CgroupController`; Limits: the memory limit
--   Engine/Volumes           engine/volumes.py: `parse` (Accepted) and the mounts (Mounted)
--   Engine/Networking        engine/networking.py: the commands; Bridge: a set-up that failed
--   Engine/Container         engine/container.py: the status of a `Container`; Life: any interleaving of
--                            its monitor and its callers; Manager and Limit: `ContainerManager`
--   Orchestrator/Health      orchestrator/health.py: the loop of `HealthChecker`
--   Orchestrator/Manifest    orchestrator/manifest.py: validation and `get_start_order`, with
--                            Stack, Visits (one visit), Order, Acyclic and Build
--   Orchestrator/Compose     orchestrator/compose.py: instances; Passes: `_reconcile`; Lifecycle: `up`,
--                            `down` and `scale`; Fresh, Balance, Restarts, Kept and Whole: a pass;
--                            Starting and Upward: `up`
--   */Samples, */Tests       concrete data, and the theorems at it
--
-- How the state corresponds: a table is a list of rows in rowid order; a method is a function on
-- the store, one that can raise returns a result and the store (an error keeps the reads of the
-- clock that came before it). `PRIMARY KEY`, `UNIQUE` and foreign keys raise `integrity_error`.
-- `time.time()` and `secrets.token_hex` are read from `Env`, which the counter `calls` indexes: so
-- each reading is its own, and nothing is assumed of the clock. Times are whole microseconds. Text
-- that is only printed is a constructor over its values. Numbers are natural: a negative one is not
-- represented, and `max(0, a - b)` is the subtraction that stops at 0; the numbers of a request
-- that validators or `range` test are integers; those that nothing tests, a node's totals and a
-- rollout's CPU and memory, are left out below 0. A request is served whole, and its answer may be
-- lost on the way. A dictionary is the list of its entries in the order of insertion.
--
-- Parameters: the floats of the scores (`Floats`, with the laws of `<` without NaN); of the kernel,
-- its BPF machine (`Bpf`), `prctl` (`Prctl`), tables (`Iptables`), control files of cgroups
-- (`Kernel`, `MemoryFile`), mounts (`Host`, `Mounts`, `MountTable`), commands (`Runner`, `Links`)
-- and the outcomes of clone and waitpid; the outcomes of the probes of a health check; what the
-- other threads do in the sleeps of a rolling update and while a container is prepared; for an
-- agent the delivery of each request (`Delivery`), what others do at the master in between, and
-- what one execution meets on the host (`Outside`, as for each instance of the orchestrator).
-- `IsFresh` says that the random ids still to be drawn are new; where an id is taken, the methods
-- raise, which the invariant covers too. Threads are sequences of calls of the store, each taken as
-- a whole.
--
-- Fuel: `visit` of the start order recurses at most once for each service that is not on its stack,
-- so a depth of one more than the number of services is enough. The batches of a rolling update are
-- at most as many as its containers, and its wait polls at most forty times. `decimal` writes a
-- number with a fuel of one more than it, which bounds its digits. All other loops are over lists
-- or a count.
--
-- Not modelled: SQLite files and connections, the transport of HTTP, api/, the command line (cli/),
-- virtual machines (machine/), the dashboard, what an agent finds out about its host and the rules
-- that it would set for ports (no assignment that is polled has any), the parsing of YAML in
-- orchestrator/manifest.py, the system calls of the engine (the child's part of
-- engine/container.py, engine/namespaces.py, engine/syscalls.py, the writes of
-- `ensure_pycrate_cgroup`) and its files (engine/images.py, engine/rootfs.py, engine/overlay.py,
-- engine/metrics.py). Logging, signals, threads and the waiting between two turns of a loop are
-- left out everywhere.
pub mod Base
pub mod Cluster
pub mod Engine
pub mod Orchestrator
