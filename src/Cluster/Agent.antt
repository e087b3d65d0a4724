-- ===== src/Cluster/Agent.antt =====
-- cluster/agent.py: the worker's agent. It calls the container engine of its host and, over HTTP,
-- the master. What lies outside is an argument: the ids that are drawn, the clock, and the outcomes
-- of the kernel's calls (`Outside`), and what becomes of each HTTP request (`Delivery`). The master
-- sends no `ports`, so no port is ever forwarded: that code is left out.
pub mod Loop
pub mod Pending
pub mod Done
pub mod Joining
pub mod Created
pub mod Counted
pub mod Rows
pub mod Stuck
pub mod Tests
use Prim.Native.String.{◌++◌ as ◌++ₛ◌}
use pycrate.Base.{
  ℕ, suc, ◌+◌, ◌*◌, Bool, true, false, String, List, [], ◌∷◌, Option, none, some, map, str_eq,
  select, if◌then◌else◌,
}
use pycrate.Base.Dicts.{get, set, pop, merge}
use pycrate.Base.Exec.{Exec, Result, ok, err}
use pycrate.Cluster.Types.{Assignment, Action}
use pycrate.Cluster.State.{Reported, Resources}
use pycrate.Engine.Config.{ContainerConfig, ValueError, post_init}
use pycrate.Engine.Container.{
  Container, ContainerStatus, ContainerError, Spawn, Stopping, created, running, stopped, error,
  is_running,
}
use pycrate.Engine.Container.Manager.{
  ContainerManager, create_container as engine_create, start_container,
  stop_container as engine_stop, remove_container, list_containers,
}
use pycrate.Cluster.Master.{JoinRequest, HeartbeatRequest, HttpError}

-- What is drawn and what happens when one assignment is executed. `between` is what the other
-- threads (the monitors) do to the registry meanwhile.
pub record Outside : Type 0 where
  pub suffix : String
  pub container_id : String
  pub preparation : Result String Unit
  pub between : ContainerManager → ContainerManager
  pub now : ℕ
  pub spawn : Spawn
  pub how : Stopping

pub record Agent : Type 0 where
  pub node_id : String
  pub address : String
  pub cpu_total : ℕ
  pub memory_total : ℕ
  pub manager : ContainerManager
  pub deployment_map : List (String × String)
  pub consecutive_failures : ℕ

-- What the executions and the HTTP calls raise.
pub data AgentError : Type 0 where
  value_error : ValueError → AgentError
  container_error : ContainerError → AgentError
  unreachable : AgentError
  http_error : HttpError → AgentError

abbrev pub status_text : ContainerStatus → String
status_text created = "created"
status_text running = "running"
status_text stopped = "stopped"
status_text error = "error"

-- `Container.to_dict`, as far as the master reads it, with the deployment. The text that
-- `isoformat` makes of the start is the time itself here: of times in UTC these texts are equal and
-- ordered as the times are, and nothing else is done with them.
abbrev pub container_data : List (String × String) → Container → Reported
container_data deployment_map c = record {
  container_id = some c.config.container_id;
  deployment_id = get c.config.container_id deployment_map;
  name = some c.config.name;
  service_name = none;
  status = some (status_text c.status);
  pid = c.pid;
  cpu_limit_percent = some c.config.cpu_limit_percent;
  memory_limit_mb = some c.config.memory_limit_mb;
  health = none;
  started_at = c.started_at;
}

abbrev pub cpu_used : List Container → ℕ
cpu_used [] = 0
cpu_used (c ∷ cs) = (if is_running c then c.config.cpu_limit_percent else 0) + cpu_used cs

abbrev pub memory_used : List Container → ℕ
memory_used [] = 0
memory_used (c ∷ cs) = (if is_running c then c.config.memory_limit_mb else 0) + memory_used cs

-- The body that `_send_heartbeat` posts. (The master does not read the two totals.)
unfoldable pub heartbeat_body : Agent → HeartbeatRequest
unfolding list_containers get
heartbeat_body a =
    let cs = list_containers none a.manager in
    record {
      node_id = a.node_id;
      containers = map (container_data a.deployment_map) cs;
      resources = record { cpu_used = some (cpu_used cs); memory_used = some (memory_used cs) };
    }

abbrev pub join_body : Agent → JoinRequest
join_body a = record {
  node_id = a.node_id;
  address = a.address;
  cpu_total = some a.cpu_total;
  memory_total = some a.memory_total;
}

abbrev pub search_path : String
search_path = "/usr/local/sbin:/usr/local/bin:/usr/sbin:/usr/bin:/sbin:/bin"

-- The container's environment.
unfoldable pub env_of : Assignment → String → List (String × String)
unfolding set merge
env_of a node_id = set "PYCRATE_DEPLOYMENT" a.deployment_id (
    set "PYCRATE_SERVICE" a.service_name
      (set "PYCRATE_NODE" node_id (merge (("PATH", search_path) ∷ []) a.env)))

abbrev pub config_of : Assignment → Outside → String → ContainerConfig
config_of a o node_id = record {
  name = (a.service_name ++ₛ "-") ++ₛ o.suffix;
  command = a.command;
  cpu_limit_percent = a.cpu;
  memory_limit_mb = a.memory;
  env = env_of a node_id;
  hostname = none;
  image = a.image;
  volumes = [];
  security_enabled = true;
  container_id = o.container_id;
}

abbrev pub with_manager : ContainerManager → Agent → Agent
with_manager m a = record a { manager = m }

-- The two calls of the engine, and the entry of `_deployment_map`.
unfoldable pub launch : String → ContainerConfig → Outside → Exec AgentError Agent Unit
unfolding set
launch deployment_id config o a =
    let (made, m) = engine_create config o.preparation o.between a.manager in
    let (begun, m') = start_container config.container_id o.now o.spawn m in
    elim made [
      | err e ↦ (err (container_error e), with_manager m a)
      | ok _ ↦ elim begun [
        | err e ↦ (err (container_error e), with_manager m' a)
        | ok _ ↦ (
          ok tt,
          record a {
            manager = m';
            deployment_map = set config.container_id deployment_id a.deployment_map;
          },
        )
      ]
    ]

unfoldable pub create_container : Outside → Assignment → Exec AgentError Agent Unit
create_container o work a = elim (post_init (config_of work o a.node_id)) [
  | err e ↦ (err (value_error e), a)
  | ok config ↦ launch work.deployment_id config o a
]

-- What the engine raises is only logged: the method returns on every path.
unfoldable pub stop_container : Outside → Assignment → Exec AgentError Agent Unit
unfolding pop
stop_container o work a =
    let (halted, m) = engine_stop work.container_id o.now o.how a.manager in
    let (removed, m') = remove_container work.container_id m in
    if str_eq work.container_id "" then (ok tt, a) else elim halted [
      | err e ↦ (ok tt, with_manager m a)
      | ok _ ↦ elim removed [
        | err e ↦ (ok tt, with_manager m' a)
        | ok _ ↦ (
          ok tt,
          record a { manager = m'; deployment_map = pop work.container_id a.deployment_map },
        )
      ]
    ]

unfoldable pub execute_assignment : Outside → Assignment → Exec AgentError Agent Unit
execute_assignment o work a = elim work.action [
  | Action.create ↦ create_container o work a
  | Action.stop ↦ stop_container o work a
]
