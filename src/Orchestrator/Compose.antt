-- ===== src/Orchestrator/Compose.antt =====
-- orchestrator/compose.py: the instances of the services and the reconciliation with the manifest.
-- An instance holds the id of its container, which stands in the manager's registry; one that is
-- not there has been destroyed and does not run. What the kernel and the clock do at the n-th
-- creation or stop is `outside n`. The checks' threads are in Health: here their callback is
-- `on_health_change`. Every method runs under the lock.
pub mod Passes
pub mod Lifecycle
pub mod Fresh
pub mod Balance
pub mod Restarts
pub mod Kept
pub mod Whole
pub mod Starting
pub mod Upward
pub mod Tests
use Prim.Native.String.{◌++◌ as ◌++ₛ◌}
use pycrate.Base.{
  ℕ, zero, suc, ◌-◌, Bool, true, false, not, ◌&&◌, ◌||◌, String, List, [], ◌∷◌, ◌++◌, Option, none,
  some, map, count, ltb, str_eq, if◌then◌else◌,
}
use pycrate.Base.Decimal.{decimal}
use pycrate.Base.Dicts.{get, set, merge}
use pycrate.Base.Exec.{Exec, Result, ok, err}
use pycrate.Engine.Config.{ContainerConfig, ValueError, post_init}
use pycrate.Engine.Container.{Container, ContainerError, Spawn, Stopping, is_running}
use pycrate.Engine.Container.Manager.{
  ContainerManager, lookup, create_container, start_container, stop_container, remove_container,
}
use pycrate.Orchestrator.Health.{HealthChecker, HealthStatus}
use pycrate.Orchestrator.Manifest.{ServiceConfig, Services, HealthCheckConfig}

pub data ServiceState : Type 0 where
  pending starting running unhealthy stopped restarting error : ServiceState

pub record ServiceInstance : Type 0 where
  pub service_name : String
  pub replica_index : ℕ
  pub container : Option String
  pub health_checker : Option HealthChecker
  pub state : ServiceState
  pub restart_count : ℕ
  pub last_error : Option ContainerError
  pub created_at : ℕ

unfoldable pub container_name : ServiceInstance → String
unfolding decimal
container_name i =
    if ltb 0 i.replica_index
    then (i.service_name ++ₛ "-") ++ₛ decimal i.replica_index
    else i.service_name

abbrev pub health_status : ServiceInstance → HealthStatus
health_status i = elim i.health_checker [
  | none ↦ HealthStatus.none_configured
  | some checker ↦ checker.status
]

pub record Outside : Type 0 where
  pub container_id : String
  pub preparation : Result String Unit
  pub between : ContainerManager → ContainerManager
  pub now : ℕ
  pub spawn : Spawn
  pub how : Stopping

pub record ComposeEngine : Type 0 where
  pub services : Services
  pub manager : ContainerManager
  pub instances : List (String × List ServiceInstance)
  pub outside : ℕ → Outside
  pub calls : ℕ

abbrev pub next : ComposeEngine → Outside
next e = e.outside e.calls

abbrev pub called : ContainerManager → ComposeEngine → ComposeEngine
called m e = record e { manager = m; calls = suc e.calls }

-- `self._instances.get(name, [])`
unfoldable pub instances_of : String → ComposeEngine → List ServiceInstance
unfolding get
instances_of name e = elim (get name e.instances) [ none ↦ [] | some is ↦ is ]

abbrev pub put_instances : String → List ServiceInstance → ComposeEngine → ComposeEngine
put_instances name is e = record e { instances = set name is e.instances }

-- `inst.container.is_running` of an id.
abbrev pub runs : String → ContainerManager → Bool
runs id m = elim (lookup id m.containers) [ none ↦ false | some c ↦ is_running c ]

abbrev pub pid_of : String → ContainerManager → Option ℕ
pid_of id m = elim (lookup id m.containers) [ none ↦ none | some c ↦ c.pid ]

abbrev pub search_path : String
search_path = "/usr/local/sbin:/usr/local/bin:/usr/sbin:/usr/bin:/sbin:/bin"

unfoldable pub env_of : ServiceConfig → ℕ → List (String × String)
unfolding set merge decimal
env_of service index =
    set "PYCRATE_REPLICA" (decimal index)
      (set "PYCRATE_SERVICE" service.name (merge (("PATH", search_path) ∷ []) service.env))

abbrev pub new_instance : ServiceConfig → ℕ → ℕ → ServiceInstance
new_instance service index now = record {
  service_name = service.name;
  replica_index = index;
  container = none;
  health_checker = none;
  state = starting;
  restart_count = 0;
  last_error = none;
  created_at = now;
}

abbrev pub config_of : ServiceConfig → ServiceInstance → String → ContainerConfig
config_of service i id = record {
  name = container_name i;
  command = service.command;
  cpu_limit_percent = service.cpu;
  memory_limit_mb = service.memory;
  env = env_of service i.replica_index;
  hostname = none;
  image = service.image;
  volumes = [];
  security_enabled = true;
  container_id = id;
}

-- The checker of a container that has a pid.
abbrev pub checker_of : Option HealthCheckConfig → Option ℕ → Option HealthChecker
checker_of (some h) (some pid) = some (record {
  exec_cmd = h.exec_cmd;
  http_url = h.http_url;
  tcp_port = h.tcp_port;
  retries = h.retries;
  status = HealthStatus.starting;
  consecutive_failures = 0;
  results = [];
  notified = [];
})
checker_of _ _ = none

abbrev pub failed_with : ContainerError → ServiceInstance → ServiceInstance
failed_with e i = record i { state = error; last_error = some e }

-- The `try` of `_create_instance`.
unfoldable pub bring_up :
    ServiceConfig
    → ContainerConfig
    → Outside
    → ServiceInstance
    → ContainerManager
    → ServiceInstance × ContainerManager
bring_up service config o i m =
    let (made, m') = create_container config o.preparation o.between m in
    let (begun, m'') = start_container config.container_id o.now o.spawn m' in
    elim made [
      | err e ↦ (failed_with e i, m')
      | ok _ ↦ elim begun [
        | err e ↦ (failed_with e i, m'')
        | ok _ ↦ (
          record i {
            container = some config.container_id;
            state = running;
            health_checker = checker_of service.health_check (pid_of config.container_id m'');
          },
          m'',
        )
      ]
    ]

-- The configuration is made outside of the `try`.
unfoldable pub create_instance : ServiceConfig → ℕ → Exec ValueError ComposeEngine ServiceInstance
unfolding bring_up
create_instance service index e =
    let o = next e in
    let i = new_instance service index o.now in
    elim (post_init (config_of service i o.container_id)) [
      | err x ↦ (err x, called e.manager e)
      | ok config ↦ (let (i', m) = bring_up service config o i e.manager in (ok i', called m e))
    ]

-- A checker that is stopped makes no more calls; what the engine raises is only logged.
unfoldable pub stop_instance : ServiceInstance → ComposeEngine → ServiceInstance × ComposeEngine
stop_instance i e = elim i.container [
  | none ↦ (record i { state = stopped }, e)
  | some id ↦
      (let halted = (stop_container id (next e).now (next e).how e.manager).1 in
        let m = if runs id e.manager then halted else e.manager in
        (record i { state = stopped }, called (remove_container id m).1 e))
]

abbrev pub new_state : HealthStatus → ServiceState → ServiceState
new_state HealthStatus.unhealthy old = unhealthy
new_state HealthStatus.healthy old = running
new_state _ old = old

abbrev pub has_container : String → ServiceInstance → Bool
has_container id i = elim i.container [ none ↦ false | some k ↦ str_eq k id ]

-- The first instance with the container, of the first service that has one.
unfoldable pub change_first :
    String → HealthStatus → List ServiceInstance → Bool × List ServiceInstance
change_first id status [] = (false, [])
change_first id status (i ∷ is) =
    let (found, is') = change_first id status is in
    if has_container id i
    then (true, record i { state = new_state status i.state } ∷ is)
    else (found, i ∷ is')

unfoldable pub change_in :
    String
    → HealthStatus
    → List (String × List ServiceInstance)
    → List (String × List ServiceInstance)
unfolding change_first
change_in id status [] = []
change_in id status ((name, is) ∷ rest) =
    let (found, is') = change_first id status is in
    let rest' = change_in id status rest in if found then (name, is') ∷ rest else (name, is) ∷ rest'

unfoldable pub on_health_change : String → HealthStatus → ComposeEngine → ComposeEngine
unfolding change_in
on_health_change id status e = record e { instances = change_in id status e.instances }
