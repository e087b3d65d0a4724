-- ===== src/Orchestrator/Compose/Lifecycle.antt =====
-- `up`, `down`, `scale` and `status`.
use mathlib.Core.List.{reverse}
use pycrate.Base.{
  ℕ, zero, suc, Bool, true, false, String, List, [], ◌∷◌, ◌++◌, Option, none, some, map, str_eq,
  if◌then◌else◌, ◌==◌,
}
use pycrate.Base.Dicts.{get, set}
use pycrate.Base.Exec.{Exec, Result, ok, err}
use pycrate.Engine.Config.{ValueError}
use pycrate.Engine.Container.{ContainerError}
use pycrate.Orchestrator.Health.{HealthStatus}
use pycrate.Orchestrator.Manifest.{
  ServiceConfig, Services, get_service, done, raised, exhausted, get_start_order, ManifestError,
}
use pycrate.Orchestrator.Compose.{
  ServiceState, running, ServiceInstance, ComposeEngine, instances_of, put_instances,
  create_instance, stop_instance, pid_of, container_name, health_status,
}
use pycrate.Orchestrator.Compose.Passes.{Swept, stored, is_known}

-- `next(inst for inst in instances if inst.replica_index == i)`
abbrev pub find_replica : ℕ → List ServiceInstance → Option ServiceInstance
find_replica index [] = none
find_replica index (i ∷ is) = if i.replica_index == index then some i else find_replica index is

-- In place of the first with the index, or at the end.
abbrev pub put_replica : ServiceInstance → List ServiceInstance → List ServiceInstance
put_replica new [] = new ∷ []
put_replica new (i ∷ is) =
    if i.replica_index == new.replica_index then new ∷ is else i ∷ put_replica new is

abbrev pub is_running : ServiceState → Bool
is_running running = true
is_running _ = false

abbrev pub running_there : Option ServiceInstance → Bool
running_there none = false
running_there (some i) = is_running i.state

-- `for i in range(index, index + n)` of `_start_service`.
unfoldable pub start_replicas : ServiceConfig → ℕ → ℕ → List ServiceInstance → ComposeEngine → Swept
start_replicas service index zero is e = (ok tt, is, e)
start_replicas service index (suc n) is e =
    let skipped = start_replicas service (suc index) n is e in
    let (result, e') = create_instance service index e in
    if running_there (find_replica index is) then skipped else elim result [
      | err x ↦ (err x, is, e')
      | ok new ↦ start_replicas service (suc index) n (put_replica new is) e'
    ]

unfoldable pub start_service : ServiceConfig → Exec ValueError ComposeEngine Unit
unfolding start_replicas instances_of get set
start_service service e =
    stored service.name (is_known service.name e)
      (start_replicas service 0 service.replicas (instances_of service.name e) e)

pub data ComposeError : Type 0 where
  manifest_error : ManifestError → ComposeError
  value_error : ValueError → ComposeError
  unknown_service : String → ComposeError

-- `self.manifest.services[name]`; a name of the order is there.
unfoldable pub start_each : List String → Exec ComposeError ComposeEngine Unit
unfolding start_service
start_each [] e = (ok tt, e)
start_each (name ∷ names) e = elim (get_service name e.services) [
  | none ↦ (err (unknown_service name), e)
  | some service ↦
      (let (result, e') = start_service service e in
        elim result [ err x ↦ (err (value_error x), e') | ok _ ↦ start_each names e' ])
]

-- `none` means that the fuel of `get_start_order` ran out. Then the loop is started.
unfoldable pub up : ComposeEngine → Option (Result ComposeError Unit × ComposeEngine)
unfolding start_each get_start_order
up e = elim (get_start_order e.services) [
  | exhausted ↦ none
  | raised x ↦ some (err (manifest_error x), e)
  | done w ↦ some (start_each w.order e)
]

unfoldable pub stop_each : List ServiceInstance → ComposeEngine → ComposeEngine
stop_each [] e = e
stop_each (i ∷ is) e = stop_each is (stop_instance i e).1

unfoldable pub stop_service : String → ComposeEngine → ComposeEngine
unfolding stop_each instances_of set
stop_service name e = put_instances name [] (stop_each (instances_of name e) e)

unfoldable pub stop_services : List String → ComposeEngine → ComposeEngine
unfolding stop_service
stop_services [] e = e
stop_services (name ∷ names) e = stop_services names (stop_service name e)

unfoldable pub down : ComposeEngine → Option (Result ComposeError Unit × ComposeEngine)
unfolding stop_services get_start_order
down e = elim (get_start_order e.services) [
  | exhausted ↦ none
  | raised x ↦ some (err (manifest_error x), e)
  | done w ↦ some (ok tt, stop_services (reverse w.order) e)
]

-- The service is the object of the manifest.
abbrev pub set_replicas : String → ℕ → Services → Services
set_replicas name n [] = []
set_replicas name n ((k, s) ∷ rest) =
    if str_eq k name
    then (k, record s { replicas = n }) ∷ rest
    else (k, s) ∷ set_replicas name n rest

unfoldable pub scale : String → ℕ → Exec ComposeError ComposeEngine Unit
scale name replicas e = elim (get_service name e.services) [
  | none ↦ (err (unknown_service name), e)
  | some service ↦ (ok tt, record e { services = set_replicas name replicas e.services })
]

-- A line of `status`.
pub record StatusLine : Type 0 where
  pub service : String
  pub replica : ℕ
  pub container_name : String
  pub container_id : Option String
  pub state : ServiceState
  pub health : HealthStatus
  pub restart_count : ℕ
  pub pid : Option ℕ
  pub image : String
  pub error : Option ContainerError

abbrev pub status_line : ComposeEngine → String → ServiceInstance → StatusLine
status_line e name i = record {
  service = name;
  replica = i.replica_index;
  container_name = container_name i;
  container_id = i.container;
  state = i.state;
  health = health_status i;
  restart_count = i.restart_count;
  pid = elim i.container [ none ↦ none | some id ↦ pid_of id e.manager ];
  image = elim (get_service name e.services) [ none ↦ "" | some service ↦ service.image ];
  error = i.last_error;
}

unfoldable pub status_from : ComposeEngine → List (String × List ServiceInstance) → List StatusLine
status_from e [] = []
status_from e ((name, is) ∷ rest) = map (status_line e name) is ++ status_from e rest

unfoldable pub status : ComposeEngine → List StatusLine
unfolding status_from
status e = status_from e e.instances
