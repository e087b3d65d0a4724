-- ===== src/Orchestrator/Manifest.antt =====
-- orchestrator/manifest.py: the service records, their validation and the start order. Reading the
-- YAML file is not modelled.
pub mod Stack
pub mod Visits
pub mod Order
pub mod Acyclic
pub mod Build
use pycrate.Base.{
  ℕ, zero, suc, ◌+◌, ◌≤◌, ◌<◌, ◌≡◌, Bool, true, false, not, ◌&&◌, ◌||◌, String, List, [], ◌∷◌, ◌++◌,
  Option, none, some, map, any, select, length, ltb, ◌==◌, str_eq, if◌then◌else◌,
}
use pycrate.Base.Exec.{Result, ok, err}
use pycrate.Cluster.Table.{delete}

pub data ManifestError : Type 0 where
  empty_name no_services : ManifestError
  bad_cpu bad_memory bad_replicas : String → ℕ → ManifestError
  bad_restart : String → String → ManifestError
  circular unknown_service : String → ManifestError
  unknown_dependency : String → String → ManifestError
  unsupported_version : ℕ → ManifestError

pub record HealthCheckConfig : Type 0 where
  pub exec_cmd : String
  pub http_url : String
  pub tcp_port : ℕ
  pub interval : ℕ
  pub timeout : ℕ
  pub retries : ℕ
  pub start_period : ℕ

pub record PortMapping : Type 0 where
  pub host_port : ℕ
  pub container_port : ℕ
  pub protocol : String

pub record ServiceConfig : Type 0 where
  pub name : String
  pub image : String
  pub command : List String
  pub cpu : ℕ
  pub memory : ℕ
  pub env : List (String × String)
  pub ports : List PortMapping
  pub restart : String
  pub depends_on : List String
  pub health_check : Option HealthCheckConfig
  pub replicas : ℕ

unfoldable pub validate : ServiceConfig → Result ManifestError Unit
validate s =
    if str_eq s.name ""
    then err empty_name
    else if ltb s.cpu 1 || ltb 100 s.cpu
    then err (bad_cpu s.name s.cpu)
    else if ltb s.memory 4
    then err (bad_memory s.name s.memory)
    else if not
        (str_eq s.restart "no" || (str_eq s.restart "always" || str_eq s.restart "on-failure"))
    then err (bad_restart s.name s.restart)
    else if ltb s.replicas 1
    then err (bad_replicas s.name s.replicas)
    else ok tt

-- A dictionary in insertion order.
abbrev pub Services : Type 0
Services = List (String × ServiceConfig)

abbrev pub get_service : String → Services → Option ServiceConfig
get_service name [] = none
get_service name ((k, s) ∷ rest) = if str_eq k name then some s else get_service name rest

abbrev pub names : Services → List String
names services = map (λ e. e.0) services

abbrev pub mem : String → List String → Bool
mem name xs = any (λ x. str_eq x name) xs

-- The variables that the nested `visit` shares. `visited` holds the last one first.
pub record Walk : Type 0 where
  pub visited : List String
  pub order : List String
  pub visiting : List String

-- `exhausted` is no outcome of the program: it means that the fuel ran out.
pub data Outcome : Type 0 where
  done : Walk → Outcome
  raised : ManifestError → Outcome
  exhausted : Outcome

-- `for dep in …: visit(dep)`
unfoldable pub visit_each : (String → Walk → Outcome) → List String → Walk → Outcome
visit_each visit [] w = done w
visit_each visit (dep ∷ deps) w = elim (visit dep w) [
  | done w' ↦ visit_each visit deps w'
  | raised e ↦ raised e
  | exhausted ↦ exhausted
]

-- `visiting.discard(name); visited.add(name); order.append(name)`
abbrev pub leave : String → Walk → Walk
leave name w = record {
  visited = name ∷ w.visited;
  order = w.order ++ name ∷ [];
  visiting = delete (λ x. str_eq x name) w.visiting;
}

abbrev pub leave_outcome : String → Outcome → Outcome
leave_outcome name (done w) = done (leave name w)
leave_outcome name (raised e) = raised e
leave_outcome name exhausted = exhausted

abbrev pub empty_walk : Walk
empty_walk = record { visited = []; order = []; visiting = [] }

module _ (services : Services) where
  -- The visit of a service that is in neither set.
  unfoldable pub enter : (String → Walk → Outcome) → String → Option ServiceConfig → Walk → Outcome
  unfolding visit_each
  enter visit name none w = raised (unknown_service name)
  enter visit name (some service) w =
      leave_outcome name
        (visit_each visit service.depends_on (record w { visiting = name ∷ w.visiting }))

  -- The fuel bounds the depth of the recursion.
  unfoldable pub visit : ℕ → String → Walk → Outcome
  unfolding enter
  visit zero name w = exhausted
  visit (suc fuel) name w =
      let go_on = enter (visit fuel) name (get_service name services) w in
      if mem name w.visited
      then done w
      else if mem name w.visiting
      then raised (circular name)
      else go_on

  unfoldable pub get_start_order : Outcome
  unfolding visit
  get_start_order = visit_each (visit (suc (length services))) (names services) empty_walk

-- The loop over the references of one service, and over all services.
unfoldable pub check_dependencies : Services → String → List String → Result ManifestError Unit
check_dependencies services name [] = ok tt
check_dependencies services name (dep ∷ deps) =
    if mem dep (names services)
    then check_dependencies services name deps
    else err (unknown_dependency name dep)

unfoldable pub check_references : Services → Services → Result ManifestError Unit
check_references services [] = ok tt
check_references services ((name, s) ∷ rest) =
    elim (check_dependencies services name s.depends_on) [
      | ok _ ↦ check_references services rest
      | err e ↦ err e
    ]

unfoldable pub validate_all : Services → Result ManifestError Unit
validate_all [] = ok tt
validate_all ((name, s) ∷ rest) = elim (validate s) [ ok _ ↦ validate_all rest | err e ↦ err e ]

-- `_build_manifest`, after the services have been parsed. `none` means that the fuel ran out.
unfoldable pub build_manifest : ℕ → Services → Option (Result ManifestError Services)
build_manifest version services =
    if not (version == 1)
    then some (err (unsupported_version version))
    else if length services == 0
    then some (err no_services)
    else elim (check_references services services) [
      | err e ↦ some (err e)
      | ok _ ↦ elim (validate_all services) [
        | err e ↦ some (err e)
        | ok _ ↦ elim (get_start_order services) [
          | done w ↦ some (ok services)
          | raised e ↦ some (err e)
          | exhausted ↦ none
        ]
      ]
    ]
