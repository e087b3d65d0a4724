-- ===== src/Cluster/State/Deployments.antt =====
-- The deployments table.
use pycrate.Base.{
  ℕ, Bool, String, List, [], ◌∷◌, ◌++◌, Option, none, some, ltb, sort, str_eq, if◌then◌else◌,
}
use pycrate.Cluster.Table.{update, delete, has}
use pycrate.Cluster.Types.{
  ClusterState, Deployment, StateError, integrity_error, deployed, deployment_removed,
}
use pycrate.Base.Exec.{Exec, Result, ok, err}
use pycrate.Cluster.State.Events.{now, clock_read, add_event}

abbrev pub is_service : String → Deployment → Bool
is_service service_name d = str_eq d.service_name service_name

abbrev pub has_service : String → List Deployment → Bool
has_service = has (λ d. d.service_name)

abbrev pub has_deployment : String → List Deployment → Bool
has_deployment = has (λ d. d.deployment_id)

-- `json.dumps(h) if h else None`
abbrev pub stored_check : Option (List (String × String)) → Option (List (String × String))
stored_check none = none
stored_check (some []) = none
stored_check (some (x ∷ xs)) = some (x ∷ xs)

-- The columns that a conflict sets.
abbrev pub replaced_by : Deployment → Deployment → Deployment
replaced_by dep d = record d {
  image = dep.image;
  command = dep.command;
  replicas = dep.replicas;
  cpu = dep.cpu;
  memory = dep.memory;
  restart = dep.restart;
  env = dep.env;
  health_check = stored_check dep.health_check;
  updated_at = dep.updated_at;
}

-- `INSERT … ON CONFLICT(service_name) DO UPDATE`: the id and `created_at` of a known service stay.
-- A new service whose id is taken breaks the primary key.
unfoldable pub upsert_deployment :
    Deployment → List Deployment → Result StateError (List Deployment)
upsert_deployment dep ds =
    if has_service dep.service_name ds
    then ok (update (is_service dep.service_name) (replaced_by dep) ds)
    else if has_deployment dep.deployment_id ds
    then err integrity_error
    else ok (ds ++ record dep { health_check = stored_check dep.health_check } ∷ [])

unfoldable pub create_deployment : Deployment → Exec StateError ClusterState Deployment
unfolding upsert_deployment add_event
create_deployment dep s = elim (upsert_deployment dep s.deployments) [
  | err e ↦ (err e, s)
  | ok ds ↦ (
    ok dep,
    add_event "deployment.created" (deployed dep.service_name dep.replicas dep.image) "" ""
        (record s { deployments = ds }),
  )
]

abbrev pub find_service : String → List Deployment → Option Deployment
find_service service_name [] = none
find_service service_name (d ∷ ds) =
    if is_service service_name d then some d else find_service service_name ds

unfoldable pub get_deployment : String → ClusterState → Option Deployment
get_deployment service_name s = find_service service_name s.deployments

-- `ORDER BY created_at`
unfoldable pub get_all_deployments : ClusterState → List Deployment
get_all_deployments s = sort (λ a b. ltb a.created_at b.created_at) s.deployments

unfoldable pub delete_deployment : String → ClusterState → ClusterState
unfolding add_event
delete_deployment service_name s =
    add_event "deployment.deleted" (deployment_removed service_name) "" ""
      (record s { deployments = delete (is_service service_name) s.deployments })

unfoldable pub update_replicas : String → ℕ → ClusterState → ClusterState
update_replicas service_name replicas s = record (clock_read s) {
  deployments =
      update (is_service service_name) (λ d. record d { replicas = replicas; updated_at = now s })
        s.deployments;
}
