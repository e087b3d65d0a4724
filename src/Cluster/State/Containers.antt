-- ===== src/Cluster/State/Containers.antt =====
-- The containers table, which the heartbeats write.
use pycrate.Base.{
  ℕ, Bool, String, List, [], ◌∷◌, ◌++◌, Option, none, some, select, str_eq, ◌&&◌, if◌then◌else◌,
}
use pycrate.Base.Exec.{Exec, Result, ok, err}
use pycrate.Cluster.Table.{update, delete}
use pycrate.Cluster.Types.{
  ClusterState, NodeInfo, healthy, ContainerRecord, is_running, StateError, integrity_error,
}
use pycrate.Cluster.State.Events.{now, clock_read}
use pycrate.Cluster.State.Nodes.{is_node, has_node}

-- A dictionary of a heartbeat's `containers`; `none` is a missing key. The two limits are the keys
-- of its "config".
pub record Reported : Type 0 where
  pub container_id : Option String
  pub deployment_id : Option String
  pub name : Option String
  pub service_name : Option String
  pub status : Option String
  pub pid : Option ℕ
  pub cpu_limit_percent : Option ℕ
  pub memory_limit_mb : Option ℕ
  pub health : Option String
  pub started_at : Option ℕ

pub record Resources : Type 0 where
  pub cpu_used : Option ℕ
  pub memory_used : Option ℕ

-- `d.get(k, default)`
abbrev pub get_or {ℓ} : {A : Type ℓ} → Option A → A → A
get_or none d = d
get_or (some a) d = a

abbrev pub row_of : String → ℕ → Reported → ContainerRecord
row_of node_id at c = record {
  container_id = get_or c.container_id "";
  node_id = node_id;
  deployment_id = get_or c.deployment_id "";
  service_name = get_or c.name (get_or c.service_name "");
  status = get_or c.status "unknown";
  pid = c.pid;
  cpu_used = get_or c.cpu_limit_percent 0;
  memory_used = get_or c.memory_limit_mb 0;
  health = get_or c.health "none";
  started_at = get_or c.started_at 0;
  reported_at = at;
}

abbrev pub is_container : String → ContainerRecord → Bool
is_container container_id c = str_eq c.container_id container_id

-- `INSERT OR REPLACE`: a row with the same id goes, whichever node it is on.
unfoldable pub replace_container : ContainerRecord → List ContainerRecord → List ContainerRecord
replace_container c table = delete (is_container c.container_id) table ++ c ∷ []

-- The loop over the report. A row of a node that is not there breaks the foreign key.
unfoldable pub insert_reported :
    List NodeInfo
    → List ContainerRecord
    → List ContainerRecord
    → Result StateError (List ContainerRecord)
insert_reported ns [] table = ok table
insert_reported ns (c ∷ cs) table =
    let rest = insert_reported ns cs (replace_container c table) in
    if has_node c.node_id ns then rest else err integrity_error

abbrev pub rows_of : String → ℕ → List Reported → List ContainerRecord
rows_of node_id at [] = []
rows_of node_id at (c ∷ cs) = row_of node_id at c ∷ rows_of node_id at cs

abbrev pub on_node : String → ContainerRecord → Bool
on_node node_id c = str_eq c.node_id node_id

abbrev pub refreshed : Resources → ℕ → NodeInfo → NodeInfo
refreshed resources at n = record n {
  status = healthy;
  last_heartbeat = at;
  cpu_used = get_or resources.cpu_used 0;
  memory_used = get_or resources.memory_used 0;
}

-- One transaction: an error rolls all of it back (but the clock has been read).
unfoldable pub update_heartbeat :
    String → List Reported → Resources → Exec StateError ClusterState Unit
unfolding insert_reported replace_container
update_heartbeat node_id containers resources s =
    let nodes' = update (is_node node_id) (refreshed resources (now s)) s.nodes in
    let cleared = delete (on_node node_id) s.containers in
    elim (insert_reported nodes' (rows_of node_id (now s) containers) cleared) [
      | err e ↦ (err e, clock_read s)
      | ok table ↦ (ok tt, record (clock_read s) { nodes = nodes'; containers = table })
    ]

abbrev pub of_deployment : String → ContainerRecord → Bool
of_deployment deployment_id c = str_eq c.deployment_id deployment_id

unfoldable pub get_containers_for_deployment : String → ClusterState → List ContainerRecord
get_containers_for_deployment deployment_id s =
    select (λ c. of_deployment deployment_id c && is_running c) s.containers

unfoldable pub get_containers_for_node : String → ClusterState → List ContainerRecord
get_containers_for_node node_id s = select (on_node node_id) s.containers

unfoldable pub get_all_containers : ClusterState → List ContainerRecord
get_all_containers s = s.containers

unfoldable pub mark_container_lost : String → ClusterState → ClusterState
mark_container_lost container_id s = record s {
  containers = update (is_container container_id) (λ c. record c { status = "lost" }) s.containers;
}
