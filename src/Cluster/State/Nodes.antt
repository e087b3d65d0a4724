-- ===== src/Cluster/State/Nodes.antt =====
-- The nodes table. (The heartbeat, which writes the containers too, is in Containers.)
use pycrate.Base.{
  ℕ, ◌+◌, ◌-◌, ◌*◌, Bool, true, false, String, List, [], ◌∷◌, ◌++◌, Option, none, some, map, ◌&&◌,
  ltb, sort, select, str_eq, if◌then◌else◌,
}
use pycrate.Cluster.Table.{update, delete, has}
use pycrate.Cluster.Types.{
  ClusterState, NodeInfo, Role, master, worker, healthy, unhealthy, is_healthy, joined,
  missed_heartbeat, second, node_timeout_seconds,
}
use pycrate.Cluster.State.Events.{now, clock_read, add_event}

abbrev pub is_node : String → NodeInfo → Bool
is_node node_id n = str_eq n.node_id node_id

abbrev pub has_node : String → List NodeInfo → Bool
has_node = has (λ n. n.node_id)

abbrev pub find_node : String → List NodeInfo → Option NodeInfo
find_node node_id [] = none
find_node node_id (n ∷ ns) = if is_node node_id n then some n else find_node node_id ns

unfoldable pub get_node : String → ClusterState → Option NodeInfo
get_node node_id s = find_node node_id s.nodes

-- `INSERT … ON CONFLICT(node_id) DO UPDATE`: the role, the use and `joined_at` of a known node stay.
unfoldable pub upsert_node : NodeInfo → List NodeInfo → List NodeInfo
upsert_node new ns =
    if has_node new.node_id ns
    then update (is_node new.node_id)
        (λ n. record n {
          address = new.address;
          status = healthy;
          cpu_total = new.cpu_total;
          memory_total = new.memory_total;
          last_heartbeat = new.last_heartbeat;
        })
        ns
    else ns ++ new ∷ []

unfoldable pub register_node :
    String → String → Role → ℕ → ℕ → ClusterState → ClusterState × Option NodeInfo
unfolding upsert_node add_event get_node
register_node node_id address role cpu_total memory_total s =
    let new : NodeInfo = record {
      node_id = node_id;
      address = address;
      role = role;
      status = healthy;
      cpu_total = cpu_total;
      cpu_used = 0;
      memory_total = memory_total;
      memory_used = 0;
      last_heartbeat = now s;
      joined_at = now s;
    } in
    let s' = record (clock_read s) { nodes = upsert_node new s.nodes } in
    let s'' = add_event "node.joined" (joined node_id role) node_id "" s' in
    (s'', get_node node_id s'')

-- `ORDER BY joined_at`
unfoldable pub get_all_nodes : ClusterState → List NodeInfo
get_all_nodes s = sort (λ a b. ltb a.joined_at b.joined_at) s.nodes

unfoldable pub get_healthy_nodes : ClusterState → List NodeInfo
get_healthy_nodes s = select is_healthy (get_all_nodes s)

unfoldable pub mark_node_unhealthy : String → ClusterState → ClusterState
mark_node_unhealthy node_id s =
    add_event "node.unhealthy" (missed_heartbeat node_id) node_id ""
      (record s { nodes = update (is_node node_id) (λ n. record n { status = unhealthy }) s.nodes })

unfoldable pub remove_node : String → ClusterState → ClusterState
remove_node node_id s = record s {
  assignments = delete (λ a. str_eq a.node_id node_id) s.assignments;
  containers = delete (λ c. str_eq c.node_id node_id) s.containers;
  nodes = delete (is_node node_id) s.nodes;
}

unfoldable pub mark_all_unhealthy : List String → ClusterState → ClusterState
mark_all_unhealthy [] s = s
mark_all_unhealthy (nid ∷ rest) s = mark_all_unhealthy rest (mark_node_unhealthy nid s)

abbrev pub timed_out : ℕ → NodeInfo → Bool
timed_out cutoff n = is_healthy n && ltb n.last_heartbeat cutoff

unfoldable pub check_node_health : ClusterState → ClusterState × List String
unfolding mark_all_unhealthy
check_node_health s =
    let cutoff = now s - node_timeout_seconds * second in
    let ids = map (λ n. n.node_id) (select (timed_out cutoff) s.nodes) in
    (mark_all_unhealthy ids (clock_read s), ids)

unfoldable pub reserve_resources : String → ℕ → ℕ → ClusterState → ClusterState
reserve_resources node_id cpu memory s = record s {
  nodes =
      update (is_node node_id)
        (λ n. record n { cpu_used = n.cpu_used + cpu; memory_used = n.memory_used + memory })
        s.nodes;
}

abbrev pub is_master : NodeInfo → Bool
is_master n = elim n.role [ master ↦ true | worker ↦ false ]

unfoldable pub update_master_heartbeat : String → ClusterState → ClusterState
update_master_heartbeat node_id s = record (clock_read s) {
  nodes =
      update (λ n. is_node node_id n && is_master n) (λ n. record n { last_heartbeat = now s })
        s.nodes;
}
