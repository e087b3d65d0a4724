-- ===== src/Cluster/State/Overview.antt =====
-- `get_cluster_summary`. The texts "used/total" are kept as the pair of their numbers.
use pycrate.Base.{ℕ, not, ◌&&◌, String, List, map, count, length}
use pycrate.Cluster.Types.{
  ClusterState, NodeInfo, Role, NodeStatus, is_healthy, Deployment, ContainerRecord, is_running,
}
use pycrate.Cluster.State.Nodes.{get_all_nodes}
use pycrate.Cluster.State.Deployments.{get_all_deployments}
use pycrate.Cluster.State.Containers.{get_all_containers, of_deployment}

pub record NodeLine : Type 0 where
  pub node_id : String
  pub address : String
  pub role : Role
  pub status : NodeStatus
  pub cpu : ℕ × ℕ
  pub memory : ℕ × ℕ
  pub last_heartbeat : ℕ

pub record DeploymentLine : Type 0 where
  pub service : String
  pub image : String
  pub replicas : ℕ
  pub running : ℕ

pub record Summary : Type 0 where
  pub nodes_total : ℕ
  pub nodes_healthy : ℕ
  pub nodes_unhealthy : ℕ
  pub nodes : List NodeLine
  pub deployments_total : ℕ
  pub deployments : List DeploymentLine
  pub containers_total : ℕ
  pub containers_running : ℕ
  pub containers_stopped : ℕ

abbrev pub node_line : NodeInfo → NodeLine
node_line n = record {
  node_id = n.node_id;
  address = n.address;
  role = n.role;
  status = n.status;
  cpu = (n.cpu_used, n.cpu_total);
  memory = (n.memory_used, n.memory_total);
  last_heartbeat = n.last_heartbeat;
}

abbrev pub deployment_line : List ContainerRecord → Deployment → DeploymentLine
deployment_line containers d = record {
  service = d.service_name;
  image = d.image;
  replicas = d.replicas;
  running = count (λ c. of_deployment d.deployment_id c && is_running c) containers;
}

unfoldable pub get_cluster_summary : ClusterState → Summary
unfolding get_all_nodes get_all_deployments get_all_containers
get_cluster_summary s =
    let nodes = get_all_nodes s in
    let deployments = get_all_deployments s in
    let containers = get_all_containers s in
    record {
      nodes_total = length nodes;
      nodes_healthy = count is_healthy nodes;
      nodes_unhealthy = count (λ n. not (is_healthy n)) nodes;
      nodes = map node_line nodes;
      deployments_total = length deployments;
      deployments = map (deployment_line containers) deployments;
      containers_total = length containers;
      containers_running = count is_running containers;
      containers_stopped = count (λ c. not (is_running c)) containers;
    }
