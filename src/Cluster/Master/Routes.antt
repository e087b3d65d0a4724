-- ===== src/Cluster/Master/Routes.antt =====
-- cluster/master.py: the routes of `create_master_app`.
use pycrate.Base.{ℤ, ℕ, String, List, Option}
use pycrate.Cluster.Master.{JoinRequest, HeartbeatRequest, DeployBody, RolloutRequest}
use pycrate.Cluster.Master.Handlers.{
  Handler, join_cluster, remove_node, heartbeat, get_assignments, ack_assignments,
  create_deployment, scale_deployment, delete_deployment, list_deployments, cluster_status,
  list_nodes, list_events, capacity_report, rollout_update, rollout_status,
}

-- One constructor for each route.
pub data Request : Type 0 where
  join : JoinRequest → Request
  leave : String → Request
  beat : HeartbeatRequest → Request
  poll : String → Request
  ack : List String → Request
  deploy : DeployBody → Request
  scale : String → ℤ → Request
  undeploy : String → Request
  deployments nodes status capacity : Request
  events : Option ℕ → Request
  rollout : String → RolloutRequest → Request
  rollout_state : String → Request

unfoldable pub serve : Request → Handler
serve (join r) = join_cluster r
serve (leave n) = remove_node n
serve (beat r) = heartbeat r
serve (poll n) = get_assignments n
serve (ack ids) = ack_assignments ids
serve (deploy b) = create_deployment b
serve (scale n k) = scale_deployment n k
serve (undeploy n) = delete_deployment n
serve Request.deployments = list_deployments
serve Request.nodes = list_nodes
serve Request.status = cluster_status
serve Request.capacity = capacity_report
serve (events k) = list_events k
serve (rollout n r) = rollout_update n r
serve (rollout_state n) = rollout_status n
