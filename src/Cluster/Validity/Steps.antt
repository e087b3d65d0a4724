-- ===== src/Cluster/Validity/Steps.antt =====
-- The store under any sequence of its methods, in whatever order the threads of the master (the
-- HTTP handlers, the reconciler, the rollouts) call them.
use pycrate.Base.{ℕ, String, List, []}
use pycrate.Cluster.Types.{ClusterState, Env, Role, Deployment, Work, Message}
use pycrate.Cluster.State.{
  clock_read, add_event, cleanup_old_events, register_node, mark_node_unhealthy, remove_node,
  reserve_resources, update_master_heartbeat, create_deployment, delete_deployment, update_replicas,
  Reported, Resources, update_heartbeat, mark_container_lost, create_assignment,
  acknowledge_assignment, clear_old_assignments,
}
use pycrate.Cluster.Validity.Tables.{IsValid}
use pycrate.Cluster.Validity.Methods.{
  register_node-IsValid, mark_node_unhealthy-IsValid, remove_node-IsValid,
  reserve_resources-IsValid, update_master_heartbeat-IsValid, create_deployment-IsValid,
  delete_deployment-IsValid, update_replicas-IsValid, update_heartbeat-IsValid,
  mark_container_lost-IsValid, create_assignment-IsValid, acknowledge_assignment-IsValid,
  clear_old_assignments-IsValid,
}

-- A call of one method. The calls that raise are steps too.
pub data Step (s : ClusterState) : ClusterState → Type 0 where
  reads_clock : Step s (clock_read s)
  adds_event : (t : String) (m : Message) (n c : String) → Step s (add_event t m n c s)
  cleans_events : Step s (cleanup_old_events s)
  registers :
      (node address : String) (role : Role) (cpu memory : ℕ)
      → Step s (register_node node address role cpu memory s).0
  marks_unhealthy : (node : String) → Step s (mark_node_unhealthy node s)
  removes : (node : String) → Step s (remove_node node s)
  reserves : (node : String) (cpu memory : ℕ) → Step s (reserve_resources node cpu memory s)
  beats_master : (node : String) → Step s (update_master_heartbeat node s)
  beats :
      (node : String) (cs : List Reported) (r : Resources) → Step s (update_heartbeat node cs r s).1
  deploys : (d : Deployment) → Step s (create_deployment d s).1
  undeploys : (service : String) → Step s (delete_deployment service s)
  scales : (service : String) (n : ℕ) → Step s (update_replicas service n s)
  loses : (container : String) → Step s (mark_container_lost container s)
  assigns : (w : Work) → Step s (create_assignment w s).1
  acknowledges : (id : String) → Step s (acknowledge_assignment id s)
  clears : Step s (clear_old_assignments s)

pub data Reach (s : ClusterState) : ClusterState → Type 0 where
  here : Reach s s
  next : {t u : ClusterState} → Reach s t → Step t u → Reach s u

-- The store that `_init_schema` makes.
abbrev pub initial : Env → ClusterState
initial env = record {
  nodes = [];
  deployments = [];
  containers = [];
  assignments = [];
  events = [];
  env = env;
  calls = 0;
}

Step-IsValid : {s t : ClusterState} → Step s t → IsValid s → IsValid t
unfolding add_event cleanup_old_events
Step-IsValid reads_clock v = v
Step-IsValid (adds_event t m n c) v = v
Step-IsValid cleans_events v = v
Step-IsValid (registers a b c d e) v = register_node-IsValid a b c d e _ v
Step-IsValid (marks_unhealthy n) v = mark_node_unhealthy-IsValid n _ v
Step-IsValid (removes n) v = remove_node-IsValid n _ v
Step-IsValid (reserves n c m) v = reserve_resources-IsValid n c m _ v
Step-IsValid (beats_master n) v = update_master_heartbeat-IsValid n _ v
Step-IsValid (beats n cs r) v = update_heartbeat-IsValid n cs r _ v
Step-IsValid (deploys d) v = create_deployment-IsValid d _ v
Step-IsValid (undeploys n) v = delete_deployment-IsValid n _ v
Step-IsValid (scales n k) v = update_replicas-IsValid n k _ v
Step-IsValid (loses c) v = mark_container_lost-IsValid c _ v
Step-IsValid (assigns w) v = create_assignment-IsValid w _ v
Step-IsValid (acknowledges a) v = acknowledge_assignment-IsValid a _ v
Step-IsValid clears v = clear_old_assignments-IsValid _ v

pub Reach-trans : {s t u : ClusterState} → Reach s t → Reach t u → Reach s u
Reach-trans r here = r
Reach-trans r (next q st) = next (Reach-trans r q) st

pub Reach-IsValid : {s t : ClusterState} → Reach s t → IsValid s → IsValid t
Reach-IsValid here v = v
Reach-IsValid (next r st) v = Step-IsValid st (Reach-IsValid r v)

-- From the empty store, any sequence of calls, those that raise included, leads to tables in which
-- every primary key and service name is unique, and every container and assignment names a node
-- that is there.
pub init-Reach-IsValid : (env : Env) {s : ClusterState} → Reach (initial env) s → IsValid s
init-Reach-IsValid env r = Reach-IsValid r (record {
  nodes_unique = tt;
  deployments_unique = tt;
  services_unique = tt;
  containers_unique = tt;
  assignments_unique = tt;
  containers_node = tt;
  assignments_node = tt;
})
