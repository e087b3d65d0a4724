-- ===== src/Cluster/Validity/Tables.antt =====
-- The invariant, and what a change of one table asks for.
use pycrate.Base.{◌≡◌, ◌∙◌, Bool, true, String, List, All, All-weaken}
use pycrate.Cluster.Table.{update, Unique, Unique-update, any-update}
use pycrate.Cluster.Types.{ClusterState, NodeInfo, Deployment, ContainerRecord, Assignment}
use pycrate.Cluster.State.{has_node, is_node}

pub record Valid (ns : List NodeInfo) (ds : List Deployment) (cs : List ContainerRecord)
    (az : List Assignment) : Type 0 where
  pub nodes_unique : Unique (λ n. n.node_id) ns
  pub deployments_unique : Unique (λ d. d.deployment_id) ds
  pub services_unique : Unique (λ d. d.service_name) ds
  pub containers_unique : Unique (λ c. c.container_id) cs
  pub assignments_unique : Unique (λ a. a.assignment_id) az
  pub containers_node : All (λ c. has_node c.node_id ns ≡ true) cs
  pub assignments_node : All (λ a. has_node a.node_id ns ≡ true) az

abbrev pub IsValid : ClusterState → Type 0
IsValid s = Valid s.nodes s.deployments s.containers s.assignments

module _ {ns : List NodeInfo} {ds : List Deployment} {cs : List ContainerRecord}
    {az : List Assignment} (v : Valid ns ds cs az) where
  -- A table of nodes that has the keys of the old one.
  pub nodes-Valid :
      (ns' : List NodeInfo)
      → Unique (λ n. n.node_id) ns'
      → ((k : String) → has_node k ns ≡ true → has_node k ns' ≡ true)
      → Valid ns' ds cs az
  nodes-Valid ns' u keep = record {
    nodes_unique = u;
    deployments_unique = v.deployments_unique;
    services_unique = v.services_unique;
    containers_unique = v.containers_unique;
    assignments_unique = v.assignments_unique;
    containers_node = All-weaken _ _ cs (λ c. keep c.node_id) v.containers_node;
    assignments_node = All-weaken _ _ az (λ a. keep a.node_id) v.assignments_node;
  }

  pub update_nodes-Valid :
      (p : NodeInfo → Bool) (f : NodeInfo → NodeInfo)
      → ((n : NodeInfo) → (f n).node_id ≡ n.node_id)
      → Valid (update p f ns) ds cs az
  update_nodes-Valid p f h =
      nodes-Valid _ (Unique-update _ p f ns h v.nodes_unique)
        (λ k e. any-update (is_node k) p f ns (λ n. rw (h n)) ∙ e)

  pub deployments-Valid :
      (ds' : List Deployment)
      → Unique (λ d. d.deployment_id) ds'
      → Unique (λ d. d.service_name) ds'
      → Valid ns ds' cs az
  deployments-Valid ds' u w = record {
    nodes_unique = v.nodes_unique;
    deployments_unique = u;
    services_unique = w;
    containers_unique = v.containers_unique;
    assignments_unique = v.assignments_unique;
    containers_node = v.containers_node;
    assignments_node = v.assignments_node;
  }

  pub containers-Valid :
      (cs' : List ContainerRecord)
      → Unique (λ c. c.container_id) cs'
      → All (λ c. has_node c.node_id ns ≡ true) cs'
      → Valid ns ds cs' az
  containers-Valid cs' u w = record {
    nodes_unique = v.nodes_unique;
    deployments_unique = v.deployments_unique;
    services_unique = v.services_unique;
    containers_unique = u;
    assignments_unique = v.assignments_unique;
    containers_node = w;
    assignments_node = v.assignments_node;
  }

  pub assignments-Valid :
      (az' : List Assignment)
      → Unique (λ a. a.assignment_id) az'
      → All (λ a. has_node a.node_id ns ≡ true) az'
      → Valid ns ds cs az'
  assignments-Valid az' u w = record {
    nodes_unique = v.nodes_unique;
    deployments_unique = v.deployments_unique;
    services_unique = v.services_unique;
    containers_unique = v.containers_unique;
    assignments_unique = u;
    containers_node = v.containers_node;
    assignments_node = w;
  }
