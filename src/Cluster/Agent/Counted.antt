-- ===== src/Cluster/Agent/Counted.antt =====
-- The row that the heartbeat after a creation writes.
use pycrate.Base.{
  ℕ, ◌≡◌, sym, ap, subst, ◌∙◌, inl, inr, Bool, true, ◌&&◌, String, some, any, arith, eq_iff,
  eq_refl, str_eq, map,
}
use pycrate.Base.Dicts.{get, get-set_self}
use pycrate.Base.Exec.{ok}
use pycrate.Cluster.Types.{ClusterState, NodeInfo, ContainerRecord, Assignment, is_running as runs}
use pycrate.Cluster.State.{
  get_node, get_or, is_container, row_of, now, Resources, update_heartbeat, on_node, of_deployment,
}
use pycrate.Cluster.Validity.{Result-cases}
use pycrate.Engine.Config.{ContainerConfig, post_init}
use pycrate.Engine.Container.{Container}
use pycrate.Engine.Container.Manager.{list_containers, list_containers, put}
use pycrate.Cluster.Master.{Master, state, HeartbeatRequest}
use pycrate.Cluster.Master.Handlers.{heartbeat}
use pycrate.Cluster.Master.Rows.{has_of-get_node}
use pycrate.Cluster.Reports.{update_heartbeat-Heard}
use pycrate.Cluster.Agent.{
  heartbeat_body, Agent, Outside, launch, create_container, config_of, container_data, status_text,
}
use pycrate.Cluster.Agent.Created.{Live, live, launch-Live, Kept, Only, Only-put, any-put}
use pycrate.Cluster.Agent.Rows.{
  any-rows_of, All-rows_of, any-insert_reported, post_init-container_id, update_heartbeat-inserted,
}

-- A row of a container of the deployment that runs on the node.
abbrev pub at_work : String → String → String → ContainerRecord → Bool
at_work node deployment id r =
    is_container id r && (on_node node r && (of_deployment deployment r && runs r))

module _ (deployment : String) (config : ContainerConfig) (o : Outside) (a b : Agent)
    (l : Live config.container_id deployment config o a b) (node : String) where
  abbrev is_live : Container → Bool
  is_live c =
      str_eq c.config.container_id config.container_id && str_eq (status_text c.status) "running"

  row-at_work :
      (at : ℕ) (c : Container)
      → is_live c ≡ true
      → at_work node deployment config.container_id
          (row_of node at (container_data b.deployment_map c))
        ≡ true
  row-at_work at c e =
      let same : c.config.container_id ≡ config.container_id =
        ground (arith, e, eq_iff c.config.container_id config.container_id) in
      let mapped : get_or (get c.config.container_id b.deployment_map) "" ≡ deployment =
        ap (λ i. get_or (get i b.deployment_map) "") same
        ∙ ap (λ d. get_or (get config.container_id d) "") l.mapped
        ∙ ap (λ d. get_or d "") (get-set_self config.container_id deployment a.deployment_map) in
      ground (
        arith,
        e,
        eq_refl node,
        (eq_iff (get_or (get c.config.container_id b.deployment_map) "") deployment).1 mapped,
      )

  reported-at_work :
      (res : Resources) (s : ClusterState)
      → Kept (o.between a.manager).containers
      → (update_heartbeat node
          (map (container_data b.deployment_map) (map (λ e. e.1) b.manager.containers))
          res
          s).0
        ≡ ok tt
      → any
          (at_work node deployment config.container_id)
          (update_heartbeat node
            (map (container_data b.deployment_map) (map (λ e. e.1) b.manager.containers))
            res
            s).1.containers
        ≡ true
  reported-at_work res s k h =
      let id = config.container_id in
      let alive : is_live (live config o.now l.pid) ≡ true = ground (arith, eq_refl id) in
      let cs = put id (live config o.now l.pid) (o.between a.manager).containers in
      let p = at_work node deployment id in
      any-insert_reported p id (λ r e. ground arith) _ _ _ _
        (All-rows_of p is_live id node (now s) b.deployment_map (row-at_work (now s))
          b.manager.containers
          (subst (Only is_live id) (sym l.registry)
            (Only-put is_live id (live config o.now l.pid) _ alive k)))
        (ground (
          arith,
          any-rows_of p is_live id node (now s) b.deployment_map (row-at_work (now s))
              b.manager.containers
              (subst (λ x. any (λ e. is_live e.1) x ≡ true) (sym l.registry)
                (any-put is_live id (live config o.now l.pid) _ alive)),
        ))
        (update_heartbeat-inserted node _ res s h)

heartbeat-containers :
    (r : HeartbeatRequest) (m : Master) (x : NodeInfo)
    → get_node r.node_id (state m) ≡ some x
    → ((update_heartbeat r.node_id r.containers r.resources (state m)).0 ≡ ok tt)
      × ((state (heartbeat r m).1).containers
          ≡ (update_heartbeat r.node_id r.containers r.resources (state m)).1.containers)
unfolding heartbeat
heartbeat-containers r m x h =
    let heard =
      update_heartbeat-Heard r.node_id r.containers r.resources (state m)
        (has_of-get_node r.node_id (state m) x h) in
    (heard.returns, rw (h, heard.returns, heartbeat))

create_container-Live :
    (o : Outside) (work : Assignment) (a : Agent)
    → (create_container o work a).0 ≡ ok tt
    → (config : ContainerConfig) × ((config.container_id ≡ o.container_id)
        × Live config.container_id work.deployment_id config o a (create_container o work a).1)
unfolding create_container
create_container-Live o work a h = elim (Result-cases (post_init (config_of work o a.node_id))) [
  | inr (u, e) ↦ absurd (cc (rw (e, create_container) at h))
  | inl (config, e) ↦
      (let launched : (launch work.deployment_id config o a).0 ≡ ok tt =
          rw (e, create_container) at h in
        (
          config,
          (
            post_init-container_id (config_of work o a.node_id) config e,
            rw (e, create_container) (launch-Live work.deployment_id config o a launched),
          ),
        ))
]

-- A creation that returns, in a registry in which every container stands once and under its id, and
-- then a heartbeat to a master that has a row of the agent's node: after it, the master counts a
-- running container of the assignment's deployment on the node, under the id that was drawn.
pub create_container-heartbeat :
    (o : Outside) (work : Assignment) (a : Agent) (m : Master) (x : NodeInfo)
    → Kept (o.between a.manager).containers
    → (create_container o work a).0 ≡ ok tt
    → get_node a.node_id (state m) ≡ some x
    → any
        (at_work a.node_id work.deployment_id o.container_id)
        (state (heartbeat (heartbeat_body (create_container o work a).1) m).1).containers
      ≡ true
unfolding heartbeat_body list_containers
create_container-heartbeat o work a m x k h known =
    let (config, (same, l)) = create_container-Live o work a h in
    let b = (create_container o work a).1 in
    let there : get_node b.node_id (state m) ≡ some x =
      ap (λ n. get_node n (state m)) l.node ∙ known in
    let (returned, table) = heartbeat-containers (heartbeat_body b) m x there in
    let res = (heartbeat_body b).resources in
    let after =
      (update_heartbeat b.node_id (heartbeat_body b).containers res (state m)).1.containers in
    let counted =
      reported-at_work work.deployment_id config o a b l b.node_id res (state m) k returned in
    ap (any (at_work a.node_id work.deployment_id o.container_id)) table
    ∙ subst (λ n. any (at_work n work.deployment_id o.container_id) after ≡ true) l.node
        (subst (λ i. any (at_work b.node_id work.deployment_id i) after ≡ true) same counted)
