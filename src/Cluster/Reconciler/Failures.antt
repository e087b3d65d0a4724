-- ===== src/Cluster/Reconciler/Failures.antt =====
-- Phases 1 and 2 of a pass: the nodes that missed their heartbeat, and the containers on them.
use pycrate.Base.{
  ℕ, ◌-◌, ◌*◌, ◌≡◌, refl, sym, ◌∙◌, ap, Bool, ◌&&◌, String, List, [], ◌∷◌, arith, str_eq, any,
  any-cong, All-every, All-weaken, Bool-cases, subst, inl, inr, select, map, any-select, any-map,
}
use pycrate.Cluster.Table.{update, Unique, Unique-update}
use pycrate.Cluster.Updates.{update-update, update-cong, update-none, any_key-Unique}
use pycrate.Cluster.Types.{
  ClusterState, NodeInfo, unhealthy, ContainerRecord, second, node_timeout_seconds,
}
use pycrate.Cluster.State.{
  add_event, now, clock_read, is_node, timed_out, mark_node_unhealthy, mark_all_unhealthy,
  check_node_health, on_node, is_container, get_containers_for_node, mark_container_lost,
}
use pycrate.Cluster.Reconciler.{is_live, lose_all, handle_node_failures}

abbrev pub marked : NodeInfo → NodeInfo
marked n = record n { status = unhealthy }

nodes-mark_all :
    (ids : List String) (s : ClusterState)
    → (mark_all_unhealthy ids s).nodes
      ≡ update (λ n. any (λ i. str_eq n.node_id i) ids) marked s.nodes
unfolding mark_all_unhealthy mark_node_unhealthy add_event
nodes-mark_all [] s = sym (update-none marked s.nodes)
nodes-mark_all (id ∷ ids) s =
    nodes-mark_all ids (mark_node_unhealthy id s)
    ∙ update-update _ (is_node id) marked s.nodes (λ n. refl)
    ∙ update-cong _ _ marked s.nodes (All-every _ s.nodes (λ n. ground arith))

-- The time before which a heartbeat is too old.
abbrev pub cutoff : ClusterState → ℕ
cutoff s = now s - node_timeout_seconds * second

-- Where node ids are unique, `check_node_health` marks unhealthy exactly the healthy nodes whose
-- last heartbeat is more than thirty seconds old, and returns their ids in the table's order.
pub check_node_health_lem :
    (s : ClusterState)
    → Unique (λ n. n.node_id) s.nodes
    → ((check_node_health s).0.nodes ≡ update (timed_out (cutoff s)) marked s.nodes)
      × ((check_node_health s).1 ≡ map (λ n. n.node_id) (select (timed_out (cutoff s)) s.nodes))
unfolding check_node_health
check_node_health_lem s u = (
  nodes-mark_all (check_node_health s).1 (clock_read s)
      ∙ update-cong _ _ marked s.nodes (
          All-weaken _ _ s.nodes
            (λ n h.
              any-map (str_eq n.node_id) (λ m. m.node_id) _
              ∙ any-select _ (timed_out (cutoff s)) s.nodes
              ∙ h)
            (any_key-Unique (λ n. n.node_id) (timed_out (cutoff s)) s.nodes u)),
  refl,
)

abbrev pub lost : ContainerRecord → ContainerRecord
lost c = record c { status = "lost" }

containers-lose_all :
    (node : String) (cs : List ContainerRecord) (s : ClusterState)
    → (lose_all node cs s).containers
      ≡ update
          (λ c. any (λ x. is_live x && str_eq c.container_id x.container_id) cs)
          lost
          s.containers
unfolding lose_all mark_container_lost add_event
containers-lose_all node [] s = sym (update-none lost s.containers)
containers-lose_all node (x ∷ cs) s = elim (Bool-cases (is_live x)) [
  | inl e ↦
      rw (e, lose_all)
        (containers-lose_all node cs _
          ∙ update-update _ (is_container x.container_id) lost s.containers (λ c. refl)
          ∙ update-cong _ _ lost s.containers (All-every _ s.containers (λ c. ground arith)))
  | inr e ↦
      rw (e, lose_all)
        (containers-lose_all node cs s
          ∙ update-cong _ _ lost s.containers (All-every _ s.containers (λ c. ground arith)))
]

abbrev pub failed : List String → ContainerRecord → Bool
failed ids c = any (λ i. str_eq c.node_id i) ids && is_live c

containers-lose_node :
    (node : String) (s : ClusterState)
    → Unique (λ c. c.container_id) s.containers
    → (lose_all node (get_containers_for_node node s) s).containers
      ≡ update (λ c. on_node node c && is_live c) lost s.containers
unfolding get_containers_for_node
containers-lose_node node s u =
    containers-lose_all node (get_containers_for_node node s) s
    ∙ update-cong _ _ lost s.containers (
        All-weaken _ _ s.containers
          (λ c h.
            any-select _ (on_node node) s.containers
            ∙ any-cong _ _ s.containers (λ x. ground arith)
            ∙ h)
          (any_key-Unique (λ c. c.container_id) (λ c. on_node node c && is_live c) s.containers u))

-- Where container ids are unique, `_handle_node_failures` writes "lost" exactly to the running and
-- starting containers of the nodes that it is given, and changes no other container.
pub handle_node_failures_lem :
    (ids : List String) (s : ClusterState)
    → Unique (λ c. c.container_id) s.containers
    → (handle_node_failures ids s).containers ≡ update (failed ids) lost s.containers
unfolding handle_node_failures
handle_node_failures_lem [] s u = sym (update-none lost s.containers)
handle_node_failures_lem (id ∷ ids) s u =
    let e = containers-lose_node id s u in
    handle_node_failures_lem ids _ (
      subst (Unique (λ (c : ContainerRecord). c.container_id)) (sym e)
        (Unique-update _ _ lost s.containers (λ c. refl) u))
    ∙ ap (update (failed ids) lost) e
    ∙ update-update (failed ids) _ lost s.containers (λ c. refl)
    ∙ update-cong _ _ lost s.containers (All-every _ s.containers (λ c. ground arith))
