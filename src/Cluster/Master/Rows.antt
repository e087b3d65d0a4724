-- ===== src/Cluster/Master/Rows.antt =====
-- The row of a node, and the look-up of it.
use pycrate.Base.{
  ℕ, ◌≡◌, refl, ◌∙◌, inl, inr, true, String, List, [], ◌∷◌, some, Bool-cases, arith, eq_refl,
  if◌then◌else◌, any-append_right,
}
use pycrate.Cluster.Table.{any-update}
use pycrate.Cluster.Types.{ClusterState, NodeInfo, Role, healthy}
use pycrate.Cluster.State
use pycrate.Cluster.State.{
  get_node, find_node, has_node, is_node, upsert_node, get_or, register_node, update_heartbeat,
  upsert_deployment, insert_reported, get_deployment,
}

pub find_node-has :
    (k : String) (ns : List NodeInfo)
    → has_node k ns ≡ true
    → (n : NodeInfo) × (find_node k ns ≡ some n)
find_node-has k (n ∷ ns) h = elim (Bool-cases (is_node k n)) [
  | inl e ↦ (n, rw (e, if◌then◌else◌))
  | inr e ↦ rw (e, if◌then◌else◌) (find_node-has k ns (rw (e, if◌then◌else◌) at h))
]
find_node-has k [] h = absurd (cc h)

has-upsert_node : (n : NodeInfo) (ns : List NodeInfo) → has_node n.node_id (upsert_node n ns) ≡ true
unfolding upsert_node
has-upsert_node n ns = elim (Bool-cases (has_node n.node_id ns)) [
  | inl e ↦
      rw (e, if◌then◌else◌)
        (any-update (is_node n.node_id) (is_node n.node_id)
            (λ x. record x {
              address = n.address;
              status = healthy;
              cpu_total = n.cpu_total;
              memory_total = n.memory_total;
              last_heartbeat = n.last_heartbeat;
            })
            ns (λ x. refl)
          ∙ e)
  | inr e ↦
      rw (e, if◌then◌else◌)
        (any-append_right (is_node n.node_id) ns (n ∷ []) (rw (eq_refl n.node_id)))
]

-- The row that was just written is found.
pub register_node-finds :
    (id address : String) (role : Role) (cpu memory : ℕ) (s : ClusterState)
    → (n : NodeInfo) × ((register_node id address role cpu memory s).1 ≡ some n)
unfolding register_node get_node State.add_event
register_node-finds id address role cpu memory s = find_node-has id _ (has-upsert_node _ s.nodes)

has_of-find_node :
    (k : String) (ns : List NodeInfo) (n : NodeInfo)
    → find_node k ns ≡ some n
    → has_node k ns ≡ true
has_of-find_node k [] n h = absurd (cc h)
has_of-find_node k (x ∷ ns) n h = ground (arith, has_of-find_node k ns n)

pub has_of-get_node :
    (k : String) (s : ClusterState) (n : NodeInfo)
    → get_node k s ≡ some n
    → has_node k s.nodes ≡ true
unfolding get_node
has_of-get_node k s n h = has_of-find_node k s.nodes n h
