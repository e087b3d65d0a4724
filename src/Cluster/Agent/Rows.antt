-- ===== src/Cluster/Agent/Rows.antt =====
-- The rows that a report inserts (`update_heartbeat`, from the agent's containers).
use pycrate.Base.{
  ℕ, ◌≡◌, sym, ap, ◌∙◌, inl, inr, Bool, true, ◌||◌, String, List, [], ◌∷◌, any, arith, eq_iff, map,
  All, Bool-cases, if_true, if_false, any-append_left, any-append_right,
}
use pycrate.Base.Exec.{ok}
use pycrate.Cluster.Table.{delete, update, any-delete_stays}
use pycrate.Cluster.Types.{ClusterState, NodeInfo, ContainerRecord}
use pycrate.Cluster.State.{
  has_node, is_container, replace_container, insert_reported, rows_of, row_of, is_node, refreshed,
  now, Reported, Resources, update_heartbeat, on_node,
}
use pycrate.Cluster.Validity.{Result-cases}
use pycrate.Engine.Config.{ContainerConfig, post_init}
use pycrate.Engine.Container.{Container}
use pycrate.Cluster.Agent.{container_data}
use pycrate.Cluster.Agent.Created.{Only}

-- The rows of a report, with the test of a row where its container passes.
module _ (p : ContainerRecord → Bool) (q : Container → Bool) (id node : String) (at : ℕ)
    (deployments : List (String × String))
    (row : (c : Container)
      → q c ≡ true
      → p (row_of node at (container_data deployments c)) ≡ true) where
  pub any-rows_of :
      (cs : List (String × Container))
      → any (λ e. q e.1) cs ≡ true
      → any p (rows_of node at (map (container_data deployments) (map (λ e. e.1) cs))) ≡ true
  any-rows_of [] h = absurd (cc h)
  any-rows_of ((k, c) ∷ rest) h = ground (arith, row c, any-rows_of rest)

  pub All-rows_of :
      (cs : List (String × Container))
      → Only q id cs
      → All
          (λ r. is_container id r ≡ true → p r ≡ true)
          (rows_of node at (map (container_data deployments) (map (λ e. e.1) cs)))
  All-rows_of [] h = tt
  All-rows_of ((k, c) ∷ rest) h = (λ e. row c (h.0 e), All-rows_of rest h.1)

-- Where all rows with an id pass a test that only they pass, and one is in the report or in the
-- table, one is in the table after the report.
module _ (p : ContainerRecord → Bool) (id : String)
    (only : (r : ContainerRecord) → p r ≡ true → is_container id r ≡ true) where
  any-replace_container :
      (c : ContainerRecord) (table : List ContainerRecord)
      → (is_container id c ≡ true → p c ≡ true)
      → p c || any p table ≡ true
      → any p (replace_container c table) ≡ true
  unfolding replace_container
  any-replace_container c table h e = elim (Bool-cases (p c)) [
    | inl f ↦ any-append_right p _ (c ∷ []) (ground (arith, f))
    | inr f ↦ any-append_left p _ (c ∷ []) (
        any-delete_stays p (is_container c.container_id) table (λ x g. ground (
          arith,
          only x g,
          h,
          f,
          eq_iff x.container_id id,
          eq_iff c.container_id id,
          eq_iff x.container_id c.container_id,
        ))
        ∙ ground (arith, e, f))
  ]

  pub any-insert_reported :
      (ns : List NodeInfo) (rows table t : List ContainerRecord)
      → All (λ r. is_container id r ≡ true → p r ≡ true) rows
      → any p rows || any p table ≡ true
      → insert_reported ns rows table ≡ ok t
      → any p t ≡ true
  unfolding insert_reported
  any-insert_reported ns [] table t h e i =
      let same : table ≡ t = cc i in ground (arith, ap (any p) same, e)
  any-insert_reported ns (c ∷ cs) table t h e i = elim (Bool-cases (has_node c.node_id ns)) [
    | inr f ↦ absurd (cc (sym (if_false _ _ _ f) ∙ i))
    | inl f ↦
        any-insert_reported ns cs (replace_container c table) t h.1
          (ground (arith, any-replace_container c table h.0, e)) (sym (if_true _ _ _ f) ∙ i)
  ]

pub post_init-container_id :
    (c d : ContainerConfig) → post_init c ≡ ok d → d.container_id ≡ c.container_id
unfolding post_init
post_init-container_id c d h = ground arith

pub update_heartbeat-inserted :
    (node : String) (reported : List Reported) (res : Resources) (s : ClusterState)
    → (update_heartbeat node reported res s).0 ≡ ok tt
    → insert_reported
        (update (is_node node) (refreshed res (now s)) s.nodes)
        (rows_of node (now s) reported)
        (delete (on_node node) s.containers)
      ≡ ok (update_heartbeat node reported res s).1.containers
unfolding update_heartbeat
update_heartbeat-inserted node reported res s h =
    elim (Result-cases (
      insert_reported (update (is_node node) (refreshed res (now s)) s.nodes)
        (rows_of node (now s) reported) (delete (on_node node) s.containers))) [
          | inl (t, e) ↦ rw (e, update_heartbeat)
          | inr (u, e) ↦ absurd (cc (rw (e, update_heartbeat) at h))
        ]
