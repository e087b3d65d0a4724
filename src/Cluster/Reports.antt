-- ===== src/Cluster/Reports.antt =====
-- What a heartbeat does to the store (`update_heartbeat` of cluster/state.py).
use pycrate.Base.{
  ℕ, ◌≡◌, refl, sym, ◌∙◌, ap, inl, inr, Bool, true, false, not, ◌&&◌, ◌||◌, String, List, [], ◌∷◌,
  arith, eq_iff, eq_refl, if◌then◌else◌, any, count, Bool-cases, All, if_true, if_false,
}
use pycrate.Base.Exec.{Result, ok, err}
use pycrate.Cluster.Table.{update, delete, any-update}
use pycrate.Cluster.Types.{ClusterState, NodeInfo, ContainerRecord, StateError, integrity_error}
use pycrate.Cluster.State.{
  now, clock_read, is_node, has_node, Reported, Resources, rows_of, is_container, replace_container,
  insert_reported, refreshed, on_node, update_heartbeat,
}

-- The containers of a report that the store keeps: of two with one id, the last.
abbrev pub is_named : String → List ContainerRecord → Bool
is_named id rows = any (is_container id) rows

insert_reported-ok :
    (ns : List NodeInfo) (rows table : List ContainerRecord)
    → All (λ c. has_node c.node_id ns ≡ true) rows
    → (t : List ContainerRecord) × (insert_reported ns rows table ≡ ok t)
unfolding insert_reported
insert_reported-ok ns [] table h = (table, refl)
insert_reported-ok ns (c ∷ cs) table h =
    rw (h.0, if◌then◌else◌) (insert_reported-ok ns cs (replace_container c table) h.1)

-- On the reporting node, and on any other.
abbrev pub here_as : String → String → ContainerRecord → Bool
here_as node id c = is_container id c && on_node node c

abbrev pub elsewhere_as : String → String → ContainerRecord → Bool
elsewhere_as node id c = is_container id c && not (on_node node c)

module _ (node id : String) where
  any_here-replace :
      (c : ContainerRecord) (table : List ContainerRecord)
      → on_node node c ≡ true
      → any (here_as node id) (replace_container c table)
        ≡ (is_container id c || any (here_as node id) table)
  unfolding replace_container delete
  any_here-replace c [] h = ground arith
  any_here-replace c (x ∷ xs) h = ground (
    arith,
    any_here-replace c xs h,
    eq_iff x.container_id c.container_id,
    eq_iff x.container_id id,
    eq_iff c.container_id id,
  )

  count_elsewhere-replace :
      (c : ContainerRecord) (table : List ContainerRecord)
      → on_node node c ≡ true
      → count (elsewhere_as node id) (replace_container c table)
        ≡ (if is_container id c then 0 else count (elsewhere_as node id) table)
  unfolding replace_container delete
  count_elsewhere-replace c [] h = ground arith
  count_elsewhere-replace c (x ∷ xs) h = ground (
    arith,
    count_elsewhere-replace c xs h,
    eq_iff x.container_id c.container_id,
    eq_iff x.container_id id,
    eq_iff c.container_id id,
  )

  module _ (ns : List NodeInfo) where
    any_here-insert :
        (rows table t : List ContainerRecord)
        → All (λ c. on_node node c ≡ true) rows
        → insert_reported ns rows table ≡ ok t
        → any (here_as node id) t ≡ (is_named id rows || any (here_as node id) table)
    unfolding insert_reported
    any_here-insert [] table t h e = ap (any (here_as node id)) (sym (cc e))
    any_here-insert (c ∷ cs) table t h e = elim (Bool-cases (has_node c.node_id ns)) [
      | inr f ↦ absurd (cc (sym (if_false _ _ _ f) ∙ e))
      | inl f ↦ ground (
        arith,
        any_here-insert cs (replace_container c table) t h.1 (sym (if_true _ _ _ f) ∙ e),
        any_here-replace c table h.0,
      )
    ]

    count_elsewhere-insert :
        (rows table t : List ContainerRecord)
        → All (λ c. on_node node c ≡ true) rows
        → insert_reported ns rows table ≡ ok t
        → count (elsewhere_as node id) t
          ≡ (if is_named id rows then 0 else count (elsewhere_as node id) table)
    unfolding insert_reported
    count_elsewhere-insert [] table t h e = ap (count (elsewhere_as node id)) (sym (cc e))
    count_elsewhere-insert (c ∷ cs) table t h e = elim (Bool-cases (has_node c.node_id ns)) [
      | inr f ↦ absurd (cc (sym (if_false _ _ _ f) ∙ e))
      | inl f ↦ ground (
        arith,
        count_elsewhere-insert cs (replace_container c table) t h.1 (sym (if_true _ _ _ f) ∙ e),
        count_elsewhere-replace c table h.0,
      )
    ]

  any_here-delete :
      (table : List ContainerRecord) → any (here_as node id) (delete (on_node node) table) ≡ false
  unfolding delete
  any_here-delete [] = refl
  any_here-delete (x ∷ xs) = ground (arith, any_here-delete xs)

  count_elsewhere-delete :
      (table : List ContainerRecord)
      → count (elsewhere_as node id) (delete (on_node node) table)
        ≡ count (elsewhere_as node id) table
  unfolding delete
  count_elsewhere-delete [] = refl
  count_elsewhere-delete (x ∷ xs) = ground (arith, count_elsewhere-delete xs)

rows-on_node :
    (node : String) (at : ℕ) (reported : List Reported)
    → All (λ c. on_node node c ≡ true) (rows_of node at reported)
rows-on_node node at [] = tt
rows-on_node node at (r ∷ rs) = (eq_refl node, rows-on_node node at rs)

rows-has_node :
    (node : String) (at : ℕ) (ns : List NodeInfo) (reported : List Reported)
    → has_node node ns ≡ true
    → All (λ c. has_node c.node_id ns ≡ true) (rows_of node at reported)
rows-has_node node at ns [] h = tt
rows-has_node node at ns (r ∷ rs) h = (h, rows-has_node node at ns rs h)

pub record Heard (node : String) (reported : List Reported) (res : Resources) (s : ClusterState)
    (r : Result StateError Unit) (t : ClusterState) : Type 0 where
  pub returns : r ≡ ok tt
  pub nodes : t.nodes ≡ update (is_node node) (refreshed res (now s)) s.nodes
  pub here :
      (id : String)
      → any (here_as node id) t.containers ≡ is_named id (rows_of node (now s) reported)
  pub elsewhere :
      (id : String)
      → count (elsewhere_as node id) t.containers ≡ (
          if is_named id (rows_of node (now s) reported)
          then 0
          else count (elsewhere_as node id) s.containers)
  pub rest : (t.assignments ≡ s.assignments) × (t.deployments ≡ s.deployments)

-- A heartbeat of a registered node returns: it refreshes the node's row alone; the node then has a
-- row for exactly the ids of the report; other nodes lose the rows with those ids and keep as many
-- as they had of every other id; assignments and deployments stay.
pub update_heartbeat-Heard :
    (node : String) (reported : List Reported) (res : Resources) (s : ClusterState)
    → has_node node s.nodes ≡ true
    → Heard node reported res s
        (update_heartbeat node reported res s).0
        (update_heartbeat node reported res s).1
unfolding update_heartbeat
update_heartbeat-Heard node reported res s h =
    let ns = update (is_node node) (refreshed res (now s)) s.nodes in
    let cleared = delete (on_node node) s.containers in
    let rows = rows_of node (now s) reported in
    let known : has_node node ns ≡ true =
      any-update (is_node node) (is_node node) (refreshed res (now s)) s.nodes (λ n. refl) ∙ h in
    let (t, e) =
      insert_reported-ok ns rows cleared (rows-has_node node (now s) ns reported known) in
    rw (e, update_heartbeat)
      (record {
        returns = refl;
        nodes = refl;
        here = λ id. ground (
          arith,
          any_here-insert node id ns rows cleared t (rows-on_node node (now s) reported) e,
          any_here-delete node id s.containers,
        );
        elsewhere = λ id. ground (
          arith,
          count_elsewhere-insert node id ns rows cleared t (rows-on_node node (now s) reported) e,
          count_elsewhere-delete node id s.containers,
        );
        rest = (refl, refl);
      })

-- A heartbeat with at least one container, of a node that is not registered, raises, and no table
-- changes.
update_heartbeat_unknown :
    (node : String) (c : Reported) (cs : List Reported) (res : Resources) (s : ClusterState)
    → has_node node s.nodes ≡ false
    → update_heartbeat node (c ∷ cs) res s ≡ (err integrity_error, clock_read s)
unfolding update_heartbeat insert_reported
update_heartbeat_unknown node c cs res s h = rw (
  any-update (is_node node) (is_node node) (refreshed res (now s)) s.nodes (λ n. refl) ∙ h,
  update_heartbeat,
  insert_reported,
)
