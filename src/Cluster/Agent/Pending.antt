-- ===== src/Cluster/Agent/Pending.antt =====
-- What a heartbeat and an acknowledgement do to the assignments that are pending.
use pycrate.Base.{
  ◌≡◌, refl, ap, ◌∙◌, Bool, true, not, ◌&&◌, String, List, [], ◌∷◌, some, any, arith, eq_iff,
  str_eq, select, any-sort, any-select, ltb,
}
use pycrate.Base.Exec.{ok}
use pycrate.Cluster.Table.{update, any-update}
use pycrate.Cluster.Types.{ClusterState, NodeInfo, Assignment}
use pycrate.Cluster.State.{
  now, is_node, has_node, get_node, refreshed, update_heartbeat, get_pending_assignments,
  acknowledge_assignment, is_pending,
}
use pycrate.Cluster.Reports.{update_heartbeat-Heard}
use pycrate.Cluster.Master.{HeartbeatRequest, Answer, Master, state}
use pycrate.Cluster.Master.Handlers.{heartbeat, acknowledge_each}
use pycrate.Cluster.Master.Rows.{find_node-has, has_of-get_node}

abbrev pub named : String → Assignment → Bool
named k a = str_eq a.assignment_id k

abbrev pub is_in : String → List String → Bool
is_in k ids = any (λ i. str_eq i k) ids

-- The row is among what the node polls, under the id.
abbrev waits : String → String → Assignment → Bool
waits node k a = (str_eq a.node_id node && is_pending a) && named k a

any-waits-acknowledge :
    (node k id : String) (rows : List Assignment)
    → any
        (waits node k)
        (update (λ a. str_eq a.assignment_id id) (λ a. record a { acknowledged = true }) rows)
      ≡ (any (waits node k) rows && not (str_eq id k))
unfolding update
any-waits-acknowledge node k id [] = refl
any-waits-acknowledge node k id (a ∷ rows) = ground (
  arith,
  any-waits-acknowledge node k id rows,
  eq_iff a.assignment_id id,
  eq_iff a.assignment_id k,
  eq_iff id k,
)

pub any-waits-acknowledge_each :
    (node k : String) (ids : List String) (s : ClusterState)
    → any (waits node k) (acknowledge_each ids s).assignments
      ≡ (any (waits node k) s.assignments && not (is_in k ids))
unfolding acknowledge_each acknowledge_assignment
any-waits-acknowledge_each node k [] s = ground arith
any-waits-acknowledge_each node k (id ∷ ids) s = ground (
  arith,
  any-waits-acknowledge_each node k ids (acknowledge_assignment id s),
  any-waits-acknowledge node k id s.assignments,
)

pub any-get_pending :
    (node k : String) (s : ClusterState)
    → any (named k) (get_pending_assignments node s) ≡ any (waits node k) s.assignments
unfolding get_pending_assignments
any-get_pending node k s =
    any-sort (λ a b. ltb a.created_at b.created_at) (named k)
      (select (λ a. str_eq a.node_id node && is_pending a) s.assignments)
    ∙ any-select (named k) (λ a. str_eq a.node_id node && is_pending a) s.assignments

pub pending-same :
    (node : String) (s t : ClusterState)
    → t.assignments ≡ s.assignments
    → get_pending_assignments node t ≡ get_pending_assignments node s
unfolding get_pending_assignments
pending-same node s t h = rw h

-- A heartbeat of a known node: it is answered, the node is still known and the work is the same.
pub record Beaten (node : String) (m n : Master) : Type 0 where
  pub row : NodeInfo
  pub known : get_node node (state n) ≡ some row
  pub work : (state n).assignments ≡ (state m).assignments

pub heartbeat-Beaten :
    (r : HeartbeatRequest) (m : Master) (x : NodeInfo)
    → get_node r.node_id (state m) ≡ some x
    → ((a : Answer) × ((heartbeat r m).0 ≡ ok a)) × Beaten r.node_id m (heartbeat r m).1
unfolding heartbeat get_node
heartbeat-Beaten r m x h =
    let here = has_of-get_node r.node_id (state m) x h in
    let heard = update_heartbeat-Heard r.node_id r.containers r.resources (state m) here in
    let s = (update_heartbeat r.node_id r.containers r.resources (state m)).1 in
    let still : has_node r.node_id s.nodes ≡ true =
      ap (has_node r.node_id) heard.nodes
      ∙ any-update (is_node r.node_id) (is_node r.node_id) (refreshed r.resources (now (state m)))
          (state m).nodes (λ n. refl)
      ∙ here in
    let (row, found) = find_node-has r.node_id s.nodes still in
    rw (h, heard.returns, heartbeat)
      ((Answer.alive (now s), refl), record { row = row; known = found; work = heard.rest.0 })
