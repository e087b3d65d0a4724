-- ===== src/Cluster/Scheduler.antt =====
-- cluster/scheduler.py. The proofs are in the children.
pub mod Choice
use pycrate.Base.{
  ℕ, ◌≡◌, Bool, true, false, not, ◌&&◌, String, List, [], ◌∷◌, map, leb, max, select, sort, count,
  if◌then◌else◌,
}
use pycrate.Base.Exec.{Result, ok, err}
use pycrate.Cluster.Floats.{Floats}
use pycrate.Cluster.Types.{
  ClusterState, Reason, no_healthy_nodes, no_node_has_room, NodeInfo, NodeStatus, Role, Deployment,
  cpu_available, memory_available, is_running,
}
use pycrate.Cluster.State.{get_healthy_nodes, get_all_nodes, get_containers_for_node, is_master}

pub record NoCapacityError : Type 0 where
  pub deployment : Deployment
  pub reason : Reason

pub record SchedulingDecision (F : Type 0) : Type 0 where
  pub node : NodeInfo
  pub deployment : Deployment
  pub score : F
  pub reason : ℕ × ℕ × String

abbrev pub fits : Deployment → NodeInfo → Bool
fits dep n = leb dep.cpu (cpu_available n) && leb dep.memory (memory_available n)

abbrev pub fits_worker : Deployment → NodeInfo → Bool
fits_worker dep n = not (is_master n) && fits dep n

-- The workers with room, or, if there is none, every node with room.
unfoldable pub eligible : Deployment → List NodeInfo → List NodeInfo
eligible dep nodes = elim (select (fits_worker dep) nodes) [
  | [] ↦ select (fits dep) nodes
  | n ∷ ns ↦ n ∷ ns
]

unfoldable pub running_on : String → ClusterState → ℕ
running_on node_id s = count is_running (get_containers_for_node node_id s)

abbrev pub free_line : NodeInfo → String × ℕ × ℕ
free_line n = (n.node_id, cpu_available n, memory_available n)

pub record CapacityLine : Type 0 where
  pub node_id : String
  pub status : NodeStatus
  pub role : Role
  pub cpu : ℕ × ℕ × ℕ
  pub memory : ℕ × ℕ × ℕ
  pub containers : ℕ

unfoldable pub get_capacity_report : ClusterState → List CapacityLine
unfolding running_on get_all_nodes
get_capacity_report s =
    map
      (λ n. record {
        node_id = n.node_id;
        status = n.status;
        role = n.role;
        cpu = (n.cpu_used, n.cpu_total, cpu_available n);
        memory = (n.memory_used, n.memory_total, memory_available n);
        containers = running_on n.node_id s;
      })
      (get_all_nodes s)

module _ {F : Type 0} (fl : Floats F) where
  open fl use {lit, add, sub, mul, div, lt, show}

  -- `(available / max(total, 1)) * 100`
  unfoldable pub percent_free : ℕ → ℕ → F
  percent_free available total = mul (div (lit available 1) (lit (max total 1) 1)) (lit 100 1)

  unfoldable pub score_node : NodeInfo → ClusterState → F
  score_node n s =
      let cpu_score = percent_free (cpu_available n) n.cpu_total in
      let mem_score = percent_free (memory_available n) n.memory_total in
      let base = add (mul cpu_score (lit 4 10)) (mul mem_score (lit 4 10)) in
      let after_role = if is_master n then sub base (lit 20 1) else base in
      let score = sub after_role (mul (lit (running_on n.node_id s) 1) (lit 2 1)) in
      if lt score (lit 0 1) then lit 0 1 else score

  abbrev pub explain_score : NodeInfo → F → ℕ × ℕ × String
  explain_score n score = (cpu_available n, memory_available n, show score)

  abbrev pub decide_on : Deployment → ClusterState → NodeInfo → SchedulingDecision F
  decide_on dep s n = record {
    node = n;
    deployment = dep;
    score = score_node n s;
    reason = explain_score n (score_node n s);
  }

  -- `scored.sort(key=…, reverse=True)`, and the first.
  abbrev pub ranked : Deployment → ClusterState → List NodeInfo → List (SchedulingDecision F)
  ranked dep s nodes = sort (λ a b. lt b.score a.score) (map (decide_on dep s) nodes)

  unfoldable pub pick :
      Deployment
      → List NodeInfo
      → List (SchedulingDecision F)
      → Result NoCapacityError (SchedulingDecision F)
  pick dep nodes [] =
      err (record { deployment = dep; reason = no_node_has_room (map free_line nodes) })
  pick dep nodes (d ∷ ds) = ok d

  unfoldable pub schedule_among :
      Deployment → ClusterState → List NodeInfo → Result NoCapacityError (SchedulingDecision F)
  unfolding pick
  schedule_among dep s [] = err (record { deployment = dep; reason = no_healthy_nodes })
  schedule_among dep s (n ∷ ns) = pick dep (n ∷ ns) (ranked dep s (eligible dep (n ∷ ns)))

  unfoldable pub schedule :
      Deployment → ClusterState → Result NoCapacityError (SchedulingDecision F)
  unfolding schedule_among
  schedule dep s = schedule_among dep s (get_healthy_nodes s)

  unfoldable pub schedule_batch : List Deployment → ClusterState → List (SchedulingDecision F)
  schedule_batch [] s = []
  schedule_batch (dep ∷ deps) s =
      let decisions = schedule_batch deps s in
      elim (schedule dep s) [ ok d ↦ d ∷ decisions | err e ↦ decisions ]
