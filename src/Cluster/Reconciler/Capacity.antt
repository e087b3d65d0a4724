-- ===== src/Cluster/Reconciler/Capacity.antt =====
-- Scheduling never promises more than a node has.
use pycrate.Base.{ℕ, zero, suc, ◌+◌, ◌≤◌, ◌≡◌, refl, sym, inl, inr, arith, All, subst}
use pycrate.Base.Exec.{ok}
use pycrate.Cluster.Floats.{Floats}
use pycrate.Cluster.Table.{Unique, Unique-update}
use pycrate.Cluster.Updates.{eq_of-key, All-update-In}
use pycrate.Cluster.Types.{ClusterState, NodeInfo, Deployment}
use pycrate.Cluster.State.{add_event, is_node, reserve_resources}
use pycrate.Cluster.Validity.{Result-cases}
use pycrate.Cluster.Scheduler.{SchedulingDecision, schedule}
use pycrate.Cluster.Scheduler.Choice.{schedule-Chosen}
use pycrate.Cluster.Reconciler.{scale_up}
use pycrate.Cluster.Reconciler.Assigning.{IsFresh}
use pycrate.Cluster.Reconciler.Scaling.{placed, placed-IsFresh, scale_up-suc}

abbrev pub InBudget : NodeInfo → Type 0
InBudget n = (n.cpu_used ≤ n.cpu_total) × (n.memory_used ≤ n.memory_total)

module _ {F : Type 0} (fl : Floats F) (dep : Deployment) where
  placed-InBudget :
      (d : SchedulingDecision F) (s : ClusterState)
      → schedule fl dep s ≡ ok d
      → Unique (λ n. n.node_id) s.nodes
      → All InBudget s.nodes
      → All InBudget (placed fl dep d s).nodes
  unfolding add_event reserve_resources
  placed-InBudget d s e u h =
      let c = schedule-Chosen fl dep s d e in
      All-update-In InBudget (is_node d.node.node_id) _ s.nodes
        (λ n m same b.
          let it : n ≡ d.node = eq_of-key (λ x. x.node_id) s.nodes d.node n u c.known m same in
          subst
            (λ x. InBudget (record x {
              cpu_used = x.cpu_used + dep.cpu;
              memory_used = x.memory_used + dep.memory;
            }))
            (sym it)
            (let k : InBudget d.node = subst InBudget it b in
              omega (arith, c.cpu_room, c.memory_room)))
        h

  -- Where the ids still to be drawn are new, node ids are unique, and no node is promised beyond
  -- its CPU and memory, that is so after `_scale_up`, whatever the number of replicas asked for.
  pub scale_up-InBudget :
      (n : ℕ) (s : ClusterState)
      → IsFresh s
      → Unique (λ n. n.node_id) s.nodes
      → All InBudget s.nodes
      → All InBudget (scale_up fl dep n s).1.nodes
  unfolding scale_up
  scale_up-InBudget zero s fresh u h = h
  scale_up-InBudget (suc n) s fresh u h = elim (Result-cases (schedule fl dep s)) [
    | inl (d, e) ↦
        subst (λ x. All InBudget x.1.nodes) (sym (scale_up-suc fl dep n s d fresh e))
          (scale_up-InBudget n (placed fl dep d s) (placed-IsFresh fl dep d s fresh)
            (unfold add_event reserve_resources in
              Unique-update _ (is_node d.node.node_id) _ s.nodes (λ m. refl) u)
            (placed-InBudget d s e u h))
    | inr (x, e) ↦ rw (e, scale_up) (unfold add_event in h)
  ]
