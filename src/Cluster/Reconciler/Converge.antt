-- ===== src/Cluster/Reconciler/Converge.antt =====
-- One deployment under `_reconcile_deployments`: the running containers and the pending creates
-- move to the number of replicas.
use pycrate.Base.{
  ℕ, ◌+◌, ◌-◌, ◌*◌, ◌≤◌, ◌<◌, ◌≡◌, refl, sym, ap, inl, inr, true, false, not, ◌||◌, ◌==◌, String,
  List, arith, any, count, length, Bool-cases, subst, ltb, ltb→lt, lt→ltb, ltb_ge, ltb_asym,
  ltb_trans, sort, take, drop, All, All-sort, All-take, All-select, sort-Sorted, take_drop-Sorted,
}
use pycrate.Base.Exec.{Result, ok}
use pycrate.Cluster.Floats.{Floats}
use pycrate.Cluster.Types.{ClusterState, Deployment, ContainerRecord, StateError}
use pycrate.Cluster.State.{count_pending_creates, pending_stop, is_container, has_node}
use pycrate.Cluster.Scheduler.Choice.{has_room}
use pycrate.Cluster.Reconciler.{
  scale_up, scale_down, stop_each, rescale, reconcile_deployment, running_of,
}
use pycrate.Cluster.Reconciler.Assigning.{IsFresh}
use pycrate.Cluster.Reconciler.Scaling.{scale_up-Scaled}
use pycrate.Cluster.Reconciler.Stopping.{Homed, Stopped, stop_each-Stopped}

module _ {F : Type 0} (fl : Floats F) (all : List ContainerRecord) (dep : Deployment) where
  -- `effective_count`
  abbrev pub effective : ClusterState → ℕ
  effective s = length (running_of dep all) + count_pending_creates dep.deployment_id s

  abbrev pub pass : ClusterState → Result StateError Unit × ClusterState
  pass s = reconcile_deployment fl all dep s

  pass_below :
      (s : ClusterState)
      → effective s < dep.replicas
      → pass s ≡ scale_up fl dep (dep.replicas - effective s) s
  unfolding reconcile_deployment rescale
  pass_below s h = rw (lt→ltb _ _ h)

  pass_equal : (s : ClusterState) → effective s ≡ dep.replicas → pass s ≡ (ok tt, s)
  unfolding reconcile_deployment rescale
  pass_equal s h =
      rw (ltb_ge (effective s) dep.replicas (omega arith))
        (rw (ltb_ge dep.replicas (effective s) (omega arith)))

  -- The newest containers, as many as there are too many.
  abbrev pub excess : ClusterState → List ContainerRecord
  excess s =
      take (effective s - dep.replicas)
        (sort (λ a b. ltb b.started_at a.started_at) (running_of dep all))

  pass_above : (s : ClusterState) → dep.replicas < effective s → pass s ≡ stop_each dep (excess s) s
  unfolding reconcile_deployment rescale scale_down
  pass_above s h = rw (ltb_ge (effective s) dep.replicas (omega arith)) (rw (lt→ltb _ _ h))

  -- Where the ids still to be drawn are new, and no more running containers and pending creates
  -- count than there are replicas, a pass over the deployment returns, never makes the count more
  -- than the replicas, and leaves it lower only if at the end no healthy node has room for one
  -- more.
  pub pass-fills :
      (s : ClusterState)
      → IsFresh s
      → effective s ≤ dep.replicas
      → ((pass s).0 ≡ ok tt)
        × (effective (pass s).1 ≤ dep.replicas)
        × ((effective (pass s).1 == dep.replicas || not (any (has_room dep) (pass s).1.nodes))
            ≡ true)
  pass-fills s fresh h = elim (Bool-cases (ltb (effective s) dep.replicas)) [
    | inl e ↦
        (let r = scale_up-Scaled fl dep (dep.replicas - effective s) s fresh in
          let below = ltb→lt _ _ e in
          rw (pass_below s below)
            (r.returns, omega (arith, r.own, r.bound), ground (arith, r.own, r.bound, r.full)))
    | inr e ↦
        (let same : effective s ≡ dep.replicas = ground arith in
          rw (pass_equal s same) (refl, h, ground arith))
  ]

  -- Under the conditions of pass-fills, where a healthy node has room for one more after the pass,
  -- the next pass over the same containers does nothing.
  pass-fills_once :
      (s : ClusterState)
      → IsFresh s
      → effective s ≤ dep.replicas
      → any (has_room dep) (pass s).1.nodes ≡ true
      → pass (pass s).1 ≡ (ok tt, (pass s).1)
  pass-fills_once s fresh h room =
      let r = pass-fills s fresh h in pass_equal (pass s).1 (ground (arith, r.2, room))

  excess-Homed : (s : ClusterState) → Homed s all → Homed s (excess s)
  excess-Homed s h = All-take _ _ _ (All-sort _ _ _ (All-select _ _ all h))

  pass-Stopped :
      (s : ClusterState)
      → IsFresh s
      → Homed s all
      → dep.replicas < effective s
      → Stopped (excess s) s (pass s).0 (pass s).1
  pass-Stopped s fresh homed h =
      subst (λ x. Stopped (excess s) s x.0 x.1) (sym (pass_above s h))
        (stop_each-Stopped dep (excess s) s fresh (excess-Homed s homed))

  -- Where the ids still to be drawn are new, the containers are on nodes of the store, and more
  -- count than there are replicas, a pass returns, adds no create, and adds a stop for each of the
  -- newest running containers, as many as the count is above the replicas; none of those is older
  -- than one that is kept.
  pub pass-trims :
      (s : ClusterState)
      → IsFresh s
      → Homed s all
      → dep.replicas < effective s
      → ((pass s).0 ≡ ok tt)
        × (effective (pass s).1 ≡ effective s)
        × ((id : String)
            → count (pending_stop id) (pass s).1.assignments
              ≡ count (pending_stop id) s.assignments + count (is_container id) (excess s))
        × All
            (λ c.
              All
                (λ k. ltb c.started_at k.started_at ≡ false)
                (drop
                  (effective s - dep.replicas)
                  (sort (λ a b. ltb b.started_at a.started_at) (running_of dep all))))
            (excess s)
  pass-trims s fresh homed h =
      let r = pass-Stopped s fresh homed h in
      (
        r.returns,
        omega (arith, r.creates dep.deployment_id),
        r.stops,
        take_drop-Sorted ltb ltb_asym ltb_trans (λ c. c.started_at) _ _
            (sort-Sorted ltb ltb_asym ltb_trans (λ c. c.started_at) (running_of dep all)),
      )

  -- Under the conditions of pass-trims, a second pass over the same containers adds the same stops
  -- once more.
  pub pass-trims_twice :
      (s : ClusterState)
      → IsFresh s
      → Homed s all
      → dep.replicas < effective s
      → (id : String)
      → count (pending_stop id) (pass (pass s).1).1.assignments
        ≡ count (pending_stop id) s.assignments + 2 * count (is_container id) (excess s)
  pass-trims_twice s fresh homed h id =
      let r = pass-Stopped s fresh homed h in
      let t = (pass s).1 in
      let same : effective t ≡ effective s = omega (arith, r.creates dep.deployment_id) in
      let again =
        pass-Stopped t r.fresh
          (subst (λ ns. All (λ c. has_node c.node_id ns ≡ true) all) (sym r.nodes) homed)
          (omega (arith, same)) in
      let chosen : excess t ≡ excess s = rw same in
      omega (arith, again.stops id, r.stops id, ap (count (is_container id)) chosen)
