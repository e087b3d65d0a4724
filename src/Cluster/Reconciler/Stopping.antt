-- ===== src/Cluster/Reconciler/Stopping.antt =====
-- Scaling down: which containers `_scale_down` stops, and how often.
use pycrate.Base.{
  ◌+◌, ◌≡◌, refl, sym, true, String, List, [], ◌∷◌, arith, count, length, length-append, subst, All,
}
use pycrate.Base.Exec.{Result, ok, ◌>>=◌}
use pycrate.Cluster.Types.{ClusterState, Deployment, ContainerRecord, StateError, stopping_excess}
use pycrate.Cluster.State.{
  add_event, count_pending_creates, pending_create, pending_stop, has_node, is_container,
}
use pycrate.Cluster.Reconciler.{stop_work, stop_each}
use pycrate.Cluster.Reconciler.Assigning.{
  IsFresh, assigned, row_for, assigned-IsFresh, create_assignment_lem, count-assigned,
}

-- The containers are on nodes that the store has.
abbrev pub Homed : ClusterState → List ContainerRecord → Type 0
Homed s cs = All (λ c. has_node c.node_id s.nodes ≡ true) cs

pub record Stopped (cs : List ContainerRecord) (s : ClusterState) (r : Result StateError Unit)
    (t : ClusterState) : Type 0 where
  pub returns : r ≡ ok tt
  pub grows : length t.assignments ≡ length s.assignments + length cs
  pub creates : (id : String) → count_pending_creates id t ≡ count_pending_creates id s
  pub stops :
      (id : String)
      → count (pending_stop id) t.assignments
        ≡ count (pending_stop id) s.assignments + count (is_container id) cs
  pub nodes : t.nodes ≡ s.nodes
  pub containers : t.containers ≡ s.containers
  pub fresh : IsFresh t

module _ (dep : Deployment) where
  abbrev stopped_one : ContainerRecord → ClusterState → ClusterState
  stopped_one c s =
      add_event "container.scaling_down" (stopping_excess dep.service_name) c.node_id c.container_id
        (assigned (stop_work c dep.deployment_id dep.service_name) s)

  stop_each-cons :
      (c : ContainerRecord) (cs : List ContainerRecord) (s : ClusterState)
      → IsFresh s
      → has_node c.node_id s.nodes ≡ true
      → stop_each dep (c ∷ cs) s ≡ stop_each dep cs (stopped_one c s)
  unfolding stop_each ◌>>=◌
  stop_each-cons c cs s fresh h =
      let (a, e) =
        create_assignment_lem (stop_work c dep.deployment_id dep.service_name) s fresh h in
      rw (e, ◌>>=◌)

  stopped_one-IsFresh :
      (c : ContainerRecord) (s : ClusterState) → IsFresh s → IsFresh (stopped_one c s)
  unfolding add_event
  stopped_one-IsFresh c s fresh =
      assigned-IsFresh (stop_work c dep.deployment_id dep.service_name) s fresh _ (omega arith)

  Stopped-cons :
      (c : ContainerRecord) (cs : List ContainerRecord) (s : ClusterState)
      (r : Result StateError Unit) (t : ClusterState)
      → Stopped cs (stopped_one c s) r t
      → Stopped (c ∷ cs) s r t
  unfolding add_event count_pending_creates
  Stopped-cons c cs s r t h = record {
    returns = h.returns;
    grows = omega (
      arith,
      h.grows,
      length-append s.assignments (row_for (stop_work c dep.deployment_id dep.service_name) s ∷ []),
    );
    creates = λ id. ground (
      arith,
      h.creates id,
      count-assigned (pending_create id) (stop_work c dep.deployment_id dep.service_name) s,
    );
    stops = λ id. ground (
      arith,
      h.stops id,
      count-assigned (pending_stop id) (stop_work c dep.deployment_id dep.service_name) s,
    );
    nodes = h.nodes;
    containers = h.containers;
    fresh = h.fresh;
  }

  pub stop_each-Stopped :
      (cs : List ContainerRecord) (s : ClusterState)
      → IsFresh s
      → Homed s cs
      → Stopped cs s (stop_each dep cs s).0 (stop_each dep cs s).1
  unfolding stop_each
  stop_each-Stopped [] s fresh h = record {
    returns = refl;
    grows = omega arith;
    creates = λ id. refl;
    stops = λ id. omega arith;
    nodes = refl;
    containers = refl;
    fresh = fresh;
  }
  stop_each-Stopped (c ∷ cs) s fresh h =
      subst (λ x. Stopped (c ∷ cs) s x.0 x.1) (sym (stop_each-cons c cs s fresh h.0))
        (Stopped-cons c cs s _ _ (
          stop_each-Stopped cs (stopped_one c s) (stopped_one-IsFresh c s fresh)
            (unfold add_event in h.1)))
