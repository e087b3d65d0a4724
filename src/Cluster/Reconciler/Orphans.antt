-- ===== src/Cluster/Reconciler/Orphans.antt =====
-- `_cleanup_orphans`: running containers whose deployment is not in the table.
use pycrate.Base.{
  ℕ, ◌+◌, ◌≡◌, refl, inl, inr, Bool, true, false, not, ◌&&◌, ◌||◌, ◌==◌, String, List, [], ◌∷◌,
  arith, str_eq, eq_refl, eq_iff, any, count, if◌then◌else◌, Bool-cases,
}
use pycrate.Base.Exec.{Result, ok, ◌>>=◌}
use pycrate.Cluster.Types.{ClusterState, Deployment, ContainerRecord, StateError, stopping_orphan}
use pycrate.Cluster.State.{add_event, get_all_deployments, pending_stop, has_pending_stop, has_node}
use pycrate.Cluster.Reconciler.{is_orphan, stop_work, stop_orphan, stop_orphans, cleanup_orphans}
use pycrate.Cluster.Reconciler.Assigning.{
  IsFresh, assigned, assigned-IsFresh, create_assignment_lem, count-assigned,
}
use pycrate.Cluster.Reconciler.Stopping.{Homed}

abbrev stops : String → ClusterState → ℕ
stops id s = count (pending_stop id) s.assignments

-- No stop was added for the container, or the first one.
abbrev pub at_most_first : String → ClusterState → ClusterState → Bool
at_most_first id s t = stops id t == stops id s || (stops id s == 0 && stops id t == 1)

pub record Cleaned (ds : List Deployment) (cs : List ContainerRecord) (s : ClusterState)
    (r : Result StateError Unit) (t : ClusterState) : Type 0 where
  pub returns : r ≡ ok tt
  pub covered : any (λ c. is_orphan ds c && not (has_pending_stop c.container_id t)) cs ≡ false
  pub once : (id : String) → at_most_first id s t ≡ true
  pub nodes : t.nodes ≡ s.nodes

abbrev stopped_orphan : ContainerRecord → ClusterState → ClusterState
stopped_orphan c s =
    add_event "container.orphaned" stopping_orphan c.node_id c.container_id
      (assigned (stop_work c "" c.service_name) s)

stop_orphan_lem :
    (c : ContainerRecord) (s : ClusterState)
    → IsFresh s
    → has_node c.node_id s.nodes ≡ true
    → stop_orphan c s ≡ (ok tt, stopped_orphan c s)
unfolding stop_orphan ◌>>=◌
stop_orphan_lem c s fresh h =
    let (a, e) = create_assignment_lem (stop_work c "" c.service_name) s fresh h in rw (e, ◌>>=◌)

stops-stopped :
    (id : String) (c : ContainerRecord) (s : ClusterState)
    → stops id (stopped_orphan c s) ≡ stops id s + (if str_eq c.container_id id then 1 else 0)
unfolding add_event
stops-stopped id c s =
    ground (arith, count-assigned (pending_stop id) (stop_work c "" c.service_name) s)

stopped_orphan-IsFresh :
    (c : ContainerRecord) (s : ClusterState) → IsFresh s → IsFresh (stopped_orphan c s)
unfolding add_event
stopped_orphan-IsFresh c s fresh =
    assigned-IsFresh (stop_work c "" c.service_name) s fresh _ (omega arith)

module _ (ds : List Deployment) where
  -- The container at the head of the loop is passed over.
  skip-Cleaned :
      (c : ContainerRecord) (cs : List ContainerRecord) (s : ClusterState)
      (r : Result StateError Unit) (t : ClusterState)
      → (is_orphan ds c && not (has_pending_stop c.container_id s)) ≡ false
      → Cleaned ds cs s r t
      → Cleaned ds (c ∷ cs) s r t
  unfolding has_pending_stop
  skip-Cleaned c cs s r t e h = record {
    returns = h.returns;
    covered = ground (arith, h.covered, h.once c.container_id);
    once = h.once;
    nodes = h.nodes;
  }

  stop-Cleaned :
      (c : ContainerRecord) (cs : List ContainerRecord) (s : ClusterState)
      (r : Result StateError Unit) (t : ClusterState)
      → (is_orphan ds c && not (has_pending_stop c.container_id s)) ≡ true
      → Cleaned ds cs (stopped_orphan c s) r t
      → Cleaned ds (c ∷ cs) s r t
  unfolding has_pending_stop add_event
  stop-Cleaned c cs s r t e h = record {
    returns = h.returns;
    covered = ground (
      arith,
      h.covered,
      h.once c.container_id,
      stops-stopped c.container_id c s,
      eq_refl c.container_id,
    );
    once = λ id. ground (arith, h.once id, stops-stopped id c s, eq_iff c.container_id id);
    nodes = h.nodes;
  }

  stop_orphans-Cleaned :
      (cs : List ContainerRecord) (s : ClusterState)
      → IsFresh s
      → Homed s cs
      → Cleaned ds cs s (stop_orphans ds cs s).0 (stop_orphans ds cs s).1
  unfolding stop_orphans ◌>>=◌
  stop_orphans-Cleaned [] s fresh h = record {
    returns = refl;
    covered = refl;
    once = λ id. ground arith;
    nodes = refl;
  }
  stop_orphans-Cleaned (c ∷ cs) s fresh h =
      elim (Bool-cases (is_orphan ds c && not (has_pending_stop c.container_id s))) [
        | inr e ↦
            rw (e, stop_orphans) (skip-Cleaned c cs s _ _ e (stop_orphans-Cleaned cs s fresh h.1))
        | inl e ↦
            rw (e, stop_orphans)
              (rw (stop_orphan_lem c s fresh h.0, ◌>>=◌)
                (stop-Cleaned c cs s _ _ e (
                  stop_orphans-Cleaned cs (stopped_orphan c s) (stopped_orphan-IsFresh c s fresh)
                    (unfold add_event in h.1))))
      ]

-- Where the ids still to be drawn are new and the containers are on nodes of the store, the clean-
-- up returns; after it every running container that names a deployment that is not there has a
-- pending stop; no container that has one gets another, and none gets two.
pub cleanup_orphans-Cleaned :
    (all : List ContainerRecord) (s : ClusterState)
    → IsFresh s
    → Homed s all
    → Cleaned (get_all_deployments s) all s (cleanup_orphans all s).0 (cleanup_orphans all s).1
unfolding cleanup_orphans
cleanup_orphans-Cleaned all s fresh h = stop_orphans-Cleaned (get_all_deployments s) all s fresh h
