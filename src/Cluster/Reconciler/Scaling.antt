-- ===== src/Cluster/Reconciler/Scaling.antt =====
-- Scaling up: how many creates `_scale_up` adds, and to which counts.
use pycrate.Base.{
  ℕ, zero, suc, ◌+◌, ◌≤◌, ◌≡◌, refl, sym, ◌∙◌, ap, inl, inr, true, false, not, ◌||◌, ◌==◌, String,
  arith, str_eq, eq_refl, any, if◌then◌else◌, subst,
}
use pycrate.Base.Exec.{Result, ok, ◌>>=◌}
use pycrate.Cluster.Floats.{Floats}
use pycrate.Cluster.Types.{ClusterState, Deployment, StateError, Message, scheduled_on}
use pycrate.Cluster.State.{
  add_event, reserve_resources, count_pending_creates, pending_create, has_node,
}
use pycrate.Cluster.Validity.{Result-cases}
use pycrate.Cluster.Scheduler.{SchedulingDecision, schedule}
use pycrate.Cluster.Scheduler.Choice.{succeeds, has_room, succeeds-schedule, schedule-Chosen}
use pycrate.Cluster.Reconciler.{place, scale_up, create_work}
use pycrate.Cluster.Reconciler.Assigning.{
  IsFresh, assigned, assigned-IsFresh, create_assignment_lem, has_node_of-In, count-assigned,
}

-- What scaling leaves as it was.
pub record SameRest (s t : ClusterState) : Type 0 where
  pub containers : t.containers ≡ s.containers
  pub deployments : t.deployments ≡ s.deployments
  pub env : t.env ≡ s.env

module _ {F : Type 0} (fl : Floats F) (dep : Deployment) where
  -- The store after `place`.
  abbrev pub placed : SchedulingDecision F → ClusterState → ClusterState
  placed d s =
      add_event "container.scheduled"
        (scheduled_on dep.service_name d.node.node_id (fl.show d.score)) d.node.node_id ""
        (reserve_resources d.node.node_id dep.cpu dep.memory
          (assigned (create_work dep d.node.node_id) s))

  pub place_lem :
      (d : SchedulingDecision F) (s : ClusterState)
      → IsFresh s
      → has_node d.node.node_id s.nodes ≡ true
      → place fl dep d s ≡ (ok tt, placed d s)
  unfolding place ◌>>=◌
  place_lem d s fresh h =
      let (a, e) = create_assignment_lem (create_work dep d.node.node_id) s fresh h in rw (e, ◌>>=◌)

  pub placed-IsFresh :
      (d : SchedulingDecision F) (s : ClusterState) → IsFresh s → IsFresh (placed d s)
  unfolding add_event reserve_resources
  placed-IsFresh d s fresh =
      assigned-IsFresh (create_work dep d.node.node_id) s fresh _ (omega arith)

  -- One create more for this deployment, and none for another.
  pub count-placed :
      (id : String) (d : SchedulingDecision F) (s : ClusterState)
      → count_pending_creates id (placed d s)
        ≡ count_pending_creates id s + (if str_eq dep.deployment_id id then 1 else 0)
  unfolding add_event reserve_resources count_pending_creates
  count-placed id d s =
      ground (arith, count-assigned (pending_create id) (create_work dep d.node.node_id) s)

  pub record Scaled (n : ℕ) (s : ClusterState) (r : Result StateError Unit) (t : ClusterState)
      : Type 0 where
    pub returns : r ≡ ok tt
    pub added : ℕ
    pub bound : added ≤ n
    pub own :
        count_pending_creates dep.deployment_id t
        ≡ count_pending_creates dep.deployment_id s + added
    pub others :
        (id : String)
        → (str_eq dep.deployment_id id
            || (count_pending_creates id t == count_pending_creates id s))
          ≡ true
    pub full : (added == n || not (any (has_room dep) t.nodes)) ≡ true
    pub rest : SameRest s t
    pub fresh : IsFresh t

  Scaled-placed :
      (n : ℕ) (d : SchedulingDecision F) (s : ClusterState) (r : Result StateError Unit)
      (t : ClusterState)
      → Scaled n (placed d s) r t
      → Scaled (suc n) s r t
  unfolding add_event reserve_resources
  Scaled-placed n d s r t h = record {
    returns = h.returns;
    added = suc h.added;
    bound = omega (arith, h.bound);
    own = ground (arith, h.own, count-placed dep.deployment_id d s, eq_refl dep.deployment_id);
    others = λ id. ground (arith, h.others id, count-placed id d s);
    full = ground (arith, h.full);
    rest = record {
      containers = h.rest.containers;
      deployments = h.rest.deployments;
      env = h.rest.env;
    };
    fresh = h.fresh;
  }

  no_more-Scaled :
      (n : ℕ) (s : ClusterState) (m : Message)
      → IsFresh s
      → any (has_room dep) s.nodes ≡ false
      → Scaled n s (ok tt) (add_event "scheduler.no_capacity" m "" "" s)
  unfolding add_event count_pending_creates
  no_more-Scaled n s m fresh h = record {
    returns = refl;
    added = 0;
    bound = omega arith;
    own = omega arith;
    others = λ id. ground arith;
    full = ground arith;
    rest = record { containers = refl; deployments = refl; env = refl };
    fresh = record {
      distinct = λ j k hj hk. fresh.distinct j k (omega arith) (omega arith);
      unused = λ k hk. fresh.unused k (omega arith);
    };
  }

  pub scale_up-suc :
      (n : ℕ) (s : ClusterState) (d : SchedulingDecision F)
      → IsFresh s
      → schedule fl dep s ≡ ok d
      → scale_up fl dep (suc n) s ≡ scale_up fl dep n (placed d s)
  unfolding scale_up ◌>>=◌
  scale_up-suc n s d fresh e =
      rw (e, scale_up)
        (rw (
          place_lem d s fresh (has_node_of-In d.node s.nodes (schedule-Chosen fl dep s d e).known)))

  -- Where the ids still to be drawn are new, `scale_up` returns, never raises: it adds at most `n`
  -- pending creates for the deployment, and fewer only if at the end no healthy node has room for
  -- one more; the counts of the other deployments, the containers and the deployments stay.
  pub scale_up-Scaled :
      (n : ℕ) (s : ClusterState)
      → IsFresh s
      → Scaled n s (scale_up fl dep n s).0 (scale_up fl dep n s).1
  unfolding scale_up
  scale_up-Scaled zero s fresh = record {
    returns = refl;
    added = 0;
    bound = omega arith;
    own = omega arith;
    others = λ id. ground arith;
    full = refl;
    rest = record { containers = refl; deployments = refl; env = refl };
    fresh = fresh;
  }
  scale_up-Scaled (suc n) s fresh = elim (Result-cases (schedule fl dep s)) [
    | inl (d, e) ↦
        subst (λ x. Scaled (suc n) s x.0 x.1) (sym (scale_up-suc n s d fresh e))
          (Scaled-placed n d s _ _ (scale_up-Scaled n (placed d s) (placed-IsFresh d s fresh)))
    | inr (x, e) ↦
        rw (e, scale_up)
          (no_more-Scaled (suc n) s _ fresh (sym (succeeds-schedule fl dep s) ∙ ap succeeds e))
  ]
