-- ===== src/Cluster/Reconciler/Runs.antt =====
-- A pass of the reconciler, also one that is cut short by an error, is a sequence of calls of the
-- store: so what holds after every sequence of calls holds after it.
use pycrate.Base.{
  ℕ, zero, suc, ltb, ◌-◌, inl, inr, Bool, true, false, not, String, List, [], ◌∷◌, str_eq,
  if◌then◌else◌,
}
use pycrate.Base.Exec.{Exec, Result, ok, err, continue, ◌>>=◌, pure}
use pycrate.Cluster.Floats.{Floats}
use pycrate.Cluster.Types.{ClusterState, Deployment, ContainerRecord, StateError}
use pycrate.Cluster.State.{
  check_node_health, clock_read, mark_all_unhealthy, update_master_heartbeat,
  get_containers_for_node,
}
use pycrate.Cluster.Validity.{IsValid, Result-cases}
use pycrate.Cluster.Validity.Steps
use pycrate.Cluster.Validity.Steps.{Step, Reach, here, next, Reach-trans, Reach-IsValid}
use pycrate.Cluster.Scheduler.{SchedulingDecision, schedule}
use pycrate.Cluster.Reconciler.{
  lose_all, handle_node_failures, stop_each, scale_down, stop_orphan, stop_orphans, cleanup_orphans,
  place, scale_up, rescale, reconcile_deployment, reconcile_each, reconcile_deployments,
  refresh_nodes, maintain, reconcile, run_pass, is_live, record_error,
}

abbrev Runs : {A : Type 0} → Exec StateError ClusterState A → Type 0
Runs m = (s : ClusterState) → Reach s (m s).1

one : {s t : ClusterState} → Step s t → Reach s t
one st = next here st

Runs-continue :
    {A B : Type 0} (f : A → Exec StateError ClusterState B) (r : Result StateError A)
    → ((a : A) → Runs (f a))
    → (s : ClusterState) → Reach s (continue r f s).1
Runs-continue f (ok a) h s = h a s
Runs-continue f (err e) h s = here

Runs-bind :
    {A B : Type 0} (m : Exec StateError ClusterState A) (f : A → Exec StateError ClusterState B)
    → Runs m
    → ((a : A) → Runs (f a))
    → Runs (m >>= f)
unfolding ◌>>=◌
Runs-bind m f hm hf s = Reach-trans (hm s) (Runs-continue f (m s).0 hf (m s).1)

Runs-stop_orphan : (c : ContainerRecord) → Runs (stop_orphan c)
unfolding stop_orphan
Runs-stop_orphan c =
    Runs-bind _ _ (λ s. one (Steps.assigns _)) (λ _ s. one (Steps.adds_event _ _ _ _))

if-Reach :
    {s : ClusterState} (b : Bool) (t u : ClusterState)
    → Reach s t
    → Reach s u
    → Reach s (if b then t else u)
if-Reach true t u h k = h
if-Reach false t u h k = k

Runs-if :
    {A : Type 0} (b : Bool) (m n : Exec StateError ClusterState A)
    → Runs m
    → Runs n
    → Runs (if b then m else n)
Runs-if true m n h k = h
Runs-if false m n h k = k

lose_all-Reach :
    (node : String) (cs : List ContainerRecord) (s : ClusterState) → Reach s (lose_all node cs s)
unfolding lose_all
lose_all-Reach node [] s = here
lose_all-Reach node (c ∷ cs) s =
    Reach-trans
      (if-Reach (is_live c) _ s (next (one (Steps.loses c.container_id)) (Steps.adds_event _ _ _ _))
        here)
      (lose_all-Reach node cs _)

handle_node_failures-Reach :
    (ids : List String) (s : ClusterState) → Reach s (handle_node_failures ids s)
unfolding handle_node_failures
handle_node_failures-Reach [] s = here
handle_node_failures-Reach (id ∷ ids) s =
    Reach-trans (lose_all-Reach id (get_containers_for_node id s) s)
      (handle_node_failures-Reach ids _)

mark_all_unhealthy-Reach :
    (ids : List String) (s : ClusterState) → Reach s (mark_all_unhealthy ids s)
unfolding mark_all_unhealthy
mark_all_unhealthy-Reach [] s = here
mark_all_unhealthy-Reach (id ∷ ids) s =
    Reach-trans (one (Steps.marks_unhealthy id)) (mark_all_unhealthy-Reach ids _)

check_node_health-Reach : (s : ClusterState) → Reach s (check_node_health s).0
unfolding check_node_health
check_node_health-Reach s =
    Reach-trans (one Steps.reads_clock)
      (mark_all_unhealthy-Reach (check_node_health s).1 (clock_read s))

refresh_nodes-Reach : (master : String) (s : ClusterState) → Reach s (refresh_nodes master s)
unfolding refresh_nodes
refresh_nodes-Reach master s =
    let alive = if not (str_eq master "") then update_master_heartbeat master s else s in
    Reach-trans (if-Reach (not (str_eq master "")) _ s (one (Steps.beats_master master)) here) (
      Reach-trans (check_node_health-Reach alive)
        (handle_node_failures-Reach (check_node_health alive).1 _))

Runs-stop_each : (dep : Deployment) (cs : List ContainerRecord) → Runs (stop_each dep cs)
unfolding stop_each
Runs-stop_each dep [] s = here
Runs-stop_each dep (c ∷ cs) s =
    Runs-bind _ _ (λ t. one (Steps.assigns _))
      (λ _. Runs-bind _ _ (λ t. one (Steps.adds_event _ _ _ _)) (λ _. Runs-stop_each dep cs)) s

Runs-stop_orphans : (ds : List Deployment) (cs : List ContainerRecord) → Runs (stop_orphans ds cs)
unfolding stop_orphans
Runs-stop_orphans ds [] s = here
Runs-stop_orphans ds (c ∷ cs) s =
    Runs-bind _ _ (Runs-if _ (stop_orphan c) _ (Runs-stop_orphan c) (λ t. here))
      (λ _. Runs-stop_orphans ds cs) s

maintain-Reach : (n : ℕ) (s : ClusterState) → Reach s (maintain n s)
unfolding maintain
maintain-Reach n s = if-Reach _ _ s (next (one Steps.clears) Steps.cleans_events) here

record_error-Reach :
    (n : ℕ) (r : Result StateError Unit) (s : ClusterState) → Reach s (record_error n r s)
unfolding record_error
record_error-Reach n (ok _) s = here
record_error-Reach n (err e) s = one (Steps.adds_event _ _ _ _)

module _ {F : Type 0} (fl : Floats F) where
  Runs-place : (dep : Deployment) (d : SchedulingDecision F) → Runs (place fl dep d)
  unfolding place
  Runs-place dep d =
      Runs-bind _ _ (λ s. one (Steps.assigns _))
        (λ _.
          Runs-bind _ _ (λ s. one (Steps.reserves _ _ _)) (λ _ s. one (Steps.adds_event _ _ _ _)))

  Runs-scale_up : (dep : Deployment) (n : ℕ) → Runs (scale_up fl dep n)
  unfolding scale_up
  Runs-scale_up dep zero s = here
  Runs-scale_up dep (suc n) s = elim (Result-cases (schedule fl dep s)) [
    | inl (d, e) ↦ rw (e, scale_up) (Runs-bind _ _ (Runs-place dep d) (λ _. Runs-scale_up dep n) s)
    | inr (x, e) ↦ rw (e, scale_up) (one (Steps.adds_event _ _ _ _))
  ]

  Runs-rescale :
      (dep : Deployment) (running : List ContainerRecord) (n : ℕ) → Runs (rescale fl dep running n)
  unfolding rescale scale_down
  Runs-rescale dep running n =
      Runs-if (ltb n dep.replicas) (scale_up fl dep (dep.replicas - n)) _
        (Runs-scale_up dep (dep.replicas - n))
        (Runs-if (ltb dep.replicas n) (scale_down dep running (n - dep.replicas)) (pure tt)
          (λ t. Runs-stop_each dep _ t) (λ t. here))

  Runs-reconcile_deployment :
      (all : List ContainerRecord) (dep : Deployment) → Runs (reconcile_deployment fl all dep)
  unfolding reconcile_deployment
  Runs-reconcile_deployment all dep s = Runs-rescale dep _ _ s

  Runs-reconcile_each :
      (all : List ContainerRecord) (deps : List Deployment) → Runs (reconcile_each fl all deps)
  unfolding reconcile_each
  Runs-reconcile_each all [] s = here
  Runs-reconcile_each all (dep ∷ deps) s =
      Runs-bind _ _ (Runs-reconcile_deployment all dep) (λ _. Runs-reconcile_each all deps) s

  Runs-reconcile : (master : String) (n : ℕ) → Runs (reconcile fl master n)
  unfolding reconcile reconcile_deployments cleanup_orphans
  Runs-reconcile master n s = Reach-trans (refresh_nodes-Reach master s) (
      Runs-bind _ _ (λ t. Runs-reconcile_each _ _ t)
        (λ _. Runs-bind _ _ (λ t. Runs-stop_orphans _ _ t) (λ _ t. maintain-Reach n t)) _)

  -- A turn of the reconciler's loop, whatever the state and also if the pass raises, only calls
  -- methods of the store, one after the other.
  pub run_pass-Reach :
      (master : String) (n : ℕ) (s : ClusterState) → Reach s (run_pass fl master n s).0
  unfolding run_pass
  run_pass-Reach master n s =
      Reach-trans (Runs-reconcile master n s)
        (record_error-Reach n (reconcile fl master n s).0 (reconcile fl master n s).1)

  -- Where the constraints of the tables hold, they hold after a turn of the reconciler's loop.
  run_pass-IsValid :
      (master : String) (n : ℕ) (s : ClusterState) → IsValid s → IsValid (run_pass fl master n s).0
  run_pass-IsValid master n s v = Reach-IsValid (run_pass-Reach master n s) v
