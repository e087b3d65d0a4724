-- ===== src/Cluster/Reconciler.antt =====
-- cluster/reconciler.py: the passes that compare the deployments with the containers. The thread,
-- its stop event and the timing of a pass are not modelled.
pub mod Runs
pub mod Assigning
pub mod Scaling
pub mod Stopping
pub mod Converge
pub mod Failures
pub mod Orphans
pub mod Capacity
use pycrate.Base.{
  ℕ, zero, suc, ◌+◌, ◌-◌, ◌%◌, Bool, true, false, not, ◌&&◌, ◌||◌, String, List, [], ◌∷◌, ◌++◌, ltb,
  ◌==◌, select, sort, take, any, map, length, str_eq, if◌then◌else◌,
}
use pycrate.Base.Exec.{Exec, Result, ok, err, ◌>>=◌, ◌>>◌, pure}
use pycrate.Cluster.Floats.{Floats}
use pycrate.Cluster.Types.{
  ClusterState, NodeInfo, Deployment, ContainerRecord, is_running, Work, create, stop, default_work,
  StateError, lost_with_node, scheduled_on, cannot_schedule, stopping_excess, stopping_orphan,
  pass_failed,
}
use pycrate.Cluster.State.{
  add_event, cleanup_old_events, check_node_health, update_master_heartbeat, reserve_resources,
  get_all_deployments, get_all_containers, get_containers_for_node, mark_container_lost,
  of_deployment, create_assignment, clear_old_assignments, count_pending_creates, has_pending_stop,
}
use pycrate.Cluster.Scheduler.{SchedulingDecision, schedule}

-- A method of the store that cannot raise, as an action.
abbrev pub modify : (ClusterState → ClusterState) → Exec StateError ClusterState Unit
modify f s = (ok tt, f s)

abbrev pub is_live : ContainerRecord → Bool
is_live c = is_running c || str_eq c.status "starting"

-- The loop over the containers of one failed node.
unfoldable pub lose_all : String → List ContainerRecord → ClusterState → ClusterState
lose_all node_id [] s = s
lose_all node_id (c ∷ cs) s = lose_all node_id cs (
    if is_live c
    then add_event "container.lost" (lost_with_node node_id) node_id c.container_id
        (mark_container_lost c.container_id s)
    else s)

unfoldable pub handle_node_failures : List String → ClusterState → ClusterState
unfolding lose_all
handle_node_failures [] s = s
handle_node_failures (node_id ∷ rest) s =
    handle_node_failures rest (lose_all node_id (get_containers_for_node node_id s) s)

abbrev pub stop_work : ContainerRecord → String → String → Work
stop_work c deployment_id service_name = record (default_work c.node_id stop) {
  deployment_id = deployment_id;
  container_id = c.container_id;
  service_name = service_name;
}

-- The loop of `_scale_down`.
unfoldable pub stop_each : Deployment → List ContainerRecord → Exec StateError ClusterState Unit
stop_each dep [] = pure tt
stop_each dep (c ∷ cs) = do
  create_assignment (stop_work c dep.deployment_id dep.service_name)
  modify (
      add_event "container.scaling_down" (stopping_excess dep.service_name) c.node_id
        c.container_id)
  stop_each dep cs

-- `sorted(running, key=started_at, reverse=True)[:count]`: the newest first.
unfoldable pub scale_down :
    Deployment → List ContainerRecord → ℕ → Exec StateError ClusterState Unit
unfolding stop_each
scale_down dep running count =
    stop_each dep (take count (sort (λ a b. ltb b.started_at a.started_at) running))

abbrev pub is_orphan : List Deployment → ContainerRecord → Bool
is_orphan deployments c =
    is_running c
    && (not (str_eq c.deployment_id "")
        && not (any (λ d. str_eq d.deployment_id c.deployment_id) deployments))

unfoldable pub stop_orphan : ContainerRecord → Exec StateError ClusterState Unit
stop_orphan c = do
  create_assignment (stop_work c "" c.service_name)
  modify (add_event "container.orphaned" stopping_orphan c.node_id c.container_id)

-- The loop of `_cleanup_orphans`, over the containers that the pass read before it scaled.
unfoldable pub stop_orphans :
    List Deployment → List ContainerRecord → Exec StateError ClusterState Unit
unfolding stop_orphan
stop_orphans deployments [] s = (ok tt, s)
stop_orphans deployments (c ∷ cs) s =
    ((if is_orphan deployments c && not (has_pending_stop c.container_id s)
          then stop_orphan c
          else pure tt)
        >> stop_orphans deployments cs)
      s

unfoldable pub cleanup_orphans : List ContainerRecord → Exec StateError ClusterState Unit
unfolding stop_orphans
cleanup_orphans all_containers s = stop_orphans (get_all_deployments s) all_containers s

abbrev pub create_work : Deployment → String → Work
create_work dep node_id = record (default_work node_id create) {
  deployment_id = dep.deployment_id;
  service_name = dep.service_name;
  image = dep.image;
  command = dep.command;
  cpu = dep.cpu;
  memory = dep.memory;
  env = dep.env;
}

abbrev pub running_of : Deployment → List ContainerRecord → List ContainerRecord
running_of dep = select (λ c. of_deployment dep.deployment_id c && is_running c)

-- `_check_node_health` and `_handle_node_failures`, phases 0 to 2.
unfoldable pub refresh_nodes : String → ClusterState → ClusterState
refresh_nodes master_id s =
    let alive = if not (str_eq master_id "") then update_master_heartbeat master_id s else s in
    let (checked, unhealthy) = check_node_health alive in handle_node_failures unhealthy checked

unfoldable pub maintain : ℕ → ClusterState → ClusterState
maintain pass_count s =
    if pass_count % 60 == 0 then cleanup_old_events (clear_old_assignments s) else s

-- The handler of `_run_loop`: an error that a pass did not catch is recorded as an event.
unfoldable pub record_error : ℕ → Result StateError Unit → ClusterState → ClusterState
record_error pass_count (ok _) s = s
record_error pass_count (err e) s = add_event "reconciler.error" (pass_failed pass_count) "" "" s

module _ {F : Type 0} (fl : Floats F) where
  -- What `_scale_up` does with a decision.
  unfoldable pub place : Deployment → SchedulingDecision F → Exec StateError ClusterState Unit
  place dep d = do
    create_assignment (create_work dep d.node.node_id)
    modify (reserve_resources d.node.node_id dep.cpu dep.memory)
    modify (
        add_event "container.scheduled"
          (scheduled_on dep.service_name d.node.node_id (fl.show d.score)) d.node.node_id "")

  -- `NoCapacityError` ends the loop.
  unfoldable pub scale_up : Deployment → ℕ → Exec StateError ClusterState Unit
  unfolding place
  scale_up dep zero s = (ok tt, s)
  scale_up dep (suc count) s = elim (schedule fl dep s) [
    | ok d ↦ (place dep d >> scale_up dep count) s
    | err e ↦ (
      ok tt,
      add_event "scheduler.no_capacity"
          (cannot_schedule dep.service_name dep.cpu dep.memory e.reason) "" "" s,
    )
  ]

  -- The two tests on `deficit`, the replicas less the effective count.
  unfoldable pub rescale : Deployment → List ContainerRecord → ℕ → Exec StateError ClusterState Unit
  rescale dep running effective_count =
      if ltb effective_count dep.replicas
      then scale_up dep (dep.replicas - effective_count)
      else if ltb dep.replicas effective_count
      then scale_down dep running (effective_count - dep.replicas)
      else pure tt

  unfoldable pub reconcile_deployment :
      List ContainerRecord → Deployment → Exec StateError ClusterState Unit
  unfolding rescale
  reconcile_deployment all_containers dep s =
      let running = running_of dep all_containers in
      rescale dep running (length running + count_pending_creates dep.deployment_id s) s

  unfoldable pub reconcile_each :
      List ContainerRecord → List Deployment → Exec StateError ClusterState Unit
  reconcile_each all_containers [] = pure tt
  reconcile_each all_containers (dep ∷ deps) =
      reconcile_deployment all_containers dep >> reconcile_each all_containers deps

  unfoldable pub reconcile_deployments : List ContainerRecord → Exec StateError ClusterState Unit
  unfolding reconcile_each reconcile_deployment
  reconcile_deployments all_containers s = reconcile_each all_containers (get_all_deployments s) s

  unfoldable pub reconcile : String → ℕ → Exec StateError ClusterState Unit
  unfolding refresh_nodes maintain reconcile_deployments cleanup_orphans
  reconcile master_id pass_count s =
      let checked = refresh_nodes master_id s in
      let all_containers = get_all_containers checked in
      (do
        reconcile_deployments all_containers
        cleanup_orphans all_containers
        modify (maintain pass_count))
        checked

  -- One turn of `_run_loop`.
  unfoldable pub run_pass : String → ℕ → ClusterState → ClusterState × ℕ
  unfolding reconcile record_error
  run_pass master_id pass_count s =
      let (r, s') = reconcile master_id pass_count s in
      (record_error pass_count r s', suc pass_count)
