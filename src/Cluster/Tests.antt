-- ===== src/Cluster/Tests.antt =====
-- The theorems of the cluster at concrete stores.
use pycrate.Base.{
  ◌+◌, ◌*◌, ◌≤◌, ◌≡◌, refl, true, false, not, ◌||◌, ◌==◌, String, [], ◌∷◌, none, some, any, leb→le,
  ltb→lt, map, select, count, All, ltb, sort, drop,
}
use pycrate.Base.Exec.{ok}
use pycrate.Cluster.Table.{update}
use pycrate.Cluster.Types.{ClusterState, worker}
use pycrate.Cluster.State.{
  count_pending_creates, Reported, Resources, get_containers_for_node, get_healthy_nodes,
  get_all_nodes, is_container, pending_stop, check_node_health, update_heartbeat,
  get_all_deployments, timed_out, create_deployment, register_node,
}
use pycrate.Cluster.Validity.Steps.{initial}
use pycrate.Cluster.Scheduler.{
  schedule, decide_on, schedule_among, pick, eligible, score_node, percent_free, running_on,
}
use pycrate.Cluster.Scheduler.Choice.{
  succeeds, has_room, succeeds-schedule, Chosen, schedule-Chosen,
}
use pycrate.Cluster.Reconciler.{scale_up, cleanup_orphans, handle_node_failures, running_of}
use pycrate.Cluster.Reconciler.Scaling.{Scaled, scale_up-Scaled}
use pycrate.Cluster.Reconciler.Capacity.{InBudget, scale_up-InBudget}
use pycrate.Cluster.Reconciler.Converge.{
  effective, pass, excess, pass-fills, pass-trims, pass-trims_twice,
}
use pycrate.Cluster.Reconciler.Orphans.{Cleaned, cleanup_orphans-Cleaned}
use pycrate.Cluster.Reconciler.Failures.{
  cutoff, marked, lost, failed, check_node_health_lem, handle_node_failures_lem,
}
use pycrate.Cluster.Reports.{Heard, update_heartbeat-Heard}
use pycrate.Cluster.Samples.{thousandths, env, node, web, containers, store, store-IsFresh}

-- Three replicas are asked for and two run: one create.
pass-fills_example :
    ((pass thousandths containers (web 3) store).0 ≡ ok tt)
    × (effective thousandths containers (web 3) (pass thousandths containers (web 3) store).1 ≤ 3)
    × ((effective thousandths containers (web 3) (pass thousandths containers (web 3) store).1 == 3
          || not (any (has_room (web 3)) (pass thousandths containers (web 3) store).1.nodes))
        ≡ true)
unfolding count_pending_creates
pass-fills_example = pass-fills thousandths containers (web 3) store store-IsFresh (leb→le 2 3 refl)

schedule-Chosen_example :
    Chosen thousandths (web 3) store (decide_on thousandths (web 3) store (node "w2" worker 20 20))
unfolding schedule schedule_among pick eligible get_healthy_nodes get_all_nodes score_node
    percent_free running_on get_containers_for_node
schedule-Chosen_example =
    schedule-Chosen thousandths (web 3) store
      (decide_on thousandths (web 3) store (node "w2" worker 20 20)) refl

succeeds-schedule_example :
    succeeds (schedule thousandths (web 3) store) ≡ any (has_room (web 3)) store.nodes
succeeds-schedule_example = succeeds-schedule thousandths (web 3) store

scale_up-Scaled_example :
    Scaled thousandths
      (web 3)
      4
      store
      (scale_up thousandths (web 3) 4 store).0
      (scale_up thousandths (web 3) 4 store).1
scale_up-Scaled_example = scale_up-Scaled thousandths (web 3) 4 store store-IsFresh

scale_up-InBudget_example : All InBudget (scale_up thousandths (web 3) 9 store).1.nodes
scale_up-InBudget_example =
    scale_up-InBudget thousandths (web 3) 9 store store-IsFresh (refl, (refl, (refl, tt)))
      (
        (leb→le 10 100 refl, leb→le 64 1024 refl),
        (
          (leb→le 40 100 refl, leb→le 64 1024 refl),
          ((leb→le 20 100 refl, leb→le 64 1024 refl), tt),
        ),
      )

-- One replica is asked for and two run.
pass-trims_example :
    ((pass thousandths containers (web 1) store).0 ≡ ok tt)
    × (effective thousandths containers (web 1) (pass thousandths containers (web 1) store).1
        ≡ effective thousandths containers (web 1) store)
    × ((id : String)
        → count (pending_stop id) (pass thousandths containers (web 1) store).1.assignments
          ≡ count (pending_stop id) store.assignments
            + count (is_container id) (excess thousandths containers (web 1) store))
    × All
        (λ c.
          All
            (λ k. ltb c.started_at k.started_at ≡ false)
            (drop 1 (sort (λ a b. ltb b.started_at a.started_at) (running_of (web 1) containers))))
        (excess thousandths containers (web 1) store)
unfolding count_pending_creates
pass-trims_example =
    pass-trims thousandths containers (web 1) store store-IsFresh (refl, (refl, (refl, tt)))
      (ltb→lt 1 2 refl)

pass-trims_twice_example :
    count
      (pending_stop "c2")
      (pass thousandths containers
        (web 1)
        (pass thousandths containers (web 1) store).1).1.assignments
    ≡ count (pending_stop "c2") store.assignments
      + 2 * count (is_container "c2") (excess thousandths containers (web 1) store)
unfolding count_pending_creates
pass-trims_twice_example =
    pass-trims_twice thousandths containers (web 1) store store-IsFresh (refl, (refl, (refl, tt)))
      (ltb→lt 1 2 refl) "c2"

cleanup_orphans-Cleaned_example :
    Cleaned
      (get_all_deployments store)
      containers
      store
      (cleanup_orphans containers store).0
      (cleanup_orphans containers store).1
cleanup_orphans-Cleaned_example =
    cleanup_orphans-Cleaned containers store store-IsFresh (refl, (refl, (refl, tt)))

check_node_health_example :
    ((check_node_health store).0.nodes ≡ update (timed_out (cutoff store)) marked store.nodes)
    × ((check_node_health store).1
        ≡ map (λ n. n.node_id) (select (timed_out (cutoff store)) store.nodes))
check_node_health_example = check_node_health_lem store (refl, (refl, (refl, tt)))

handle_node_failures_example :
    (handle_node_failures ("w2" ∷ []) store).containers
    ≡ update (failed ("w2" ∷ [])) lost store.containers
handle_node_failures_example = handle_node_failures_lem ("w2" ∷ []) store (refl, (refl, (refl, tt)))

-- A worker joins, and a service is deployed.
abbrev two_calls : ClusterState
two_calls =
    (create_deployment (web 2) (register_node "w1" "10.0.0.1" worker 100 1024 (initial env)).0).1

abbrev report : Reported
report = record {
  container_id = some "c1";
  deployment_id = some "d1";
  name = some "web";
  service_name = none;
  status = some "running";
  pid = some 4242;
  cpu_limit_percent = some 20;
  memory_limit_mb = some 64;
  health = none;
  started_at = some 20;
}

abbrev used : Resources
used = record { cpu_used = some 35; memory_used = some 128 }

-- The second worker reports a container that the store has on the first.
update_heartbeat-Heard_example :
    Heard "w2"
      (report ∷ [])
      used
      store
      (update_heartbeat "w2" (report ∷ []) used store).0
      (update_heartbeat "w2" (report ∷ []) used store).1
update_heartbeat-Heard_example = update_heartbeat-Heard "w2" (report ∷ []) used store refl
