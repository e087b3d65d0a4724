-- ===== src/Cluster/Master/Handlers.antt =====
-- The endpoints of `create_master_app`, and the thread of a rollout.
use Prim.Native.String.{◌++◌ as ◌++ₛ◌}
use pycrate.Base.{pos, ℕ, ◌-◌, String, List, [], ◌∷◌, ◌++◌, Option, none, some, map, length, drop}
use pycrate.Base.Exec.{Exec, ok, err}
use pycrate.Cluster.Floats.{Floats}
use pycrate.Cluster.Types.{ClusterState, Role, Deployment}
use pycrate.Cluster.State
use pycrate.Cluster.State.{
  now, clock_read, get_node, get_or, register_node, update_heartbeat, get_pending_assignments,
  acknowledge_assignment, get_deployment, update_replicas, get_all_deployments, get_all_nodes,
  node_line, get_cluster_summary, get_recent_events,
}
use pycrate.Cluster.Scheduler.{get_capacity_report}
use pycrate.Cluster.Deploy.{RolloutStatus}
use pycrate.Cluster.Deploy.Update.{or_text, get_rollout_status, update}
use pycrate.Cluster.Master.{
  JoinRequest, HeartbeatRequest, DeployBody, DeployRequest, RolloutRequest, RolloutReport,
  HttpError, node_not_found, node_not_registered, deployment_not_found, internal_server_error,
  validated, replicas_not_negative, DeploymentRow, Answer, Master, state, with_state,
}
use pycrate.Base.{ℤ}

abbrev pub Handler : Type 0
Handler = Exec HttpError Master Answer

unfoldable pub join_cluster : JoinRequest → Handler
join_cluster req m =
    let (s, found) =
      register_node req.node_id req.address Role.worker (get_or req.cpu_total 100)
        (get_or req.memory_total 1024) (state m) in
    elim found [
      | none ↦ (err internal_server_error, with_state s m)
      | some node ↦ (ok (Answer.node_joined m.master_id node.node_id), with_state s m)
    ]

unfoldable pub remove_node : String → Handler
remove_node node_id m = elim (get_node node_id (state m)) [
  | none ↦ (err (node_not_found node_id), m)
  | some node ↦
      (ok (Answer.node_removed node_id), with_state (State.remove_node node_id (state m)) m)
]

-- What the store raises is no `HTTPException`.
unfoldable pub heartbeat : HeartbeatRequest → Handler
heartbeat req m = elim (get_node req.node_id (state m)) [
  | none ↦ (err (node_not_registered req.node_id), m)
  | some node ↦
      (let (result, s) = update_heartbeat req.node_id req.containers req.resources (state m) in
        elim result [
          | err e ↦ (err internal_server_error, with_state s m)
          | ok _ ↦ (ok (Answer.alive (now s)), with_state (clock_read s) m)
        ])
]

unfoldable pub get_assignments : String → Handler
get_assignments node_id m = elim (get_node node_id (state m)) [
  | none ↦ (err (node_not_registered node_id), m)
  | some node ↦ (ok (Answer.work_to_do (get_pending_assignments node_id (state m))), m)
]

unfoldable pub acknowledge_each : List String → ClusterState → ClusterState
acknowledge_each [] s = s
acknowledge_each (aid ∷ rest) s = acknowledge_each rest (acknowledge_assignment aid s)

unfoldable pub ack_assignments : List String → Handler
unfolding acknowledge_each
ack_assignments ids m =
    (ok (Answer.acknowledged (length ids)), with_state (acknowledge_each ids (state m)) m)

-- Draws the id, then reads the two times.
abbrev pub deployment_of : DeployRequest → ClusterState → Deployment
deployment_of req s = record {
  deployment_id = "dep-" ++ₛ s.env.token s.calls;
  service_name = req.service_name;
  image = req.image;
  command = req.command;
  replicas = req.replicas;
  cpu = req.cpu;
  memory = req.memory;
  restart = req.restart;
  env = req.env;
  health_check = req.health_check;
  created_at = now (clock_read s);
  updated_at = now (clock_read (clock_read s));
}

abbrev pub thrice_read : ClusterState → ClusterState
thrice_read s = clock_read (clock_read (clock_read s))

unfoldable pub create_deployment : DeployBody → Handler
create_deployment body m = elim (validated body) [
  | err e ↦ (err e, m)
  | ok req ↦
      (let dep = deployment_of req (state m) in
        let (result, s) = State.create_deployment dep (thrice_read (state m)) in
        elim result [
          | err e ↦ (err internal_server_error, with_state s m)
          | ok _ ↦
              (ok (Answer.deployment_created dep.deployment_id dep.service_name), with_state s m)
        ])
]

unfoldable pub scale_deployment : String → ℤ → Handler
scale_deployment service_name replicas m = elim (replicas_not_negative replicas) [
  | err e ↦ (err e, m)
  | ok n ↦ elim (get_deployment service_name (state m)) [
    | none ↦ (err (deployment_not_found service_name), m)
    | some dep ↦ (
      ok (Answer.deployment_scaled service_name n),
      with_state (update_replicas service_name n (state m)) m,
    )
  ]
]

unfoldable pub delete_deployment : String → Handler
delete_deployment service_name m = elim (get_deployment service_name (state m)) [
  | none ↦ (err (deployment_not_found service_name), m)
  | some dep ↦ (
    ok (Answer.deployment_deleted service_name),
    with_state (State.delete_deployment service_name (state m)) m,
  )
]

abbrev pub deployment_row : Deployment → DeploymentRow
deployment_row d = record {
  deployment_id = d.deployment_id;
  service_name = d.service_name;
  image = d.image;
  replicas = d.replicas;
  cpu = d.cpu;
  memory = d.memory;
}

abbrev pub list_deployments : Handler
list_deployments m =
    (ok (Answer.deployments (map deployment_row (get_all_deployments (state m)))), m)

abbrev pub cluster_status : Handler
cluster_status m = (ok (Answer.cluster (get_cluster_summary (state m)) m.master_id), m)

abbrev pub list_nodes : Handler
list_nodes m = (ok (Answer.nodes (map node_line (get_all_nodes (state m)))), m)

abbrev pub list_events : Option ℕ → Handler
list_events limit m = (ok (Answer.events (get_recent_events (get_or limit 50) (state m))), m)

abbrev pub capacity_report : Handler
capacity_report m = (ok (Answer.capacity (get_capacity_report (state m))), m)

-- The thread is started; it runs later.
unfoldable pub rollout_update : String → RolloutRequest → Handler
rollout_update service_name req m = elim (get_deployment service_name (state m)) [
  | none ↦ (err (deployment_not_found service_name), m)
  | some dep ↦ (
    ok (Answer.rolling_update_started service_name (or_text req.changes.new_image dep.image)),
    record m { threads = m.threads ++ (service_name, req) ∷ [] },
  )
]

-- The duration reads the clock.
abbrev pub report_of : RolloutStatus → ClusterState → RolloutReport
report_of r s = record {
  service_name = r.service_name;
  old_image = r.old_image;
  new_image = r.new_image;
  state = r.state;
  updated = r.updated;
  pending = r.pending;
  failed = r.failed;
  total = r.total_replicas;
  duration = now s - r.started_at;
  events = drop (length r.events - 10) r.events;
}

unfoldable pub rollout_status : String → Handler
rollout_status service_name m = elim (get_rollout_status service_name m.deployer) [
  | none ↦ (ok (Answer.no_active_rollout service_name), m)
  | some r ↦
      (ok (Answer.rollout_report (report_of r (state m))), with_state (clock_read (state m)) m)
]

module _ {F : Type 0} (fl : Floats F) (others : ClusterState → ClusterState) where
  -- `_run_rollout` of a thread: what `update` raises is only logged.
  unfoldable pub run_rollout : String → RolloutRequest → Master → Master
  run_rollout service_name req m = record m {
    deployer =
        (update fl others service_name req.changes (get_or req.max_surge (pos 1)) m.deployer).1;
  }
