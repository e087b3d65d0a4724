-- ===== src/Cluster/Master/Refusals.antt =====
-- What a request that is answered with an error leaves behind.
use pycrate.Base.{ℤ, ◌≡◌, refl, sym, subst, inl, inr, String, Option-cases}
use pycrate.Base.Exec.{Result, ok, err}
use pycrate.Cluster.Reports.{update_heartbeat-Heard}
use pycrate.Cluster.Types.{ClusterState, StateError, Role, Deployment}
use pycrate.Cluster.State
use pycrate.Cluster.State.{
  get_node, find_node, has_node, is_node, upsert_node, get_or, register_node, update_heartbeat,
  upsert_deployment, insert_reported, get_deployment,
}
use pycrate.Cluster.Validity.{Result-cases}
use pycrate.Cluster.Deploy.Update.{get_rollout_status}
use pycrate.Cluster.Master.{
  JoinRequest, HeartbeatRequest, DeployBody, RolloutRequest, HttpError, validated,
  replicas_not_negative, Answer, Master, state,
}
use pycrate.Cluster.Master.Handlers.{
  join_cluster, remove_node, heartbeat, get_assignments, ack_assignments, deployment_of,
  thrice_read, create_deployment, scale_deployment, delete_deployment, rollout_update,
  rollout_status,
}
use pycrate.Cluster.Master.Routes.{Request, serve}
use pycrate.Cluster.Master.Rows.{register_node-finds, has_of-get_node}

pub record SameTables (s t : ClusterState) : Type 0 where
  pub nodes : t.nodes ≡ s.nodes
  pub deployments : t.deployments ≡ s.deployments
  pub containers : t.containers ≡ s.containers
  pub assignments : t.assignments ≡ s.assignments
  pub events : t.events ≡ s.events

-- The clock may have been read, and an id drawn.
pub record Unchanged (m n : Master) : Type 0 where
  pub tables : SameTables (state m) (state n)
  pub rollouts : n.deployer.active_rollouts ≡ m.deployer.active_rollouts
  pub threads : n.threads ≡ m.threads

abbrev same : {s : ClusterState} → SameTables s s
same = record {
  nodes = refl;
  deployments = refl;
  containers = refl;
  assignments = refl;
  events = refl;
}

abbrev read : {s : ClusterState} → SameTables s (thrice_read s)
read = record {
  nodes = refl;
  deployments = refl;
  containers = refl;
  assignments = refl;
  events = refl;
}

abbrev unchanged : {m : Master} → Unchanged m m
unchanged = record { tables = same; rollouts = refl; threads = refl }

abbrev Harmless : Master → Result HttpError Answer × Master → Type 0
Harmless m (ok a, n) = Unit
Harmless m (err e, n) = Unchanged m n

create_deployment_raises :
    (dep : Deployment) (s : ClusterState) (e : StateError)
    → (State.create_deployment dep s).0 ≡ err e
    → (State.create_deployment dep s).1 ≡ s
unfolding State.create_deployment
create_deployment_raises dep s e h = elim (Result-cases (upsert_deployment dep s.deployments)) [
  | inl (u, f) ↦ absurd (cc (rw (f, State.create_deployment) at h))
  | inr (u, f) ↦ rw (f, State.create_deployment)
]

refused-of-Harmless :
    (m : Master) (x : Result HttpError Answer × Master) (e : HttpError)
    → Harmless m x
    → x.0 ≡ err e
    → Unchanged m x.1
refused-of-Harmless m (err f, n) e u h = u
refused-of-Harmless m (ok a, n) e u h = absurd (cc h)

module _ (m : Master) where
  join-Harmless : (r : JoinRequest) → Harmless m (join_cluster r m)
  unfolding join_cluster
  join-Harmless r =
      let (n, e) =
        register_node-finds r.node_id r.address Role.worker (get_or r.cpu_total 100)
          (get_or r.memory_total 1024) (state m) in
      rw (e, join_cluster) tt

  leave-Harmless : (n : String) → Harmless m (remove_node n m)
  unfolding remove_node
  leave-Harmless n = elim (Option-cases (get_node n (state m))) [
    | inl e ↦ rw (e, remove_node) unchanged
    | inr (x, e) ↦ rw (e, remove_node) tt
  ]

  beat-Harmless : (r : HeartbeatRequest) → Harmless m (heartbeat r m)
  unfolding heartbeat
  beat-Harmless r = elim (Option-cases (get_node r.node_id (state m))) [
    | inl e ↦ rw (e, heartbeat) unchanged
    | inr (x, e) ↦
        (let heard =
            update_heartbeat-Heard r.node_id r.containers r.resources (state m)
              (has_of-get_node r.node_id (state m) x e) in
          rw (e, heard.returns, heartbeat) tt)
  ]

  poll-Harmless : (n : String) → Harmless m (get_assignments n m)
  unfolding get_assignments
  poll-Harmless n = elim (Option-cases (get_node n (state m))) [
    | inl e ↦ rw (e, get_assignments) unchanged
    | inr (x, e) ↦ rw (e, get_assignments) tt
  ]

  deploy-Harmless : (b : DeployBody) → Harmless m (create_deployment b m)
  unfolding create_deployment
  deploy-Harmless b = elim (Result-cases (validated b)) [
    | inr (u, e) ↦ rw (e, create_deployment) unchanged
    | inl (q, e) ↦
        (let (dep, t) : Deployment × ClusterState =
            (deployment_of q (state m), thrice_read (state m)) in
          elim (Result-cases (State.create_deployment dep t).0) [
            | inl (u, f) ↦ rw (e, f, create_deployment) tt
            | inr (u, f) ↦
                rw (e, f, create_deployment)
                  (record {
                    tables =
                        subst (SameTables (state m)) (sym (create_deployment_raises dep t u f))
                          (read {s = state m});
                    rollouts = refl;
                    threads = refl;
                  })
          ])
  ]

  scale-Harmless : (n : String) (k : ℤ) → Harmless m (scale_deployment n k m)
  unfolding scale_deployment
  scale-Harmless n k = elim (Result-cases (replicas_not_negative k)) [
    | inr (u, e) ↦ rw (e, scale_deployment) unchanged
    | inl (i, e) ↦ elim (Option-cases (get_deployment n (state m))) [
      | inl f ↦ rw (e, f, scale_deployment) unchanged
      | inr (d, f) ↦ rw (e, f, scale_deployment) tt
    ]
  ]

  undeploy-Harmless : (n : String) → Harmless m (delete_deployment n m)
  unfolding delete_deployment
  undeploy-Harmless n = elim (Option-cases (get_deployment n (state m))) [
    | inl e ↦ rw (e, delete_deployment) unchanged
    | inr (d, e) ↦ rw (e, delete_deployment) tt
  ]

  rollout-Harmless : (n : String) (r : RolloutRequest) → Harmless m (rollout_update n r m)
  unfolding rollout_update
  rollout-Harmless n r = elim (Option-cases (get_deployment n (state m))) [
    | inl e ↦ rw (e, rollout_update) unchanged
    | inr (d, e) ↦ rw (e, rollout_update) tt
  ]

  rollout_status-Harmless : (n : String) → Harmless m (rollout_status n m)
  unfolding rollout_status
  rollout_status-Harmless n = elim (Option-cases (get_rollout_status n m.deployer)) [
    | inl e ↦ rw (e, rollout_status) tt
    | inr (r, e) ↦ rw (e, rollout_status) tt
  ]

  serve-Harmless : (r : Request) → Harmless m (serve r m)
  unfolding serve ack_assignments
  serve-Harmless (Request.join r) = join-Harmless r
  serve-Harmless (Request.leave n) = leave-Harmless n
  serve-Harmless (Request.beat r) = beat-Harmless r
  serve-Harmless (Request.poll n) = poll-Harmless n
  serve-Harmless (Request.ack ids) = tt
  serve-Harmless (Request.deploy b) = deploy-Harmless b
  serve-Harmless (Request.scale n k) = scale-Harmless n k
  serve-Harmless (Request.undeploy n) = undeploy-Harmless n
  serve-Harmless Request.deployments = tt
  serve-Harmless Request.nodes = tt
  serve-Harmless Request.status = tt
  serve-Harmless Request.capacity = tt
  serve-Harmless (Request.events k) = tt
  serve-Harmless (Request.rollout n r) = rollout-Harmless n r
  serve-Harmless (Request.rollout_state n) = rollout_status-Harmless n

  -- A request, of any route, that is answered with an error (404, 422 or 500) leaves every table, the
  -- rollouts and their threads as they were.
  pub serve_refused :
      (r : Request) (e : HttpError) → (serve r m).0 ≡ err e → Unchanged m (serve r m).1
  serve_refused r e h = refused-of-Harmless m (serve r m) e (serve-Harmless r) h
