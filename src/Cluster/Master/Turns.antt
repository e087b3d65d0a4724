-- ===== src/Cluster/Master/Turns.antt =====
-- The master as the requests, the reconciler's passes and the rollouts change it, in any order.
use pycrate.Base.{
  ℤ, ℕ, Bool, true, false, String, List, [], ◌∷◌, Option, inl, inr, Option-cases, if◌then◌else◌,
}
use pycrate.Cluster.Floats.{Floats}
use pycrate.Cluster.Types.{ClusterState, Env, Role}
use pycrate.Cluster.State
use pycrate.Cluster.State.{
  get_node, get_or, register_node, update_heartbeat, update_replicas, acknowledge_assignment,
  get_deployment, clock_read,
}
use pycrate.Cluster.Validity.{IsValid, Result-cases}
use pycrate.Cluster.Validity.Steps
use pycrate.Cluster.Validity.Steps.{Step, Reach, here, next, Reach-trans, init-Reach-IsValid}
use pycrate.Cluster.Reconciler.{run_pass}
use pycrate.Cluster.Reconciler.Runs.{run_pass-Reach}
use pycrate.Cluster.Deploy.Update.{get_rollout_status}
use pycrate.Cluster.Deploy.Runs.{update-Reach}
use pycrate.Cluster.Master.{
  JoinRequest, HeartbeatRequest, DeployBody, RolloutRequest, validated, replicas_not_negative,
  Master, state, with_state, create_master_app,
}
use pycrate.Cluster.Master.Handlers.{
  join_cluster, remove_node, heartbeat, get_assignments, acknowledge_each, ack_assignments,
  deployment_of, thrice_read, create_deployment, scale_deployment, delete_deployment,
  rollout_update, rollout_status, run_rollout,
}
use pycrate.Cluster.Master.Routes.{
  Request, join, leave, beat, poll, ack, deploy, scale, undeploy, rollout, events, rollout_state,
  serve,
}

-- What a request does to the store, it does by calls of the store's methods.
module _ (m : Master) where
  acknowledge_each-Reach : (ids : List String) (s : ClusterState) → Reach s (acknowledge_each ids s)
  unfolding acknowledge_each
  acknowledge_each-Reach [] s = here
  acknowledge_each-Reach (aid ∷ rest) s =
      Reach-trans (next here (Steps.acknowledges aid)) (acknowledge_each-Reach rest _)

  join-Reach : (r : JoinRequest) → Reach (state m) (state (join_cluster r m).1)
  unfolding join_cluster
  join-Reach r =
      let step : Reach (state m)
          (register_node r.node_id r.address Role.worker (get_or r.cpu_total 100)
            (get_or r.memory_total 1024) (state m)).0 =
        next here (Steps.registers _ _ _ _ _) in
      elim (Option-cases
        (register_node r.node_id r.address Role.worker (get_or r.cpu_total 100)
          (get_or r.memory_total 1024) (state m)).1) [
            | inl e ↦ rw (e, join_cluster) step
            | inr (n, e) ↦ rw (e, join_cluster) step
          ]

  leave-Reach : (n : String) → Reach (state m) (state (remove_node n m).1)
  unfolding remove_node
  leave-Reach n = elim (Option-cases (get_node n (state m))) [
    | inl e ↦ rw (e, remove_node) here
    | inr (x, e) ↦ rw (e, remove_node) (next here (Steps.removes n))
  ]

  beat-Reach : (r : HeartbeatRequest) → Reach (state m) (state (heartbeat r m).1)
  unfolding heartbeat
  beat-Reach r =
      let step : Reach (state m) (update_heartbeat r.node_id r.containers r.resources (state m)).1 =
        next here (Steps.beats _ _ _) in
      elim (Option-cases (get_node r.node_id (state m))) [
        | inl e ↦ rw (e, heartbeat) here
        | inr (x, e) ↦
            elim (Result-cases (update_heartbeat r.node_id r.containers r.resources (state m)).0) [
              | inl (u, f) ↦ rw (e, f, heartbeat) (next step Steps.reads_clock)
              | inr (u, f) ↦ rw (e, f, heartbeat) step
            ]
      ]

  poll-Reach : (n : String) → Reach (state m) (state (get_assignments n m).1)
  unfolding get_assignments
  poll-Reach n = elim (Option-cases (get_node n (state m))) [
    | inl e ↦ rw (e, get_assignments) here
    | inr (x, e) ↦ rw (e, get_assignments) here
  ]

  deploy-Reach : (b : DeployBody) → Reach (state m) (state (create_deployment b m).1)
  unfolding create_deployment
  deploy-Reach b = elim (Result-cases (validated b)) [
    | inr (u, e) ↦ rw (e, create_deployment) here
    | inl (q, e) ↦
        (let read : Reach (state m) (thrice_read (state m)) =
            next (next (next here Steps.reads_clock) Steps.reads_clock) Steps.reads_clock in
          let made = State.create_deployment (deployment_of q (state m)) (thrice_read (state m)) in
          let step : Reach (state m) made.1 = next read (Steps.deploys _) in
          elim (Result-cases made.0) [
            | inl (u, f) ↦ rw (e, f, create_deployment) step
            | inr (u, f) ↦ rw (e, f, create_deployment) step
          ])
  ]

  scale-Reach : (n : String) (k : ℤ) → Reach (state m) (state (scale_deployment n k m).1)
  unfolding scale_deployment
  scale-Reach n k = elim (Result-cases (replicas_not_negative k)) [
    | inr (u, e) ↦ rw (e, scale_deployment) here
    | inl (i, e) ↦ elim (Option-cases (get_deployment n (state m))) [
      | inl f ↦ rw (e, f, scale_deployment) here
      | inr (d, f) ↦ rw (e, f, scale_deployment) (next here (Steps.scales n i))
    ]
  ]

  undeploy-Reach : (n : String) → Reach (state m) (state (delete_deployment n m).1)
  unfolding delete_deployment
  undeploy-Reach n = elim (Option-cases (get_deployment n (state m))) [
    | inl e ↦ rw (e, delete_deployment) here
    | inr (d, e) ↦ rw (e, delete_deployment) (next here (Steps.undeploys n))
  ]

  rollout-Reach :
      (n : String) (r : RolloutRequest) → Reach (state m) (state (rollout_update n r m).1)
  unfolding rollout_update
  rollout-Reach n r = elim (Option-cases (get_deployment n (state m))) [
    | inl e ↦ rw (e, rollout_update) here
    | inr (d, e) ↦ rw (e, rollout_update) here
  ]

  rollout_state-Reach : (n : String) → Reach (state m) (state (rollout_status n m).1)
  unfolding rollout_status
  rollout_state-Reach n = elim (Option-cases (get_rollout_status n m.deployer)) [
    | inl e ↦ rw (e, rollout_status) here
    | inr (r, e) ↦ rw (e, rollout_status) (next here Steps.reads_clock)
  ]

  pub serve-Reach : (r : Request) → Reach (state m) (state (serve r m).1)
  unfolding serve ack_assignments
  serve-Reach (join r) = join-Reach r
  serve-Reach (leave n) = leave-Reach n
  serve-Reach (beat r) = beat-Reach r
  serve-Reach (poll n) = poll-Reach n
  serve-Reach (ack ids) = acknowledge_each-Reach ids (state m)
  serve-Reach (deploy b) = deploy-Reach b
  serve-Reach (scale n k) = scale-Reach n k
  serve-Reach (undeploy n) = undeploy-Reach n
  serve-Reach Request.deployments = here
  serve-Reach Request.nodes = here
  serve-Reach Request.status = here
  serve-Reach Request.capacity = here
  serve-Reach (events k) = here
  serve-Reach (rollout n r) = rollout-Reach n r
  serve-Reach (rollout_state n) = rollout_state-Reach n

module _ {F : Type 0} (fl : Floats F) where
  -- In the sleeps of a rollout, the other threads call methods of the store.
  pub data Turn (m : Master) : Master → Type 0 where
    serves : (r : Request) → Turn m (serve r m).1
    reconciles : (n : ℕ) → Turn m (with_state (run_pass fl m.master_id n (state m)).0 m)
    rolls :
        (service : String) (r : RolloutRequest) (others : ClusterState → ClusterState)
        → ((s : ClusterState) → Reach s (others s))
        → Turn m (run_rollout fl others service r m)

  pub data Runs (m : Master) : Master → Type 0 where
    stays : Runs m m
    turns : {n k : Master} → Runs m n → Turn n k → Runs m k

  Turn-Reach : {m n : Master} → Turn m n → Reach (state m) (state n)
  unfolding run_rollout
  Turn-Reach (serves r) = serve-Reach _ r
  Turn-Reach (reconciles n) = run_pass-Reach fl _ n _
  Turn-Reach (rolls service r others calls) = update-Reach fl others calls service r.changes _ _

  Runs-Reach : {m n : Master} → Runs m n → Reach (state m) (state n)
  Runs-Reach stays = here
  Runs-Reach (turns r t) = Reach-trans (Runs-Reach r) (Turn-Reach t)

abbrev opened-Reach : (b : Bool) (s : ClusterState) → Reach s (if b then clock_read s else s)
opened-Reach true s = next here Steps.reads_clock
opened-Reach false s = here

created-Reach :
    (node_id : Option String) (cpu memory : ℕ) (env : Env)
    → Reach (Steps.initial env) (state (create_master_app node_id cpu memory env))
unfolding create_master_app
created-Reach node_id cpu memory env = next (opened-Reach _ _) (Steps.registers _ _ _ _ _)

-- From the master as `create_master_app` makes it, whatever requests come, those that end in an
-- error included, and whatever passes and rollouts run, in any order: every key of the tables is
-- unique, and every container and assignment names a node that is there.
pub create_master_app-Runs-IsValid :
    {F : Type 0} (fl : Floats F) (node_id : Option String) (cpu memory : ℕ) (env : Env) {m : Master}
    → Runs fl (create_master_app node_id cpu memory env) m
    → IsValid (state m)
create_master_app-Runs-IsValid fl node_id cpu memory env r =
    init-Reach-IsValid env (Reach-trans (created-Reach node_id cpu memory env) (Runs-Reach fl r))
