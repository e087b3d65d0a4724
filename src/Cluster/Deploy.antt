-- ===== src/Cluster/Deploy.antt =====
-- cluster/deploy.py: rolling updates. What the other threads do to the store in the sleeps between
-- two polls is the parameter `others`. A line of the log is a constructor over its values; its time
-- stamp is left out.
pub mod Update
pub mod Runs
pub mod Counts
pub mod Outcome
pub mod Tests
use pycrate.Base.{
  ℤ, pos, negsuc, pred, ℕ, zero, suc, ◌+◌, ◌-◌, ◌*◌, ◌/◌, ◌≡◌, Bool, true, false, String, List, [],
  ◌∷◌, ◌++◌, Option, none, some, select, take, drop, length, leb, str_eq, ◌==◌, if◌then◌else◌,
}
use pycrate.Base.Exec.{Exec, Result, ok, err, ◌>>=◌, ◌>>◌, pure}
use pycrate.Cluster.Floats.{Floats}
use pycrate.Cluster.Types.{
  ClusterState, Deployment, ContainerRecord, is_running, Work, StateError, Reason, rolled_out,
}
use pycrate.Cluster.State.{
  now, clock_read, add_event, get_deployment, get_containers_for_deployment, create_assignment,
  create_deployment,
}
use pycrate.Cluster.Scheduler.{schedule}
use pycrate.Cluster.Reconciler.{create_work, stop_work}

pub data RolloutState : Type 0 where
  in_progress completed failed rolled_back : RolloutState

pub data LogLine : Type 0 where
  starting : String → String → LogLine
  found : ℕ → LogLine
  scheduled : String → LogLine
  scheduling_failed : Reason → LogLine
  waiting : ℕ → LogLine
  now_running : ℕ → LogLine
  stopping_old : String → ℕ → ℕ → LogLine
  finished : Bool → ℕ → ℕ → ℕ → LogLine

-- `pending` counts down from the replicas by one for each container: below zero where more run.
pub record RolloutStatus : Type 0 where
  pub deployment_id : String
  pub service_name : String
  pub old_image : String
  pub new_image : String
  pub total_replicas : ℕ
  pub updated : ℕ
  pub pending : ℤ
  pub failed : ℕ
  pub state : RolloutState
  pub events : List LogLine
  pub started_at : ℕ

-- `ValueError` of a service that is not there, that of `range` with a step of 0, or the store's.
pub data RolloutError : Type 0 where
  not_found : String → RolloutError
  zero_step : RolloutError
  store_error : StateError → RolloutError

-- A running update: its status, and the store.
pub record Rolling : Type 0 where
  pub rollout : RolloutStatus
  pub store : ClusterState

abbrev pub log : LogLine → Rolling → Rolling
log line r = record r { rollout = record r.rollout { events = r.rollout.events ++ line ∷ [] } }

abbrev pub modify : (Rolling → Rolling) → Exec StateError Rolling Unit
modify f r = (ok tt, f r)

abbrev pub on_store : {A : Type 0} → Exec StateError ClusterState A → Exec StateError Rolling A
on_store m r = ((m r.store).0, record r { store = (m r.store).1 })

abbrev pub one_failed : Rolling → Rolling
one_failed r = record r { rollout = record r.rollout { failed = r.rollout.failed + 1 } }

abbrev pub one_updated : Rolling → Rolling
one_updated r = record r {
  rollout = record r.rollout { updated = r.rollout.updated + 1; pending = pred r.rollout.pending };
}

-- Step 3, for one container.
unfoldable pub stop_old : Deployment → ContainerRecord → Exec StateError Rolling Unit
stop_old dep c = do
  on_store (create_assignment (stop_work c dep.deployment_id dep.service_name))
  modify (λ r.
      log (stopping_old c.container_id (r.rollout.updated + 1) r.rollout.total_replicas)
        (one_updated r))

unfoldable pub stop_batch : Deployment → List ContainerRecord → Exec StateError Rolling Unit
unfolding stop_old
stop_batch dep [] = pure tt
stop_batch dep (c ∷ cs) = stop_old dep c >> stop_batch dep cs

abbrev pub health_check_timeout : ℕ
health_check_timeout = 120

abbrev pub health_poll_interval : ℕ
health_poll_interval = 3

-- How often the `while` polls before the timeout.
abbrev pub polls : ℕ
polls = health_check_timeout / health_poll_interval

module _ {F : Type 0} (fl : Floats F) (others : ClusterState → ClusterState) where
  -- Step 1, for one container of the batch.
  unfoldable pub surge : Deployment → Exec StateError Rolling Unit
  surge new_dep r = elim (schedule fl new_dep r.store) [
    | ok d ↦
        (do
          on_store (create_assignment (create_work new_dep d.node.node_id))
          modify (log (scheduled d.node.node_id)))
          r
    | err e ↦ (ok tt, one_failed (log (scheduling_failed e.reason) r))
  ]

  unfoldable pub surge_batch : Deployment → List ContainerRecord → Exec StateError Rolling Unit
  unfolding surge
  surge_batch new_dep [] = pure tt
  surge_batch new_dep (c ∷ cs) = surge new_dep >> surge_batch new_dep cs

  -- Step 2: `polls` are left.
  unfoldable pub wait : ℕ → Deployment → ℕ → Rolling → Rolling
  wait zero new_dep n r = r
  wait (suc polls) new_dep n r =
      let r' = record r { store = others r.store } in
      let running_new =
        select is_running (get_containers_for_deployment new_dep.deployment_id r'.store) in
      let rest = wait polls new_dep n r' in
      if leb n (length running_new) then log (now_running (length running_new)) r' else rest

  -- One turn of the loop over the batches.
  unfoldable pub roll_batch :
      Deployment → Deployment → List ContainerRecord → Exec StateError Rolling Unit
  unfolding surge_batch wait stop_batch
  roll_batch dep new_dep batch = do
    surge_batch new_dep batch
    modify (log (waiting (length batch)))
    modify (wait polls new_dep (length batch))
    stop_batch dep batch

  -- `for batch_start in range(0, len, batch_size)`, with a positive step; the fuel is the number of
  -- containers.
  unfoldable pub roll :
      ℕ → ℕ → Deployment → Deployment → List ContainerRecord → Exec StateError Rolling Unit
  unfolding roll_batch
  roll zero batch_size dep new_dep cs = pure tt
  roll (suc fuel) batch_size dep new_dep [] = pure tt
  roll (suc fuel) batch_size dep new_dep (c ∷ cs) =
      roll_batch dep new_dep (take batch_size (c ∷ cs))
      >> roll fuel batch_size dep new_dep (drop batch_size (c ∷ cs))

  -- A step below zero makes the range empty.
  unfoldable pub batches :
      ℤ → Deployment → Deployment → List ContainerRecord → Exec StateError Rolling Unit
  unfolding roll
  batches (pos batch_size) dep new_dep cs = roll (length cs) batch_size dep new_dep cs
  batches (negsuc n) dep new_dep cs = pure tt
