-- ===== src/Cluster/Deploy/Update.antt =====
-- `RollingDeployer.update`. The dictionary of the rollouts holds the object that the update changes:
-- so its entry is written back whether the update returns or raises. The argument `service_name` is
-- the name of the deployment that was found by it.
use Prim.Native.String.{◌++◌ as ◌++ₛ◌}
use pycrate.Base.{
  ℤ, pos, Bool, true, false, ℕ, zero, suc, ◌-◌, String, List, [], ◌∷◌, Option, none, some, length,
  str_eq, ◌==◌, if◌then◌else◌,
}
use pycrate.Base.Exec.{Exec, Result, ok, err, ◌>>◌}
use pycrate.Cluster.Floats.{Floats}
use pycrate.Cluster.Types.{ClusterState, Deployment, ContainerRecord, StateError, rolled_out}
use pycrate.Cluster.State.{
  now, clock_read, add_event, get_deployment, get_containers_for_deployment, create_deployment,
}
use pycrate.Cluster.Deploy.{
  RolloutStatus, in_progress, completed, failed, starting, found, finished, RolloutError, not_found,
  zero_step, store_error, Rolling, log, modify, on_store, batches,
}

-- The optional arguments of `update`. A CPU or a memory below 0 is left out.
pub record Changes : Type 0 where
  pub new_image : Option String
  pub new_cpu : Option ℕ
  pub new_memory : Option ℕ
  pub new_command : Option (List String)

-- `new or old`: an empty text, a zero and an empty list are false.
abbrev pub or_text : Option String → String → String
or_text none old = old
or_text (some new) old = if str_eq new "" then old else new

abbrev pub or_number : Option ℕ → ℕ → ℕ
or_number none old = old
or_number (some zero) old = old
or_number (some (suc n)) old = suc n

abbrev pub or_list : Option (List String) → List String → List String
or_list none old = old
or_list (some []) old = old
or_list (some (x ∷ xs)) old = x ∷ xs

pub record RollingDeployer : Type 0 where
  pub store : ClusterState
  pub active_rollouts : List (String × RolloutStatus)

-- `self._active_rollouts[service_name] = rollout`
unfoldable pub set_rollout :
    String → RolloutStatus → List (String × RolloutStatus) → List (String × RolloutStatus)
set_rollout name r [] = (name, r) ∷ []
set_rollout name r ((k, old) ∷ rest) =
    if str_eq k name then (k, r) ∷ rest else (k, old) ∷ set_rollout name r rest

unfoldable pub get_rollout_status : String → RollingDeployer → Option RolloutStatus
get_rollout_status name d = go d.active_rollouts
  where
    go : List (String × RolloutStatus) → Option RolloutStatus
    go [] = none
    go ((k, r) ∷ rest) = if str_eq k name then some r else go rest

-- A time is read for `started_at`.
abbrev pub new_rollout : Deployment → Changes → ClusterState → RolloutStatus
new_rollout dep changes s = record {
  deployment_id = dep.deployment_id;
  service_name = dep.service_name;
  old_image = dep.image;
  new_image = or_text changes.new_image dep.image;
  total_replicas = dep.replicas;
  updated = 0;
  pending = pos dep.replicas;
  failed = 0;
  state = in_progress;
  events = [];
  started_at = now s;
}

-- Draws the id, then reads two times.
abbrev pub new_deployment : Deployment → Changes → ClusterState → Deployment
new_deployment dep changes s = record {
  deployment_id = "dep-" ++ₛ s.env.token s.calls;
  service_name = dep.service_name;
  image = or_text changes.new_image dep.image;
  command = or_list changes.new_command dep.command;
  replicas = dep.replicas;
  cpu = or_number changes.new_cpu dep.cpu;
  memory = or_number changes.new_memory dep.memory;
  restart = dep.restart;
  env = dep.env;
  health_check = dep.health_check;
  created_at = now (clock_read s);
  updated_at = now (clock_read (clock_read s));
}

-- The state and the last line of the log, which reads the time for the duration.
abbrev pub finish : Rolling → Rolling
finish r =
    let status = r.rollout in
    let clean = status.failed == 0 in
    let ended : Rolling = record {
      rollout = record status { state = if clean then completed else failed };
      store = clock_read r.store;
    } in
    log (finished clean (now r.store - status.started_at) status.updated status.failed) ended

-- Step 4 and what follows. The new deployment takes the id of the old one.
unfoldable pub conclude : Deployment → Deployment → Exec StateError Rolling Unit
conclude dep new_dep = do
  on_store (create_deployment (record new_dep { deployment_id = dep.deployment_id }))
  modify finish
  modify (λ r. record r {
    store =
        add_event "deployment.rollout"
          (rolled_out dep.service_name dep.image new_dep.image r.rollout.updated
            r.rollout.total_replicas)
          "" "" r.store;
  })

abbrev pub raised_by : Result StateError Unit → Result RolloutError Unit
raised_by (ok _) = ok tt
raised_by (err e) = err (store_error e)

-- The status that is made, with the first two lines of its log, and the store after the four
-- readings.
abbrev pub begin : Deployment → Changes → List ContainerRecord → ClusterState → Rolling
begin dep changes current s =
    let made : Rolling = record {
      rollout = new_rollout dep changes s;
      store = clock_read (clock_read (clock_read (clock_read s)));
    } in
    log (found (length current))
      (log (starting dep.image (or_text changes.new_image dep.image)) made)

abbrev pub is_zero : ℤ → Bool
is_zero (pos zero) = true
is_zero _ = false

module _ {F : Type 0} (fl : Floats F) (others : ClusterState → ClusterState) where
  -- All of `update` after the deployment is found.
  unfoldable pub run_update :
      Deployment → Changes → ℤ → ClusterState → Result RolloutError Unit × Rolling
  unfolding conclude
  run_update dep changes max_surge s =
      let current = get_containers_for_deployment dep.deployment_id s in
      let new_dep = new_deployment dep changes (clock_read s) in
      let begun = begin dep changes current s in
      let rolled =
        (batches fl others max_surge dep new_dep current >> conclude dep new_dep) begun in
      if is_zero max_surge then (err zero_step, begun) else (raised_by rolled.0, rolled.1)

  unfoldable pub update :
      String → Changes → ℤ → RollingDeployer → Result RolloutError Unit × RollingDeployer
  unfolding run_update set_rollout
  update service_name changes max_surge d = elim (get_deployment service_name d.store) [
    | none ↦ (err (not_found service_name), d)
    | some dep ↦
        (let (result, r) = run_update dep changes max_surge d.store in
          (
            result,
            record {
              store = r.store;
              active_rollouts = set_rollout service_name r.rollout d.active_rollouts;
            },
          ))
  ]
