-- ===== src/Cluster/Master.antt =====
-- cluster/master.py: the HTTP service of the master. A request is served whole: no handler awaits,
-- so no other one comes between its calls. FastAPI answers 422 where a validator raises, and 500
-- where a handler raises what is no `HTTPException`.
pub mod Handlers
pub mod Routes
pub mod Turns
pub mod Rows
pub mod Refusals
pub mod Stored
pub mod Tests
use Prim.Native.String.{◌++◌ as ◌++ₛ◌}
use pycrate.Base.{
  ℕ, zero, suc, ℤ, pos, negsuc, Bool, true, false, String, List, [], ◌∷◌, Option, none, some,
  str_eq, ltb, if◌then◌else◌,
}
use pycrate.Base.Strings.{strip}
use pycrate.Base.Exec.{Exec, Result, ok, err}
use pycrate.Base.Results.{◌>>=◌}
use pycrate.Cluster.Types.{ClusterState, Env, Role, master, Deployment, Assignment, Event}
use pycrate.Cluster.State.{
  now, clock_read, register_node, get_or, Reported, Resources, Summary, NodeLine,
}
use pycrate.Cluster.Scheduler.{CapacityLine}
use pycrate.Cluster.Deploy.{RolloutState, LogLine}
use pycrate.Cluster.Deploy.Update.{Changes, RollingDeployer, or_text}
use pycrate.Cluster.Validity.Steps.{initial}

-- Totals below 0, which nothing refuses, are left out.
pub record JoinRequest : Type 0 where
  pub node_id : String
  pub address : String
  pub cpu_total : Option ℕ
  pub memory_total : Option ℕ

pub record HeartbeatRequest : Type 0 where
  pub node_id : String
  pub containers : List Reported
  pub resources : Resources

-- The body of a deploy request, whose numbers may be negative; `none` is a key that is missing.
pub record DeployBody : Type 0 where
  pub service_name : String
  pub image : String
  pub command : Option (List String)
  pub replicas : Option ℤ
  pub cpu : Option ℤ
  pub memory : Option ℤ
  pub restart : Option String
  pub env : List (String × String)
  pub health_check : Option (List (String × String))

-- What the validators let through.
pub record DeployRequest : Type 0 where
  pub service_name : String
  pub image : String
  pub command : List String
  pub replicas : ℕ
  pub cpu : ℕ
  pub memory : ℕ
  pub restart : String
  pub env : List (String × String)
  pub health_check : Option (List (String × String))

-- `none` is a key that is missing. The numbers of `changes` below 0 are left out.
pub record RolloutRequest : Type 0 where
  pub changes : Changes
  pub max_surge : Option ℤ

pub data Invalid : Type 0 where
  name_is_empty replicas_below_one resources_below_one replicas_negative : Invalid

pub data HttpError : Type 0 where
  node_not_found node_not_registered deployment_not_found : String → HttpError
  unprocessable : Invalid → HttpError
  internal_server_error : HttpError

abbrev pub name_not_empty : String → Result HttpError String
name_not_empty v =
    let v' = strip v in if str_eq v' "" then err (unprocessable name_is_empty) else ok v'

abbrev pub at_least_one : Invalid → ℤ → Result HttpError ℕ
at_least_one e (pos zero) = err (unprocessable e)
at_least_one e (pos (suc n)) = ok (suc n)
at_least_one e (negsuc n) = err (unprocessable e)

abbrev pub replicas_positive : ℤ → Result HttpError ℕ
replicas_positive = at_least_one replicas_below_one

abbrev pub resources_positive : ℤ → Result HttpError ℕ
resources_positive = at_least_one resources_below_one

abbrev pub replicas_not_negative : ℤ → Result HttpError ℕ
replicas_not_negative (pos n) = ok n
replicas_not_negative (negsuc n) = err (unprocessable replicas_negative)

unfoldable pub validated : DeployBody → Result HttpError DeployRequest
unfolding ◌>>=◌
validated b = do
  name ← name_not_empty b.service_name
  replicas ← replicas_positive (get_or b.replicas (pos 1))
  cpu ← resources_positive (get_or b.cpu (pos 50))
  memory ← resources_positive (get_or b.memory (pos 64))
  ok (record {
    service_name = name;
    image = b.image;
    command = get_or b.command ("/bin/sh" ∷ []);
    replicas = replicas;
    cpu = cpu;
    memory = memory;
    restart = get_or b.restart "always";
    env = b.env;
    health_check = b.health_check;
  })

pub record DeploymentRow : Type 0 where
  pub deployment_id : String
  pub service_name : String
  pub image : String
  pub replicas : ℕ
  pub cpu : ℕ
  pub memory : ℕ

-- The lines are the last ten of the log, the duration is in microseconds.
pub record RolloutReport : Type 0 where
  pub service_name : String
  pub old_image : String
  pub new_image : String
  pub state : RolloutState
  pub updated : ℕ
  pub pending : ℤ
  pub failed : ℕ
  pub total : ℕ
  pub duration : ℕ
  pub events : List LogLine

-- The documents of the answers with status 200. An assignment is sent whole.
pub data Answer : Type 0 where
  node_joined : String → String → Answer
  node_removed : String → Answer
  alive : ℕ → Answer
  work_to_do : List Assignment → Answer
  acknowledged : ℕ → Answer
  deployment_created : String → String → Answer
  deployment_scaled : String → ℕ → Answer
  deployment_deleted : String → Answer
  deployments : List DeploymentRow → Answer
  cluster : Summary → String → Answer
  nodes : List NodeLine → Answer
  events : List Event → Answer
  capacity : List CapacityLine → Answer
  rolling_update_started : String → String → Answer
  no_active_rollout : String → Answer
  rollout_report : RolloutReport → Answer

-- `threads` are the rollouts whose thread has been started and has not run yet.
pub record Master : Type 0 where
  pub master_id : String
  pub deployer : RollingDeployer
  pub threads : List (String × RolloutRequest)

abbrev pub state : Master → ClusterState
state m = m.deployer.store

abbrev pub with_state : ClusterState → Master → Master
with_state s m = record m { deployer = record m.deployer { store = s } }

-- `node_id or f"master-{…}"`, the store that is opened empty, and the master's own row. The two
-- numbers are the host's resources.
unfoldable pub create_master_app : Option String → ℕ → ℕ → Env → Master
unfolding register_node
create_master_app node_id cpu_total memory_total env =
    let opened = initial env in
    let drawn = str_eq (or_text node_id "") "" in
    let master_id = or_text node_id ("master-" ++ₛ env.token 0) in
    let s = if drawn then clock_read opened else opened in
    record {
      master_id = master_id;
      deployer = record {
        store = (register_node master_id "localhost:9000" master cpu_total memory_total s).0;
        active_rollouts = [];
      };
      threads = [];
    }
