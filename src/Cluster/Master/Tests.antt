-- ===== src/Cluster/Master/Tests.antt =====
-- A master with one worker.
use Prim.Native.String.{◌++◌ as ◌++ₛ◌}
use pycrate.Base.{◌≡◌, refl, pos, [], none, some}
use pycrate.Base.Exec.{err}
use pycrate.Base.Results.{◌>>=◌}
use pycrate.Base.Strings.{strip, lstrip, rstrip, is_space}
use pycrate.Cluster.State
use pycrate.Cluster.State.{register_node, get_node, upsert_node, add_event, upsert_deployment}
use pycrate.Cluster.Validity.{IsValid}
use pycrate.Cluster.Samples.{thousandths, letters, env}
use pycrate.Cluster.Master.{
  JoinRequest, DeployBody, Master, state, create_master_app, node_not_found, validated, Answer,
  unprocessable, name_is_empty,
}
use pycrate.Cluster.Master.Handlers.{create_deployment, remove_node}
use pycrate.Cluster.Master.Turns.{stays, turns, serves, create_master_app-Runs-IsValid}
use pycrate.Cluster.Master.Routes.{Request, serve}
use pycrate.Cluster.Master.Refusals.{Unchanged, serve_refused}
use pycrate.Cluster.Master.Stored.{Stored, create_deployment-Stored}

abbrev worker : JoinRequest
worker = record {
  node_id = "w1";
  address = "10.0.0.2:9001";
  cpu_total = some 200;
  memory_total = none;
}

-- The spaces around the name are stripped; the numbers are the defaults.
abbrev body : DeployBody
body = record {
  service_name = " web ";
  image = "nginx:1.27";
  command = none;
  replicas = some (pos 2);
  cpu = none;
  memory = none;
  restart = none;
  env = [];
  health_check = none;
}

abbrev fresh : Master
fresh = create_master_app (some "m") 400 2048 env

create_master_app-Runs-IsValid_example :
    IsValid (state (serve (Request.deploy body) (serve (Request.join worker) fresh).1).1)
create_master_app-Runs-IsValid_example =
    create_master_app-Runs-IsValid thousandths (some "m") 400 2048 env
      (turns (turns stays (serves (Request.join worker))) (serves (Request.deploy body)))

serve_refused_example : Unchanged fresh (serve (Request.leave "w9") fresh).1
unfolding serve remove_node create_master_app register_node get_node upsert_node add_event
serve_refused_example = serve_refused fresh (Request.leave "w9") (node_not_found "w9") refl

refuses_blank :
    (create_deployment (record body { service_name = "  " }) fresh).0
    ≡ err (unprocessable name_is_empty)
unfolding create_deployment validated ◌>>=◌ strip lstrip rstrip is_space
refuses_blank = refl

create_deployment-Stored_example : Stored body fresh (create_deployment body fresh)
unfolding create_deployment State.create_deployment create_master_app register_node
    upsert_deployment add_event letters validated ◌>>=◌ strip lstrip rstrip is_space
create_deployment-Stored_example =
    create_deployment-Stored body fresh (Answer.deployment_created ("dep-" ++ₛ "aa") "web") refl
