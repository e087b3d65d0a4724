-- ===== src/Orchestrator/Compose/Tests.antt =====
-- A database and two web servers.
use pycrate.Base.{ℕ, ◌+◌, ◌≡◌, refl, String, List, [], ◌∷◌, map, none, some, All}
use pycrate.Base.Decimal.{decimal, digits}
use pycrate.Base.Dicts.{get, set}
use pycrate.Base.Exec.{ok, ◌>>=◌}
use pycrate.Cluster.Table.{delete}
use pycrate.Engine.Config.{post_init}
use pycrate.Engine.Container.{spawned, gone, create, start}
use pycrate.Engine.Container.Manager.{
  put, active, register, create_container, start_container, get_container,
}
use pycrate.Orchestrator.Manifest.{
  ServiceConfig, Walk, done, get_start_order, visit, visit_each, enter,
}
use pycrate.Orchestrator.Manifest.Order.{Sound}
use pycrate.Orchestrator.Compose.{
  ServiceState, ComposeEngine, Outside, instances_of, bring_up, create_instance, container_name,
}
use pycrate.Orchestrator.Compose.Passes.{
  restart_instance, restart_each, scale_up, drop_excess, reconcile_service, reconcile_each,
  reconcile,
}
use pycrate.Orchestrator.Compose.Lifecycle.{start_replicas, start_service, start_each, up}
use pycrate.Orchestrator.Compose.Whole.{Settled, reconcile-Settled}
use pycrate.Orchestrator.Compose.Upward.{Started, up-Launched}

abbrev service : String → List String → ℕ → ServiceConfig
service name deps replicas = record {
  name = name;
  image = "alpine:3.20";
  command = "/bin/sh" ∷ [];
  cpu = 50;
  memory = 64;
  env = [];
  ports = [];
  restart = "no";
  depends_on = deps;
  health_check = none;
  replicas = replicas;
}

abbrev outside : ℕ → Outside
outside n = record {
  container_id = decimal n;
  preparation = ok tt;
  between = λ m. m;
  now = n;
  spawn = spawned (100 + n);
  how = gone;
}

abbrev engine : ComposeEngine
engine = record {
  services = ("web", service "web" ("db" ∷ []) 2) ∷ ("db", service "db" [] 1) ∷ [];
  manager = record { max_containers = 50; containers = [] };
  instances = [];
  outside = outside;
  calls = 0;
}

abbrev launched : ComposeEngine
launched = (start_each ("db" ∷ "web" ∷ []) engine).1

up-Launched_example :
    (w : Walk) × (Sound engine.services (done w)
      × ((map (λ x. x.0) launched.instances ≡ w.order)
          × All (Started engine.services launched) w.order))
unfolding up start_each start_service start_replicas get_start_order visit visit_each enter delete
    create_instance bring_up create_container start_container register get_container create start
    put active instances_of post_init decimal digits get set container_name
up-Launched_example = up-Launched engine launched (refl, (refl, tt)) refl refl

-- The first web server has exited, and no container is registered.
abbrev crashed : ComposeEngine
crashed = record engine {
  instances =
      (
        "web",
        record {
          service_name = "web";
          replica_index = 0;
          container = some "old";
          health_checker = none;
          state = ServiceState.running;
          restart_count = 0;
          last_error = none;
          created_at = 0;
        }
            ∷ [],
      )
      ∷ [];
}

reconcile-Settled_example : All (Settled (reconcile crashed).1) engine.services
unfolding reconcile reconcile_each reconcile_service restart_each restart_instance scale_up
    drop_excess create_instance bring_up create_container start_container register get_container
    create start put active instances_of post_init decimal digits get set container_name ◌>>=◌
reconcile-Settled_example = reconcile-Settled crashed (refl, (refl, tt)) refl

-- The policy is "no", but two new containers are started beside the one that exited.
replaced_though_no :
    map (λ i. i.state) (instances_of "web" (reconcile crashed).1)
    ≡ ServiceState.stopped ∷ ServiceState.running ∷ ServiceState.running ∷ []
unfolding reconcile reconcile_each reconcile_service restart_each restart_instance scale_up
    drop_excess create_instance bring_up create_container start_container register get_container
    create start put active instances_of post_init decimal digits get set container_name ◌>>=◌
replaced_though_no = refl
