-- ===== src/Orchestrator/Tests.antt =====
-- The theorems of the orchestrator at concrete histories and manifests.
use pycrate.Base.{◌≡◌, refl, true, false, List, [], ◌∷◌, some, none, String, ◌↔◌}
use pycrate.Base.Exec.{ok}
use pycrate.Cluster.Table.{delete}
use pycrate.Orchestrator.Health.{HealthChecker, HealthResult, starting}
use pycrate.Orchestrator.Manifest.{
  ServiceConfig, Services, Walk, done, get_start_order, visit, visit_each, enter, build_manifest,
}
use pycrate.Orchestrator.Manifest.Visits.{DependsOn}
use pycrate.Orchestrator.Manifest.Order.{Sound, get_start_order-Sound}
use pycrate.Orchestrator.Manifest.Acyclic.{get_start_order_acyclic}
use pycrate.Orchestrator.Manifest.Build.{Accepted, build_manifest-Accepted}

abbrev new_checker : HealthChecker
new_checker = record {
  exec_cmd = "true";
  http_url = "";
  tcp_port = 0;
  retries = 2;
  status = starting;
  consecutive_failures = 0;
  results = [];
  notified = [];
}

abbrev passed : HealthResult
passed = record { passed = true; message = "" }

abbrev failed : HealthResult
failed = record { passed = false; message = "exit code 1" }

-- One check that passed, then two that failed.
abbrev history : List HealthResult
history = failed ∷ failed ∷ passed ∷ []

abbrev service : String → List String → ServiceConfig
service name deps = record {
  name = name;
  image = "alpine:3.20";
  command = "/bin/sh" ∷ [];
  cpu = 50;
  memory = 64;
  env = [];
  ports = [];
  restart = "always";
  depends_on = deps;
  health_check = none;
  replicas = 1;
}

-- The web server needs the database and the cache, and the cache needs the database.
abbrev shop : Services
shop =
    ("web", service "web" ("db" ∷ "cache" ∷ []))
    ∷ ("cache", service "cache" ("db" ∷ []))
    ∷ ("db", service "db" [])
    ∷ []

abbrev shop_walk : Walk
shop_walk = record {
  visited = "web" ∷ "cache" ∷ "db" ∷ [];
  order = "db" ∷ "cache" ∷ "web" ∷ [];
  visiting = [];
}

shop_order : get_start_order shop ≡ done shop_walk
unfolding get_start_order visit visit_each enter delete
shop_order = refl

get_start_order-Sound_example : Sound shop (get_start_order shop)
get_start_order-Sound_example = get_start_order-Sound shop

get_start_order_acyclic_example : ¬ DependsOn shop "web" "web"
get_start_order_acyclic_example = get_start_order_acyclic shop shop_walk "web" shop_order refl

build_manifest-Accepted_example : (build_manifest 1 shop ≡ some (ok shop)) ↔ Accepted 1 shop
build_manifest-Accepted_example = build_manifest-Accepted 1 shop
