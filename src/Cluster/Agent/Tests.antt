-- ===== src/Cluster/Agent/Tests.antt =====
-- The agent of the worker w1, with a creation that it can execute and one that it cannot.
use pycrate.Base.{ℕ, ◌≡◌, refl, true, false, any, String, List, [], ◌∷◌}
use pycrate.Base.Exec.{ok}
use pycrate.Base.Dicts.{set}
use pycrate.Cluster.Types.{Assignment, Action, worker, default_work}
use pycrate.Cluster.State.{get_node}
use pycrate.Cluster.Samples.{store, node}
use pycrate.Cluster.Master.{Master, state}
use pycrate.Cluster.Master.Handlers.{heartbeat}
use pycrate.Engine.Config.{post_init}
use pycrate.Engine.Container.{spawned, gone, create, start}
use pycrate.Engine.Container.Manager.{
  put, active, register, create_container as engine_create, start_container, get_container,
}
use pycrate.Cluster.Agent.{Agent, Outside, launch, create_container, heartbeat_body}
use pycrate.Cluster.Agent.Loop.{World, Weather, delivered, lost, answer_lost, cycle}
use pycrate.Cluster.Agent.Done.{Done, calm, cycle-Done}
use pycrate.Cluster.Agent.Counted.{at_work, create_container-heartbeat}

abbrev creation : String → ℕ → Assignment
creation id cpu = record {
  assignment_id = id;
  work = record (default_work "w1" Action.create) {
    deployment_id = "d1";
    service_name = "web";
    image = "alpine:3.20";
    command = "/bin/sh" ∷ [];
    cpu = cpu;
  };
  created_at = 5;
  acknowledged = false;
}

abbrev master : Master
master = record {
  master_id = "m";
  deployer = record {
    store = record store { assignments = creation "a1" 20 ∷ creation "a2" 200 ∷ [] };
    active_rollouts = [];
  };
  threads = [];
}

abbrev agent : String → Agent
agent id = record {
  node_id = id;
  address = "10.0.0.2:9001";
  cpu_total = 200;
  memory_total = 2048;
  manager = record { max_containers = 20; containers = [] };
  deployment_map = [];
  consecutive_failures = 0;
}

abbrev outside : Outside
outside = record {
  suffix = "5f3a";
  container_id = "c7";
  preparation = ok tt;
  between = λ m. m;
  now = 7;
  spawn = spawned 4711;
  how = gone;
}

abbrev world : String → World
world id = record { master = master; agent = agent id }

cycle-Done_example : Done (λ _. outside) (world "w1") (cycle (calm (λ _. outside)) (world "w1"))
unfolding get_node
cycle-Done_example = cycle-Done (λ _. outside) (world "w1") (node "w1" worker 40 98) refl

-- The answer to the acknowledgement is lost.
abbrev windy : Weather
windy = record {
  on_heartbeat = delivered;
  on_poll = delivered;
  on_ack = answer_lost;
  outside = λ _. outside;
}

abbrev storm : List Weather
storm =
    record {
      on_heartbeat = delivered;
      on_poll = delivered;
      on_ack = delivered;
      outside = λ _. outside;
    }
    ∷ record { on_heartbeat = lost; on_poll = delivered; on_ack = lost; outside = λ _. outside }
    ∷ record { on_heartbeat = answer_lost; on_poll = lost; on_ack = lost; outside = λ _. outside }
    ∷ []

-- The agent when the container runs.
abbrev after : Agent
after = (create_container outside (creation "a1" 20) (agent "w1")).1

create_container-heartbeat_example :
    any (at_work "w1" "d1" "c7") (state (heartbeat (heartbeat_body after) master).1).containers
    ≡ true
unfolding get_node create_container post_init launch engine_create start_container register
    get_container create start put active set
create_container-heartbeat_example =
    create_container-heartbeat outside (creation "a1" 20) (agent "w1") master
      (node "w1" worker 40 98) (tt, tt) refl refl
