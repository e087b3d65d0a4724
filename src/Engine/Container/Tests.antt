-- ===== src/Engine/Container/Tests.antt =====
-- The theorems of the container and of its manager at concrete containers.
use pycrate.Base.{◌≤◌, ◌≡◌, refl, [], ◌∷◌, none, some, true, false}
use pycrate.Base.Exec.{ok, err}
use pycrate.Engine.Config.{ContainerConfig}
use pycrate.Engine.Container.{
  Container, already_stopped, in_error_state, stopped, new_container, start, spawned, assign_failed,
  begin_stop, end_stop, exited, reap, child_exited, child_signalled, signalled, finalize_stop,
  create,
}
use pycrate.Engine.Container.Life
use pycrate.Engine.Container.Life.{
  Consistent, new-Reach-Consistent, reap-end_stop, assign_failed-stuck,
}
use pycrate.Engine.Container.Manager.{ContainerManager, active, create_container, register}
use pycrate.Engine.Container.Limit.{create_container-limit}

abbrev config : ContainerConfig
config = record {
  name = "web";
  command = "/bin/sh" ∷ [];
  cpu_limit_percent = 50;
  memory_limit_mb = 64;
  env = [];
  hostname = none;
  image = "alpine:3.20";
  volumes = [];
  security_enabled = true;
  container_id = "a1";
}

abbrev started : Container
started = (start 5 (spawned 4242) (new_container config)).1

-- It starts, a `stop` begins, the monitor has seen the end, and then `stop` does.
new-Reach-Consistent_example :
    Consistent (end_stop 9 (exited 0) (reap 8 (child_exited 0 false) (begin_stop started).1))
new-Reach-Consistent_example = new-Reach-Consistent config (
    Life.next
      (Life.next (Life.next (Life.next Life.here (Life.starts 5 (spawned 4242))) Life.begins_stop)
        (Life.reaps 8 (child_exited 0 false)))
      (Life.ends_stop 9 (exited 0)))

reap-end_stop_example :
    let one = end_stop 9 signalled (reap 8 (child_signalled 15 false) started) in
    let other = reap 9 (child_signalled 15 false) (end_stop 8 signalled started) in
    (one.status ≡ stopped)
    × (one.stopped_at ≡ some 8)
    × (one.pid ≡ none)
    × (other.status ≡ stopped)
    × (other.stopped_at ≡ some 8)
    × (other.pid ≡ none)
unfolding start
reap-end_stop_example = reap-end_stop 8 9 (child_signalled 15 false) signalled started refl refl

assign_failed-stuck_example :
    let d = (start 5 (assign_failed 4242 "cgroup") (new_container config)).1 in
    (d.pid ≡ some 4242)
    × ((begin_stop d).0 ≡ err (already_stopped "a1"))
    × ((start 6 (spawned 4243) d).0 ≡ err (in_error_state "cgroup"))
assign_failed-stuck_example =
    assign_failed-stuck 5 6 4242 "cgroup" (spawned 4243) (new_container config) refl refl refl

abbrev ended : Container
ended = end_stop 9 (exited 0) started

-- One container is active, and one has stopped.
abbrev manager : ContainerManager
manager = record {
  max_containers = 2;
  containers = ("b2", new_container (record config { container_id = "b2" })) ∷ ("c3", ended) ∷ [];
}

-- In the meantime, another thread does nothing.
create_container-limit_example :
    active (create_container config (ok tt) (λ m. m) manager).1.containers ≤ 2
unfolding create_container register active create start end_stop finalize_stop
create_container-limit_example = create_container-limit config (ok tt) (λ m. m) manager refl
