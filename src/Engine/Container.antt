-- ===== src/Engine/Container.antt =====
-- engine/container.py: the state of a `Container` and of the `ContainerManager`. What the kernel and
-- the subsystems do (image, overlay, cgroup, clone, waitpid) is an argument: the outcome of the
-- calls. The log buffer, the network and the metrics have no part in the status and are left out.
pub mod Life
pub mod Manager
pub mod Limit
pub mod Tests
use pycrate.Base.{
  str_eq, ℕ, ◌+◌, Bool, true, false, not, ◌&&◌, String, Option, none, some, ℤ, pos, negsuc,
  if◌then◌else◌,
}
use pycrate.Base.Exec.{Exec, Result, ok, err}
use pycrate.Engine.Config.{ContainerConfig}

pub data ContainerStatus : Type 0 where
  created running stopped error : ContainerStatus

pub record Container : Type 0 where
  pub config : ContainerConfig
  pub status : ContainerStatus
  pub pid : Option ℕ
  pub exit_code : Option ℤ
  pub error : Option String
  pub finalized : Bool
  -- `_stop_event`
  pub stopping : Bool
  pub started_at : Option ℕ
  pub stopped_at : Option ℕ

pub data ContainerError : Type 0 where
  failed in_error_state : String → ContainerError
  already_running already_stopped not_found : String → ContainerError
  limit_reached : ℕ → ContainerError

abbrev pub is_status : ContainerStatus → ContainerStatus → Bool
is_status created created = true
is_status running running = true
is_status stopped stopped = true
is_status error error = true
is_status _ _ = false

abbrev pub is_some {ℓ} : {A : Type ℓ} → Option A → Bool
is_some none = false
is_some (some a) = true

abbrev pub is_running : Container → Bool
is_running c = is_status c.status running && is_some c.pid

-- `Container(config)`
abbrev pub new_container : ContainerConfig → Container
new_container config = record {
  config = config;
  status = created;
  pid = none;
  exit_code = none;
  error = none;
  finalized = false;
  stopping = false;
  started_at = none;
  stopped_at = none;
}

-- `create`, with the outcome of the preparation.
unfoldable pub create : Result String Unit → Exec ContainerError Container Unit
create (ok _) c = (ok tt, record c { status = created })
create (err e) c = (err (failed e), record c { status = error; error = some e })

-- What `clone` and the assignment to the cgroup do: the second may fail when the child runs.
pub data Spawn : Type 0 where
  spawned : ℕ → Spawn
  clone_failed : String → Spawn
  assign_failed : ℕ → String → Spawn

abbrev pub launch : Spawn → Exec ContainerError Container Unit
launch (spawned pid) c =
    (ok tt, record c { pid = some pid; status = running; finalized = false; stopping = false })
launch (clone_failed e) c = (err (failed e), record c { status = error; error = some e })
launch (assign_failed pid e) c =
    (err (failed e), record c { pid = some pid; status = error; error = some e })

-- `self.status == ERROR and self._error`: an empty text is false.
abbrev pub not_blank : Option String → Option String
not_blank none = none
not_blank (some e) = if str_eq e "" then none else some e

abbrev pub in_error : Container → Option String
in_error c = if is_status c.status error then not_blank c.error else none

unfoldable pub start : ℕ → Spawn → Exec ContainerError Container Unit
start now spawn c =
    if is_status c.status running
    then (err (already_running c.config.container_id), c)
    else elim (in_error c) [
      | some e ↦ (err (in_error_state e), c)
      | none ↦
          launch spawn
            (record c { started_at = some now; stopped_at = none; exit_code = none; error = none })
    ]

unfoldable pub finalize_stop : ℕ → Container → Container
finalize_stop now c =
    if c.finalized
    then c
    else record c { finalized = true; status = stopped; stopped_at = some now; pid = none }

-- How the wait of `stop` ends: the process was gone at SIGTERM; it was reaped, with an exit code or
-- by a signal; the monitor had reaped it; or it was killed after the timeout.
pub data Stopping : Type 0 where
  gone signalled reaped_before killed : Stopping
  exited : ℕ → Stopping

abbrev pub stop_code : Stopping → Option ℤ → Option ℤ
stop_code gone old = some (pos 0)
stop_code (exited n) old = some (pos n)
stop_code signalled old = some (negsuc 0)
stop_code reaped_before old = old
stop_code killed old = some (negsuc 0)

-- The part before the wait, and the part after it.
unfoldable pub begin_stop : Exec ContainerError Container Unit
begin_stop c =
    if is_running c
    then (ok tt, record c { stopping = true })
    else (err (already_stopped c.config.container_id), c)

unfoldable pub end_stop : ℕ → Stopping → Container → Container
unfolding finalize_stop
end_stop now how c = finalize_stop now (record c { exit_code = stop_code how c.exit_code })

-- What one poll of the monitor finds.
pub data Poll : Type 0 where
  alive reaped_already : Poll
  child_exited : ℕ → Bool → Poll
  child_signalled : ℕ → Bool → Poll

-- The message, without the number that it prints.
abbrev pub note_oom : Bool → Container → Container
note_oom true c = record c { error = some "Container exceeded memory limit" }
note_oom false c = c

-- What the monitor does with it. The test of `_stop_event` comes before: `stop` may set it between.
unfoldable pub reap : ℕ → Poll → Container → Container
unfolding finalize_stop
reap now alive c = c
reap now reaped_already c = c
reap now (child_exited code oom) c =
    finalize_stop now (note_oom oom (record c { exit_code = some (pos code) }))
reap now (child_signalled sig oom) c =
    finalize_stop now (note_oom oom (record c { exit_code = some (pos (128 + sig)) }))

-- One turn of `_monitor_process`.
unfoldable pub monitor : ℕ → Poll → Container → Container
unfolding reap
monitor now poll c = if c.stopping then c else reap now poll c
