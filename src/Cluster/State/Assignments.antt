-- ===== src/Cluster/State/Assignments.antt =====
-- The assignments table: the work that agents poll for.
use pycrate.Base.{
  ℕ, ◌-◌, ◌*◌, Bool, true, false, String, List, [], ◌∷◌, ◌++◌, select, sort, count, str_eq, ltb,
  ◌&&◌, not, ◌||◌, if◌then◌else◌,
}
use pycrate.Base.Exec.{Exec, ok, err}
use pycrate.Cluster.Table.{update, delete, has}
use pycrate.Cluster.Types.{
  ClusterState, Assignment, Work, Action, create, stop, StateError, integrity_error, second,
}
use pycrate.Cluster.State.Events.{now, clock_read}
use pycrate.Cluster.State.Nodes.{has_node}

abbrev pub has_assignment : String → List Assignment → Bool
has_assignment = has (λ a. a.assignment_id)

-- Draws an id, reads the clock for the row and once more for the object that it returns.
unfoldable pub create_assignment : Work → Exec StateError ClusterState Assignment
create_assignment work s =
    let drawn = clock_read s in
    let row : Assignment = record {
      assignment_id = s.env.token s.calls;
      work = work;
      created_at = now drawn;
      acknowledged = false;
    } in
    let timed = clock_read drawn in
    if has_assignment row.assignment_id s.assignments || not (has_node work.node_id s.nodes)
    then (err integrity_error, timed)
    else (
      ok (record row { created_at = now timed }),
      record (clock_read timed) { assignments = s.assignments ++ row ∷ [] },
    )

abbrev pub is_pending : Assignment → Bool
is_pending a = not a.acknowledged

-- `ORDER BY created_at`
unfoldable pub get_pending_assignments : String → ClusterState → List Assignment
get_pending_assignments node_id s =
    sort (λ a b. ltb a.created_at b.created_at)
      (select (λ a. str_eq a.node_id node_id && is_pending a) s.assignments)

unfoldable pub acknowledge_assignment : String → ClusterState → ClusterState
acknowledge_assignment assignment_id s = record s {
  assignments =
      update (λ a. str_eq a.assignment_id assignment_id) (λ a. record a { acknowledged = true })
        s.assignments;
}

unfoldable pub clear_old_assignments : ClusterState → ClusterState
clear_old_assignments s =
    let cutoff = now s - 3600 * second in
    record (clock_read s) {
      assignments = delete (λ a. a.acknowledged && ltb a.created_at cutoff) s.assignments;
    }

abbrev pub is_create : Action → Bool
is_create create = true
is_create stop = false

abbrev pub pending_create : String → Assignment → Bool
pending_create deployment_id a =
    str_eq a.deployment_id deployment_id && (is_create a.action && is_pending a)

abbrev pub pending_stop : String → Assignment → Bool
pending_stop container_id a =
    str_eq a.container_id container_id && (not (is_create a.action) && is_pending a)

unfoldable pub count_pending_creates : String → ClusterState → ℕ
count_pending_creates deployment_id s = count (pending_create deployment_id) s.assignments

unfoldable pub has_pending_stop : String → ClusterState → Bool
has_pending_stop container_id s = ltb 0 (count (pending_stop container_id) s.assignments)
