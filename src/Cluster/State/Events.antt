-- ===== src/Cluster/State/Events.antt =====
-- The clock, and the events table.
use pycrate.Base.{ℕ, suc, ◌-◌, ◌*◌, String, List, [], ◌∷◌, ◌++◌, ltb, sort, take}
use mathlib.Core.List.{reverse}
use pycrate.Cluster.Table.{delete}
use pycrate.Cluster.Types.{ClusterState, Event, Message, second, event_retention_seconds}

-- `time.time()`
abbrev pub now : ClusterState → ℕ
now s = s.env.time s.calls

abbrev pub clock_read : ClusterState → ClusterState
clock_read s = record s { calls = suc s.calls }

unfoldable pub add_event : String → Message → String → String → ClusterState → ClusterState
add_event event_type message node_id container_id s = record (clock_read s) {
  events =
      s.events
      ++ record {
        timestamp = now s;
        node_id = node_id;
        container_id = container_id;
        event_type = event_type;
        message = message;
      }
        ∷ [];
}

-- `ORDER BY timestamp DESC LIMIT limit`, which goes backwards through the index on the time: of two
-- events of one time, the later row comes first.
unfoldable pub get_recent_events : ℕ → ClusterState → List Event
get_recent_events limit s =
    take limit (sort (λ a b. ltb b.timestamp a.timestamp) (reverse s.events))

unfoldable pub cleanup_old_events : ClusterState → ClusterState
cleanup_old_events s =
    let cutoff = now s - event_retention_seconds * second in
    record (clock_read s) { events = delete (λ e. ltb e.timestamp cutoff) s.events }
