-- ===== src/Cluster/Agent/Done.antt =====
-- What a cycle leaves to do.
use pycrate.Base.{
  ℕ, ◌≡◌, refl, ap, ◌∙◌, Bool, true, false, not, ◌&&◌, ◌||◌, String, List, [], ◌∷◌, some, any,
  arith, eq_iff, str_eq, length,
}
use pycrate.Base.Exec.{Result, ok, err, ◌>>=◌}
use pycrate.Cluster.Types.{NodeInfo, Assignment}
use pycrate.Cluster.State.{get_node, get_pending_assignments}
use pycrate.Cluster.Master.{Answer, state, with_state}
use pycrate.Cluster.Master.Handlers.{
  heartbeat, get_assignments, acknowledge_each, ack_assignments as acked,
}
use pycrate.Cluster.Master.Routes.{serve}
use pycrate.Cluster.Agent.{Agent, AgentError, Outside, execute_assignment, heartbeat_body}
use pycrate.Cluster.Agent.Loop.{
  World, Weather, delivered, send, send_heartbeat, poll_assignments, completed, execute_each,
  ack_assignments, work_off, cycle,
}
use pycrate.Cluster.Agent.Pending.{
  named, is_in, any-waits-acknowledge_each, any-get_pending, pending-same, Beaten, heartbeat-Beaten,
}

-- All requests arrive and are answered.
abbrev pub calm : (ℕ → Outside) → Weather
calm outside = record {
  on_heartbeat = delivered;
  on_poll = delivered;
  on_ack = delivered;
  outside = outside;
}

agent-Beaten :
    (w : World) (x : NodeInfo)
    → get_node w.agent.node_id (state w.master) ≡ some x
    → ((a : Answer) × ((heartbeat (heartbeat_body w.agent) w.master).0 ≡ ok a))
      × Beaten w.agent.node_id w.master (heartbeat (heartbeat_body w.agent) w.master).1
unfolding heartbeat_body
agent-Beaten w x h = heartbeat-Beaten (heartbeat_body w.agent) w.master x h

send_heartbeat-known :
    (w : World) (x : NodeInfo)
    → get_node w.agent.node_id (state w.master) ≡ some x
    → send_heartbeat delivered w
      ≡ (ok tt, record w { master = (heartbeat (heartbeat_body w.agent) w.master).1 })
unfolding send_heartbeat send serve ◌>>=◌
send_heartbeat-known w x h = let ((a, e), b) = agent-Beaten w x h in rw e

poll_assignments-known :
    (w : World) (x : NodeInfo)
    → get_node w.agent.node_id (state w.master) ≡ some x
    → poll_assignments delivered w
      ≡ (ok (get_pending_assignments w.agent.node_id (state w.master)), w)
unfolding poll_assignments send serve get_assignments ◌>>=◌
poll_assignments-known w x h = rw (h, get_assignments)

-- What the acknowledgement of the ids does; with none there is no request.
ack_assignments-served :
    (ids : List String) (w : World)
    → ack_assignments delivered ids w
      ≡ (ok tt, record w { master = with_state (acknowledge_each ids (state w.master)) w.master })
unfolding send serve acked acknowledge_each ◌>>=◌
ack_assignments-served [] w = refl
ack_assignments-served (id ∷ ids) w = refl

abbrev is_ok : Result AgentError Unit → Bool
is_ok (ok u) = true
is_ok (err e) = false

-- An execution of the assignment with the id returned. Each is run on the agent that those before
-- it left.
unfoldable pub returned : String → (ℕ → Outside) → List Assignment → Agent → Bool
returned k outside [] a = false
returned k outside (x ∷ rest) a =
    let (result, a') = execute_assignment (outside (length rest)) x a in
    (named k x && is_ok result) || returned k outside rest a'

is_in-completed :
    (k id : String) (r : Result AgentError Unit) (ids : List String)
    → is_in k (completed id r ids) ≡ (str_eq id k && is_ok r || is_in k ids)
is_in-completed k id (ok u) ids = ground (arith, eq_iff k id, eq_iff id k)
is_in-completed k id (err e) ids = ground arith

pub is_in-execute_each :
    (k : String) (outside : ℕ → Outside) (work : List Assignment) (a : Agent)
    → is_in k (execute_each outside work a).0 ≡ returned k outside work a
unfolding execute_each returned
is_in-execute_each k outside [] a = refl
is_in-execute_each k outside (x ∷ rest) a =
    let (result, a') = execute_assignment (outside (length rest)) x a in
    is_in-completed k x.assignment_id result (execute_each outside rest a').0
    ∙ ap (λ b. named k x && is_ok result || b) (is_in-execute_each k outside rest a')

pub record Done (outside : ℕ → Outside) (w : World) (r : Result AgentError Unit × World)
    : Type 0 where
  pub returns : r.0 ≡ ok tt
  pub agent :
      r.1.agent
      ≡ (execute_each outside (get_pending_assignments w.agent.node_id (state w.master)) w.agent).1
  pub pending :
      (k : String)
      → any (named k) (get_pending_assignments w.agent.node_id (state r.1.master)) ≡ (
          any (named k) (get_pending_assignments w.agent.node_id (state w.master))
          && not (
              returned k outside
                (get_pending_assignments w.agent.node_id (state w.master))
                w.agent))

-- Where the master knows the node and every request is answered, a cycle returns; the agent has
-- executed the assignments that were pending for its node, in their order; and an id is pending
-- after it exactly if it was before and no execution under it returned.
pub cycle-Done :
    (outside : ℕ → Outside) (w : World) (x : NodeInfo)
    → get_node w.agent.node_id (state w.master) ≡ some x
    → Done outside w (cycle (calm outside) w)
unfolding cycle work_off ◌>>=◌
cycle-Done outside w x h =
    let node = w.agent.node_id in
    let (_, b) = agent-Beaten w x h in
    let m = (heartbeat (heartbeat_body w.agent) w.master).1 in
    let w' : World = record w { master = m } in
    let work = get_pending_assignments node (state m) in
    let (ids, a) = execute_each outside work w.agent in
    let same = pending-same node (state w.master) (state m) b.work in
    let executed = ap (λ l. execute_each outside l w.agent) same in
    rw
      (
        send_heartbeat-known w x h,
        poll_assignments-known w' b.row b.known,
        ack_assignments-served ids (record w' { agent = a }),
      )
      (record {
        returns = refl;
        agent = ap (λ e. e.1) executed;
        pending = λ k.
            any-get_pending node k (acknowledge_each ids (state m))
            ∙ any-waits-acknowledge_each node k ids (state m)
            ∙ rw (
              b.work,
              executed,
              any-get_pending node k (state w.master),
              is_in-execute_each k outside (get_pending_assignments node (state w.master)) w.agent,
            );
      })
