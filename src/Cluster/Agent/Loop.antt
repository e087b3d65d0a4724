-- ===== src/Cluster/Agent/Loop.antt =====
-- `_cycle`, its four steps and the loop of `run`, with the master that answers them.
use pycrate.Base.{ℕ, suc, ◌*◌, ◌^◌, min, String, List, [], ◌∷◌, length}
use pycrate.Base.Exec.{Exec, Result, ok, err, ◌>>=◌, ◌>>◌, pure}
use pycrate.Cluster.Types.{Assignment}
use pycrate.Cluster.Master.{Answer, HttpError, Master}
use pycrate.Cluster.Master.Routes.{Request, serve}
use pycrate.Cluster.Agent.{
  Agent, AgentError, unreachable, http_error, Outside, heartbeat_body, join_body,
  execute_assignment,
}

pub record World : Type 0 where
  pub master : Master
  pub agent : Agent

-- A request is served and answered, or it does not arrive, or its answer is lost.
pub data Delivery : Type 0 where
  delivered lost answer_lost : Delivery

-- What becomes of the three requests of a cycle, and what happens outside for each assignment.
pub record Weather : Type 0 where
  pub on_heartbeat : Delivery
  pub on_poll : Delivery
  pub on_ack : Delivery
  pub outside : ℕ → Outside

-- `urlopen` raises where the status is not 200.
abbrev pub answered : Result HttpError Answer → Result AgentError Answer
answered (ok a) = ok a
answered (err e) = err (http_error e)

unfoldable pub send : Delivery → Request → Exec AgentError World Answer
send delivered r w =
    let (answer, m) = serve r w.master in (answered answer, record w { master = m })
send lost r w = (err unreachable, w)
send answer_lost r w = (err unreachable, record w { master = (serve r w.master).1 })

-- What `_register` raises is only logged.
unfoldable pub register : Delivery → World → World
unfolding send
register d w = (send d (Request.join (join_body w.agent)) w).1

unfoldable pub send_heartbeat : Delivery → Exec AgentError World Unit
unfolding send heartbeat_body ◌>>=◌
send_heartbeat d w = (send d (Request.beat (heartbeat_body w.agent)) >> pure tt) w

-- `resp.get("assignments", [])`
abbrev pub assignments_of : Answer → List Assignment
assignments_of (Answer.work_to_do l) = l
assignments_of _ = []

unfoldable pub poll_assignments : Delivery → Exec AgentError World (List Assignment)
unfolding send ◌>>=◌
poll_assignments d w =
    (send d (Request.poll w.agent.node_id) >>= λ answer. pure (assignments_of answer)) w

abbrev pub completed : String → Result AgentError Unit → List String → List String
completed id (ok _) ids = id ∷ ids
completed id (err e) ids = ids

-- Step 3: the ids of the assignments whose execution returned, in order.
unfoldable pub execute_each : (ℕ → Outside) → List Assignment → Agent → List String × Agent
execute_each outside [] a = ([], a)
execute_each outside (work ∷ rest) a =
    let (result, a') = execute_assignment (outside (length rest)) work a in
    let (ids, a'') = execute_each outside rest a' in (completed work.assignment_id result ids, a'')

abbrev pub ack_assignments : Delivery → List String → Exec AgentError World Unit
ack_assignments d [] = pure tt
ack_assignments d (id ∷ ids) = send d (Request.ack (id ∷ ids)) >> pure tt

-- Steps 3 and 4.
unfoldable pub work_off : (ℕ → Outside) → Delivery → List Assignment → Exec AgentError World Unit
unfolding execute_each send ◌>>=◌
work_off outside d work w =
    let (ids, a) = execute_each outside work w.agent in
    ack_assignments d ids (record w { agent = a })

unfoldable pub cycle : Weather → Exec AgentError World Unit
unfolding ◌>>=◌
cycle t = do
  send_heartbeat t.on_heartbeat
  work ← poll_assignments t.on_poll
  work_off t.outside t.on_ack work

abbrev pub poll_interval : ℕ
poll_interval = 5

abbrev pub max_retry_delay : ℕ
max_retry_delay = 60

abbrev pub backoff : ℕ → ℕ
backoff failures = min (poll_interval * 2 ^ failures) max_retry_delay

abbrev pub with_failures : ℕ → World → World
with_failures n w = record w { agent = record w.agent { consecutive_failures = n } }

-- The handlers of the loop, and the seconds that it then sleeps. An answer with an error status is a
-- `URLError` too; the other errors do not leave `_cycle`.
abbrev pub after_cycle : Result AgentError Unit → World → World × ℕ
after_cycle (ok _) w = (with_failures 0 w, poll_interval)
after_cycle (err unreachable) w =
    let n = suc w.agent.consecutive_failures in (with_failures n w, backoff n)
after_cycle (err (http_error e)) w =
    let n = suc w.agent.consecutive_failures in (with_failures n w, backoff n)
after_cycle (err _) w = (w, poll_interval)

unfoldable pub turn : Weather → World → World × ℕ
unfolding cycle
turn t w = let (result, w') = cycle t w in after_cycle result w'

-- The turns of the loop until the signal, with the delays. In its sleeps the agent waits while the
-- master serves others.
module _ (others : Master → Master) where
  unfoldable pub run : List Weather → World → World × List ℕ
  unfolding turn
  run [] w = (w, [])
  run (t ∷ ts) w =
      let (w', delay) = turn t w in
      let (w'', delays) = run ts (record w' { master = others w'.master }) in (w'', delay ∷ delays)
