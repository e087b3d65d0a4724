-- ===== src/Cluster/Agent/Joining.antt =====
-- An agent that the master does not know.
use pycrate.Base.{ℕ, suc, ◌^◌, ◌≡◌, List, [], ◌∷◌, none, arith, ◌≤◌}
use pycrate.Cluster.State.{get_node}
use pycrate.Cluster.Master.{Master, state, node_not_registered}
use pycrate.Cluster.Agent.{Agent, AgentError, unreachable, http_error}
use pycrate.Cluster.Agent.Loop.{
  World, Delivery, delivered, lost, answer_lost, backoff, with_failures,
}

abbrev Unknown : World → Type 0
Unknown w = get_node w.agent.node_id (state w.master) ≡ none

-- The two errors that make the agent back off.
abbrev fault : Delivery → World → AgentError
fault delivered w = http_error (node_not_registered w.agent.node_id)
fault lost w = unreachable
fault answer_lost w = unreachable

abbrev retried : World → World
retried w = with_failures (suc w.agent.consecutive_failures) w

-- The delays of n failures in a row, after k.
abbrev pub delays : ℕ → ℕ → List ℕ
delays k ℕ.zero = []
delays k (suc n) = backoff (suc k) ∷ delays (suc k) n

power_pos : (n : ℕ) → 1 ≤ 2 ^ n
power_pos ℕ.zero = omega arith
power_pos (suc n) = omega (arith, power_pos n)

-- Whatever the number of failures in a row, a delay is between ten seconds and a minute; one more
-- failure never makes it shorter; from the fourth failure on it is a minute.
backoff_bounds :
    (n : ℕ)
    → (10 ≤ backoff (suc n))
      × (backoff (suc n) ≤ 60)
      × (backoff (suc n) ≤ backoff (suc (suc n)))
      × (backoff (suc (suc (suc (suc n)))) ≡ 60)
backoff_bounds n = ground (arith, power_pos n)
