-- ===== src/Cluster/Agent/Stuck.antt =====
-- Assignments that no agent can execute.
use pycrate.Base.{Bool, true, false, ◌&&◌, ◌||◌, leb}
use pycrate.Base.Exec.{Result, ok, err}
use pycrate.Cluster.Types.{Assignment}
use pycrate.Cluster.State.{is_create}
use pycrate.Engine.Config.{ContainerConfig, ValueError}
use pycrate.Cluster.Master.{Master}
use pycrate.Cluster.Master.Handlers.{ack_assignments as acked}
use pycrate.Cluster.Agent.{Agent}
use pycrate.Cluster.Agent.Loop.{ack_assignments}

-- More CPU than a container may have, or less memory: `ContainerConfig` rejects it, a deploy request
-- does not.
abbrev pub oversized : Assignment → Bool
oversized a = is_create a.action && (leb 101 a.cpu || leb a.memory 3)

abbrev rejected : Result ValueError ContainerConfig → Bool
rejected (ok c) = false
rejected (err e) = true
