-- ===== src/Cluster/Deploy/Tests.antt =====
-- A rolling update of a service with two containers, one at a time.
use pycrate.Base.{◌≡◌, negsuc, refl, none, some}
use pycrate.Base.Exec.{◌>>=◌}
use pycrate.Cluster.Table.{update as update_rows}
use pycrate.Cluster.State.{clock_read, create_deployment, upsert_deployment, add_event}
use pycrate.Cluster.Samples.{thousandths, letters, web, store}
use pycrate.Cluster.Deploy.{batches}
use pycrate.Cluster.Deploy.Update.{Changes, run_update, conclude}

abbrev changes : Changes
changes = record {
  new_image = some "alpine:3.21";
  new_cpu = some 30;
  new_memory = none;
  new_command = none;
}

-- A batch size below zero replaces nothing, and the deployment is changed all the same.
nothing_replaced :
    (run_update thousandths clock_read (web 2) changes (negsuc 0) store).1.rollout.updated ≡ 0
unfolding run_update batches conclude create_deployment upsert_deployment add_event ◌>>=◌
    update_rows letters
nothing_replaced = refl
