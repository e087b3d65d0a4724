-- ===== src/Cluster/Deploy/Outcome.antt =====
-- What a rolling update that returns leaves: its status, and the deployment.
use pycrate.Base.{
  ℤ, pos, negsuc, ℕ, ◌≡◌, Bool, Option, none, some, length, str_eq, ◌==◌, if◌then◌else◌,
}
use pycrate.Cluster.Floats.{Floats}
use pycrate.Cluster.Table.{update as update_rows}
use pycrate.Cluster.Types.{ClusterState, Deployment}
use pycrate.Cluster.State.{get_deployment}
use pycrate.Cluster.Deploy.{Rolling, completed, failed}
use pycrate.Cluster.Deploy.Update.{Changes}

-- The deployment of that name in the store is as asked.
pub record Stored (want : Deployment) (s : ClusterState) : Type 0 where
  pub row : Deployment
  pub there : get_deployment want.service_name s ≡ some row
  pub image : row.image ≡ want.image
  pub command : row.command ≡ want.command
  pub cpu : row.cpu ≡ want.cpu
  pub memory : row.memory ≡ want.memory
  pub replicas : row.replicas ≡ want.replicas
  pub restart : row.restart ≡ want.restart
  pub env : row.env ≡ want.env

-- How a rollout ends that has replaced so many containers.
pub record Ended (n : ℕ) (want : Deployment) (r : Rolling) : Type 0 where
  pub updated : r.rollout.updated ≡ n
  pub state : r.rollout.state ≡ (if r.rollout.failed == 0 then completed else failed)
  pub stored : Stored want r.store

-- An argument of `update` that is given and not false, else the old value.
abbrev pub chosen {ℓ} : {A : Type ℓ} → (A → Bool) → Option A → A → A
chosen is_false none old = old
chosen is_false (some new) old = if is_false new then old else new

-- How many containers are replaced, by the sign of the batch size.
abbrev pub replaced : ℤ → ℕ → ℕ
replaced (pos _) n = n
replaced (negsuc _) n = 0

-- How a rollout of these changes ends, with so many containers at its start.
pub record RolledOut (dep : Deployment) (changes : Changes) (n : ℕ) (r : Rolling) : Type 0 where
  pub updated : r.rollout.updated ≡ n
  pub state : r.rollout.state ≡ (if r.rollout.failed == 0 then completed else failed)
  pub row : Deployment
  pub there : get_deployment dep.service_name r.store ≡ some row
  pub image : row.image ≡ chosen (λ t. str_eq t "") changes.new_image dep.image
  pub command : row.command ≡ chosen (λ l. length l == 0) changes.new_command dep.command
  pub cpu : row.cpu ≡ chosen (λ n. n == 0) changes.new_cpu dep.cpu
  pub memory : row.memory ≡ chosen (λ n. n == 0) changes.new_memory dep.memory
  pub replicas : row.replicas ≡ dep.replicas
  pub restart : row.restart ≡ dep.restart
  pub env : row.env ≡ dep.env
