-- ===== src/Engine/Container/Manager.antt =====
-- `ContainerManager`: the registry and its limit. What the other threads do to the registry while
-- `create_container` prepares the container, outside of the lock, is the parameter `between`.
use pycrate.Base.{
  ℕ, Bool, ◌||◌, String, List, [], ◌∷◌, Option, none, some, map, select, count, leb, str_eq,
  if◌then◌else◌,
}
use pycrate.Base.Exec.{Exec, Result, ok, err}
use pycrate.Cluster.Table.{delete}
use pycrate.Engine.Config.{ContainerConfig}
use pycrate.Engine.Container.{
  Container, ContainerError, limit_reached, not_found, ContainerStatus, created, running, is_status,
  new_container, create, Spawn, start, Stopping, begin_stop, end_stop,
}

pub record ContainerManager : Type 0 where
  pub max_containers : ℕ
  pub containers : List (String × Container)

abbrev pub is_active : Container → Bool
is_active c = is_status c.status created || is_status c.status running

unfoldable pub active : List (String × Container) → ℕ
active cs = count (λ e. is_active e.1) cs

-- `self._containers[container_id] = container`
unfoldable pub put : String → Container → List (String × Container) → List (String × Container)
put id c [] = (id, c) ∷ []
put id c ((k, old) ∷ rest) = if str_eq k id then (k, c) ∷ rest else (k, old) ∷ put id c rest

abbrev pub lookup : String → List (String × Container) → Option Container
lookup id [] = none
lookup id ((k, c) ∷ rest) = if str_eq k id then some c else lookup id rest

abbrev pub at_limit : ContainerManager → Bool
at_limit m = leb m.max_containers (active m.containers)

-- The second test and the registration, under the lock.
unfoldable pub register : Container → Exec ContainerError ContainerManager Unit
unfolding active put
register c m =
    if at_limit m
    then (err (limit_reached m.max_containers), m)
    else (ok tt, record m { containers = put c.config.container_id c m.containers })

unfoldable pub create_container :
    ContainerConfig
    → Result String Unit
    → (ContainerManager → ContainerManager)
    → Exec ContainerError ContainerManager Unit
unfolding register
create_container config preparation between m =
    let (made, c) = create preparation (new_container config) in
    if at_limit m
    then (err (limit_reached m.max_containers), m)
    else elim made [ err e ↦ (err e, between m) | ok _ ↦ register c (between m) ]

unfoldable pub get_container : String → ContainerManager → Result ContainerError Container
get_container id m = elim (lookup id m.containers) [ none ↦ err (not_found id) | some c ↦ ok c ]

-- The object that `get_container` returns is changed in place.
abbrev pub changed : String → Container → ContainerManager → ContainerManager
changed id c m = record m { containers = put id c m.containers }

unfoldable pub start_container : String → ℕ → Spawn → Exec ContainerError ContainerManager Unit
unfolding get_container
start_container id now spawn m = elim (get_container id m) [
  | err e ↦ (err e, m)
  | ok c ↦ (let (result, c') = start now spawn c in (result, changed id c' m))
]

-- `stop`, where nothing comes between its halves.
abbrev pub stop_whole : ℕ → Stopping → Exec ContainerError Container Unit
stop_whole now how c =
    let (result, c') = begin_stop c in
    elim result [ err e ↦ (err e, c') | ok _ ↦ (ok tt, end_stop now how c') ]

unfoldable pub stop_container : String → ℕ → Stopping → Exec ContainerError ContainerManager Unit
unfolding get_container
stop_container id now how m = elim (get_container id m) [
  | err e ↦ (err e, m)
  | ok c ↦ (let (result, c') = stop_whole now how c in (result, changed id c' m))
]

-- `destroy` stops a running container and gives its resources back; then the entry goes.
unfoldable pub remove_container : String → Exec ContainerError ContainerManager Unit
unfolding get_container
remove_container id m = elim (get_container id m) [
  | err e ↦ (err e, m)
  | ok c ↦ (ok tt, record m { containers = delete (λ e. str_eq e.0 id) m.containers })
]

unfoldable pub list_containers : Option ContainerStatus → ContainerManager → List Container
list_containers none m = map (λ e. e.1) m.containers
list_containers (some status) m =
    select (λ c. is_status c.status status) (map (λ e. e.1) m.containers)
