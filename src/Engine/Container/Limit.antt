-- ===== src/Engine/Container/Limit.antt =====
-- The limit on the containers of one host.
use pycrate.Base.{
  ℕ, ◌+◌, ◌≤◌, ◌≡◌, refl, ap, inl, inr, false, ◌||◌, String, List, [], ◌∷◌, none, some, arith,
  str_eq, if◌then◌else◌, Bool-cases,
}
use pycrate.Base.Exec.{Result, ok, err}
use pycrate.Engine.Config.{ContainerConfig}
use pycrate.Engine.Container.{
  Container, created, running, stopped, is_status, new_container, create, spawned, start,
}
use pycrate.Engine.Container.Manager.{
  ContainerManager, is_active, active, put, lookup, at_limit, register, create_container,
  get_container, start_container,
}

active-put :
    (id : String) (c : Container) (cs : List (String × Container))
    → active (put id c cs) ≤ active cs + 1
unfolding active put
active-put id c [] = ground arith
active-put id c ((k, old) ∷ rest) = ground (arith, active-put id c rest)

active-put_found :
    (id : String) (c old : Container) (cs : List (String × Container))
    → lookup id cs ≡ some old
    → active (put id c cs) + (if is_active old then 1 else 0)
      ≡ active cs + (if is_active c then 1 else 0)
unfolding active put
active-put_found id c old [] h = absurd (cc h)
active-put_found id c old ((k, x) ∷ rest) h = elim (Bool-cases (str_eq k id)) [
  | inl e ↦
      (let one : x ≡ old = cc (rw (e, lookup) at h) in
        let same : is_active x ≡ is_active old = ap is_active one in ground (arith, same))
  | inr e ↦ ground (arith, active-put_found id c old rest (rw (e, lookup) at h))
]

register-limit :
    (c : Container) (m : ContainerManager)
    → (register c m).0 ≡ ok tt
    → active (register c m).1.containers ≤ (register c m).1.max_containers
unfolding register
register-limit c m h = elim (Bool-cases (at_limit m)) [
  | inl e ↦ absurd (cc (rw (e, if◌then◌else◌) at h))
  | inr e ↦ rw (e, if◌then◌else◌) (ground (arith, active-put c.config.container_id c m.containers))
]

-- Whatever other threads do to the registry during the preparation, a `create_container` that
-- returns leaves no more created and running containers than the limit.
pub create_container-limit :
    (config : ContainerConfig) (preparation : Result String Unit)
    (between : ContainerManager → ContainerManager) (m : ContainerManager)
    → (create_container config preparation between m).0 ≡ ok tt
    → let m' = (create_container config preparation between m).1 in
      active m'.containers ≤ m'.max_containers
unfolding create_container create
create_container-limit config (err x) between m h = elim (Bool-cases (at_limit m)) [
  | inl e ↦ absurd (cc (rw (e, if◌then◌else◌) at h))
  | inr e ↦ absurd (cc (rw (e, if◌then◌else◌) at h))
]
create_container-limit config (ok _) between m h = elim (Bool-cases (at_limit m)) [
  | inl e ↦ absurd (cc (rw (e, if◌then◌else◌) at h))
  | inr e ↦
      rw (e, if◌then◌else◌)
        (register-limit (create (ok tt) (new_container config)).1 (between m)
          (rw (e, if◌then◌else◌) at h))
]

abbrev started : ℕ → ℕ → Container → Container
started now pid c = record c {
  pid = some pid;
  status = running;
  exit_code = none;
  error = none;
  finalized = false;
  stopping = false;
  started_at = some now;
  stopped_at = none;
}

-- A stopped container that is started, and whose process is spawned, starts and counts once more,
-- whatever the limit is.
start_container-active :
    (id : String) (now pid : ℕ) (c : Container) (m : ContainerManager)
    → lookup id m.containers ≡ some c
    → c.status ≡ stopped
    → ((start_container id now (spawned pid) m).0 ≡ ok tt)
      × (active (start_container id now (spawned pid) m).1.containers ≡ active m.containers + 1)
unfolding start_container get_container start
start_container-active id now pid c m h q =
    let c' = started now pid c in
    let old : is_active c ≡ false = ap (λ s. is_status s created || is_status s running) q in
    let grown : active (put id c' m.containers) ≡ active m.containers + 1 =
      ground (arith, active-put_found id c' c m.containers h, old) in
    rw (h, start_container, get_container) (rw q (refl, grown))
