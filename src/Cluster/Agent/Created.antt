-- ===== src/Cluster/Agent/Created.antt =====
-- From an assignment to the row that the next heartbeat writes.
use pycrate.Base.{
  ℕ, ◌≡◌, refl, sym, ap, subst, ◌∙◌, inl, inr, Bool, true, false, String, List, [], ◌∷◌, some, any,
  arith, eq_iff, eq_refl, str_eq, if◌then◌else◌, All, Bool-cases,
}
use pycrate.Base.Dicts.{set}
use pycrate.Base.Exec.{Result, ok, err}
use pycrate.Cluster.Table.{Unique}
use pycrate.Cluster.State.{now}
use pycrate.Cluster.Validity.{Result-cases}
use pycrate.Engine.Config.{ContainerConfig}
use pycrate.Engine.Container.{
  Container, ContainerStatus, Spawn, spawned, clone_failed, assign_failed, new_container, start,
  create,
}
use pycrate.Engine.Container.Manager.{
  ContainerManager, create_container as engine_create, register, start_container, get_container,
  put, at_limit, lookup,
}
use pycrate.Cluster.Agent.{Agent, Outside, launch}

-- The container whose process was just spawned.
abbrev pub live : ContainerConfig → ℕ → ℕ → Container
live config now pid = record (new_container config) {
  status = ContainerStatus.running;
  pid = some pid;
  started_at = some now;
}

put-put :
    (id : String) (c d : Container) (cs : List (String × Container))
    → put id d (put id c cs) ≡ put id d cs
unfolding put
put-put id c d [] = rw (eq_refl id, if◌then◌else◌)
put-put id c d ((k, old) ∷ rest) = elim (Bool-cases (str_eq k id)) [
  | inl e ↦ rw (e, if◌then◌else◌, e)
  | inr e ↦ rw (e, if◌then◌else◌, e, put-put id c d rest)
]

lookup-put :
    (id : String) (c : Container) (cs : List (String × Container))
    → lookup id (put id c cs) ≡ some c
unfolding put
lookup-put id c [] = rw (eq_refl id, if◌then◌else◌)
lookup-put id c ((k, old) ∷ rest) = elim (Bool-cases (str_eq k id)) [
  | inl e ↦ rw (e, if◌then◌else◌, e)
  | inr e ↦ rw (e, if◌then◌else◌, e, lookup-put id c rest)
]

pub record Live (id : String) (deployment : String) (config : ContainerConfig) (o : Outside)
    (a b : Agent) : Type 0 where
  pub pid : ℕ
  pub registry :
      b.manager.containers ≡ put id (live config o.now pid) (o.between a.manager).containers
  pub mapped : b.deployment_map ≡ set id deployment a.deployment_map
  pub node : b.node_id ≡ a.node_id

register-ok :
    (c : Container) (m : ContainerManager)
    → (register c m).0 ≡ ok tt
    → (register c m).1 ≡ record m { containers = put c.config.container_id c m.containers }
unfolding register
register-ok c m h = elim (Bool-cases (at_limit m)) [
  | inl e ↦ absurd (cc (rw (e, if◌then◌else◌) at h))
  | inr e ↦ rw (e, if◌then◌else◌)
]

engine_create-ok :
    (config : ContainerConfig) (p : Result String Unit)
    (between : ContainerManager → ContainerManager) (m : ContainerManager)
    → (engine_create config p between m).0 ≡ ok tt
    → (engine_create config p between m).1 ≡ record (between m) {
      containers = put config.container_id (new_container config) (between m).containers;
    }
unfolding engine_create create
engine_create-ok config (err x) between m h = elim (Bool-cases (at_limit m)) [
  | inl e ↦ absurd (cc (rw (e, if◌then◌else◌) at h))
  | inr e ↦ absurd (cc (rw (e, if◌then◌else◌) at h))
]
engine_create-ok config (ok _) between m h = elim (Bool-cases (at_limit m)) [
  | inl e ↦ absurd (cc (rw (e, if◌then◌else◌) at h))
  | inr e ↦
      rw (e, if◌then◌else◌)
        (register-ok (new_container config) (between m) (rw (e, if◌then◌else◌) at h))
]

start-ok :
    (config : ContainerConfig) (now : ℕ) (spawn : Spawn) (m : ContainerManager)
    → lookup config.container_id m.containers ≡ some (new_container config)
    → (start_container config.container_id now spawn m).0 ≡ ok tt
    → (pid : ℕ) × ((start_container config.container_id now spawn m).1
        ≡ record m { containers = put config.container_id (live config now pid) m.containers })
unfolding start_container get_container start
start-ok config now (spawned pid) m f h = (pid, rw (f, start_container))
start-ok config now (clone_failed e) m f h = absurd (cc (rw (f, start_container) at h))
start-ok config now (assign_failed p e) m f h = absurd (cc (rw (f, start_container) at h))

pub launch-Live :
    (deployment : String) (config : ContainerConfig) (o : Outside) (a : Agent)
    → (launch deployment config o a).0 ≡ ok tt
    → Live config.container_id deployment config o a (launch deployment config o a).1
unfolding launch
launch-Live deployment config o a h =
    let id = config.container_id in
    let m = o.between a.manager in
    let made = engine_create config o.preparation o.between a.manager in
    let begun = start_container id o.now o.spawn made.1 in
    elim (Result-cases made.0) [
      | inr (u, e) ↦ absurd (cc (rw (e, launch) at h))
      | inl (u, e) ↦ elim (Result-cases begun.0) [
        | inr (v, f) ↦ absurd (cc (rw (e, f, launch) at h))
        | inl (v, f) ↦
            (let there = engine_create-ok config o.preparation o.between a.manager e in
              let found : lookup id made.1.containers ≡ some (new_container config) =
                ap (λ n. lookup id n.containers) there
                ∙ lookup-put id (new_container config) m.containers in
              let (pid, running) = start-ok config o.now o.spawn made.1 found f in
              rw (e, f, launch)
                (record {
                  pid = pid;
                  registry =
                      ap (λ n. n.containers) running
                      ∙ ap (λ n. put id (live config o.now pid) n.containers) there
                      ∙ put-put id (new_container config) (live config o.now pid) m.containers;
                  mapped = refl;
                  node = refl;
                }))
      ]
    ]

-- Every entry of the registry stands under its container's id, and each id once.
abbrev pub Kept : List (String × Container) → Type 0
Kept cs = All (λ e. e.1.config.container_id ≡ e.0) cs × Unique (λ e. e.0) cs

-- An entry of a list in which no other has its id.
module _ (p : Container → Bool) (id : String) where
  abbrev pub Only : List (String × Container) → Type 0
  Only = All (λ e. str_eq e.1.config.container_id id ≡ true → p e.1 ≡ true)

  Only-absent :
      (cs : List (String × Container))
      → All (λ e. e.1.config.container_id ≡ e.0) cs
      → any (λ e. str_eq e.0 id) cs ≡ false
      → Only cs
  Only-absent [] h u = tt
  Only-absent ((k, c) ∷ rest) h u =
      (λ e. ground (arith, h.0, e, u), Only-absent rest h.1 (ground (arith, u)))

  pub Only-put :
      (c : Container) (cs : List (String × Container)) → p c ≡ true → Kept cs → Only (put id c cs)
  unfolding put
  Only-put c [] e k = (λ _. e, tt)
  Only-put c ((j, old) ∷ rest) e k = elim (Bool-cases (str_eq j id)) [
    | inl f ↦
        rw (f, if◌then◌else◌)
          (
            λ _. e,
            Only-absent rest k.0.1
                (subst (λ i. any (λ x. str_eq x.0 i) rest ≡ false) ((eq_iff j id).0 f) k.1.0),
          )
    | inr f ↦
        rw (f, if◌then◌else◌)
          (
            λ g. absurd (cc (sym g ∙ ap (λ i. str_eq i id) k.0.0 ∙ f)),
            Only-put c rest e (k.0.1, k.1.1),
          )
  ]

  pub any-put :
      (c : Container) (cs : List (String × Container))
      → p c ≡ true
      → any (λ e. p e.1) (put id c cs) ≡ true
  unfolding put
  any-put c [] e = ground arith
  any-put c ((j, old) ∷ rest) e = ground (arith, any-put c rest e)
