-- ===== src/Orchestrator/Compose/Fresh.antt =====
-- An instance that `_create_instance` made.
use pycrate.Base.{ℕ, ◌≡◌, refl, subst, inl, inr, ◌⊎◌, String, Option, some}
use pycrate.Base.Exec.{ok}
use pycrate.Cluster.Validity.{Result-cases}
use pycrate.Engine.Config.{ContainerConfig, post_init}
use pycrate.Engine.Container.{ContainerError}
use pycrate.Orchestrator.Health.{HealthChecker}
use pycrate.Engine.Container.Manager.{ContainerManager, create_container, start_container}
use pycrate.Orchestrator.Manifest.{ServiceConfig}
use pycrate.Orchestrator.Compose.{
  running, error, ServiceInstance, ComposeEngine, Outside, failed_with, next, new_instance,
  config_of, bring_up, create_instance,
}

-- An instance that was just created.
abbrev pub Fresh : ServiceInstance → Type 0
Fresh i = (i.state ≡ running) ⊎ (i.state ≡ error)

-- What holds of an instance whose creation failed, and of one that runs, holds of a new one.
module _ (P : ServiceInstance → Type 0) where
  bring_up_either :
      (service : ServiceConfig) (config : ContainerConfig) (o : Outside) (i : ServiceInstance)
      (m : ContainerManager)
      → ((e : ContainerError) → P (failed_with e i))
      → ((h : Option HealthChecker)
          → P (record i {
            container = some config.container_id;
            state = running;
            health_checker = h;
          }))
      → P (bring_up service config o i m).0
  unfolding bring_up
  bring_up_either service config o i m fails works =
      let made = create_container config o.preparation o.between m in
      let begun = start_container config.container_id o.now o.spawn made.1 in
      elim (Result-cases made.0) [
        | inr (u, e) ↦ rw (e, bring_up) (fails u)
        | inl (u, e) ↦ elim (Result-cases begun.0) [
          | inr (v, f) ↦ rw (e, f, bring_up) (fails v)
          | inl (v, f) ↦ rw (e, f, bring_up) (works _)
        ]
      ]

  pub create_instance_either :
      (service : ServiceConfig) (index : ℕ) (e : ComposeEngine) (i : ServiceInstance)
      → (create_instance service index e).0 ≡ ok i
      → ((x : ContainerError) → P (failed_with x (new_instance service index (next e).now)))
      → ((id : String) (h : Option HealthChecker)
          → P (record (new_instance service index (next e).now) {
            container = some id;
            state = running;
            health_checker = h;
          }))
      → P i
  unfolding create_instance
  create_instance_either service index e i h fails works =
      let new = new_instance service index (next e).now in
      elim (Result-cases (post_init (config_of service new (next e).container_id))) [
        | inr (u, f) ↦ absurd (cc (rw (f, create_instance) at h))
        | inl (config, f) ↦
            (let same : (bring_up service config (next e) new e.manager).0 ≡ i =
                cc (rw (f, create_instance) at h) in
              subst P same (
                bring_up_either service config (next e) new e.manager fails
                  (works config.container_id)))
      ]

pub create_instance-Fresh :
    (service : ServiceConfig) (index : ℕ) (e : ComposeEngine) (i : ServiceInstance)
    → (create_instance service index e).0 ≡ ok i
    → Fresh i
create_instance-Fresh service index e i h =
    create_instance_either Fresh service index e i h (λ x. inr refl) (λ id c. inl refl)
