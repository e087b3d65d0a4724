-- ===== src/Orchestrator/Compose/Kept.antt =====
-- The loops of a pass change neither the manifest nor the dictionary of the instances.
use pycrate.Base.{
  ℕ, zero, suc, ◌+◌, ◌-◌, ◌≡◌, refl, ◌∙◌, inl, inr, List, [], ◌∷◌, ◌++◌, ltb, if◌then◌else◌,
  Bool-cases, Option-cases,
}
use pycrate.Base.Exec.{ok, err}
use pycrate.Cluster.Validity.{Result-cases}
use pycrate.Engine.Config.{post_init}
use pycrate.Orchestrator.Manifest.{ServiceConfig}
use pycrate.Orchestrator.Compose.{
  restarting, ServiceInstance, ComposeEngine, next, new_instance, config_of, create_instance,
  stop_instance,
}
use pycrate.Orchestrator.Compose.Passes.{
  is_active, active, noticed, should_restart, restart_instance, Swept, restart_each, scale_up,
  drop_excess, rescale, then_rescale,
}
use mathlib.Core.List.{reverse}

-- The manifest and the dictionary of the instances stay.
pub record Keeps (e e' : ComposeEngine) : Type 0 where
  pub instances : e'.instances ≡ e.instances
  pub services : e'.services ≡ e.services

abbrev kept : {e : ComposeEngine} → Keeps e e
kept = record { instances = refl; services = refl }

pub Keeps-trans : {e f g : ComposeEngine} → Keeps e f → Keeps f g → Keeps e g
Keeps-trans k l = record {
  instances = l.instances ∙ k.instances;
  services = l.services ∙ k.services;
}

pub create_instance-Keeps :
    (service : ServiceConfig) (index : ℕ) (e : ComposeEngine)
    → Keeps e (create_instance service index e).1
unfolding create_instance
create_instance-Keeps service index e =
    elim (Result-cases (
      post_init
        (config_of service (new_instance service index (next e).now) (next e).container_id))) [
          | inr (u, f) ↦ rw (f, create_instance) (record { instances = refl; services = refl })
          | inl (u, f) ↦ rw (f, create_instance) (record { instances = refl; services = refl })
        ]

pub stop_instance-Keeps : (i : ServiceInstance) (e : ComposeEngine) → Keeps e (stop_instance i e).1
unfolding stop_instance
stop_instance-Keeps i e = elim (Option-cases i.container) [
  | inl f ↦ rw (f, stop_instance) (record { instances = refl; services = refl })
  | inr (id, f) ↦ rw (f, stop_instance) (record { instances = refl; services = refl })
]

restart_instance-Keeps :
    (service : ServiceConfig) (i : ServiceInstance) (e : ComposeEngine)
    → Keeps e (restart_instance service i e).2
unfolding restart_instance
restart_instance-Keeps service i e =
    let gone = record i { state = restarting; restart_count = i.restart_count + 1 } in
    let e' = (stop_instance gone e).1 in
    let both =
      Keeps-trans (stop_instance-Keeps gone e) (create_instance-Keeps service i.replica_index e') in
    elim (Result-cases (create_instance service i.replica_index e').0) [
      | inr (u, f) ↦ rw (f, restart_instance) both
      | inl (u, f) ↦ rw (f, restart_instance) both
    ]

pub restart_each-Keeps :
    (service : ServiceConfig) (is : List ServiceInstance) (e : ComposeEngine)
    → Keeps e (restart_each service is e).2
unfolding restart_each
restart_each-Keeps service [] e = kept
restart_each-Keeps service (i ∷ is) e =
    let seen = noticed e i in
    let again = restart_instance service seen e in
    let one = restart_instance-Keeps service seen e in
    elim (Bool-cases (should_restart service.restart seen.state)) [
      | inr f ↦ rw (f, if◌then◌else◌) (restart_each-Keeps service is e)
      | inl f ↦ elim (Result-cases again.0) [
        | inr (u, g) ↦ rw (f, g, if◌then◌else◌) one
        | inl (u, g) ↦
            rw (f, g, if◌then◌else◌) (Keeps-trans one (restart_each-Keeps service is again.2))
      ]
    ]

scale_up-Keeps :
    (service : ServiceConfig) (index n : ℕ) (is : List ServiceInstance) (e : ComposeEngine)
    → Keeps e (scale_up service index n is e).2
unfolding scale_up
scale_up-Keeps service index zero is e = kept
scale_up-Keeps service index (suc n) is e =
    let made = create_instance service index e in
    let one = create_instance-Keeps service index e in
    elim (Result-cases made.0) [
      | inr (u, f) ↦ rw (f, scale_up) one
      | inl (new, f) ↦
          rw (f, scale_up)
            (Keeps-trans one (scale_up-Keeps service (suc index) n (is ++ new ∷ []) made.1))
    ]

drop_excess-Keeps :
    (k : ℕ) (is : List ServiceInstance) (e : ComposeEngine) → Keeps e (drop_excess k is e).1
unfolding drop_excess
drop_excess-Keeps zero is e = kept
drop_excess-Keeps (suc k) [] e = kept
drop_excess-Keeps (suc k) (i ∷ is) e = elim (Bool-cases (is_active i.state)) [
  | inl f ↦
      rw (f, drop_excess)
        (Keeps-trans (stop_instance-Keeps i e) (drop_excess-Keeps k is (stop_instance i e).1))
  | inr f ↦ rw (f, drop_excess) (drop_excess-Keeps (suc k) is e)
]

rescale-Keeps :
    (service : ServiceConfig) (is : List ServiceInstance) (e : ComposeEngine)
    → Keeps e (rescale service is e).2
rescale-Keeps service is e = elim (Bool-cases (ltb (active is) service.replicas)) [
  | inl f ↦ rw (f, rescale) (scale_up-Keeps service (active is) (service.replicas - active is) is e)
  | inr f ↦ elim (Bool-cases (ltb service.replicas (active is))) [
    | inl g ↦ rw (f, g, rescale) (drop_excess-Keeps (active is - service.replicas) (reverse is) e)
    | inr g ↦ rw (f, g, rescale) kept
  ]
]

pub then_rescale-Keeps :
    (service : ServiceConfig) (x : Swept) → Keeps x.2 (then_rescale service x).2
then_rescale-Keeps service (ok u, is, e) = rescale-Keeps service is e
then_rescale-Keeps service (err u, is, e) = kept
