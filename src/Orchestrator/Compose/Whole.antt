-- ===== src/Orchestrator/Compose/Whole.antt =====
-- A whole pass: each service's instances, and no other's, are changed by its own part.
use pycrate.Base.{
  ◌≡◌, refl, ap, subst, ◌∙◌, inl, inr, Bool, true, false, String, List, [], ◌∷◌, some, All, arith,
  str_eq, any,
}
use pycrate.Base.Dicts.{get, get-set_self, get-set_other}
use pycrate.Base.Exec.{ok, err, continue, ◌>>=◌}
use pycrate.Cluster.Table.{Unique}
use pycrate.Cluster.Validity.{Result-cases}
use pycrate.Orchestrator.Manifest.{ServiceConfig, Services}
use pycrate.Orchestrator.Compose.{ServiceInstance, ComposeEngine, instances_of}
use pycrate.Orchestrator.Compose.Passes.{
  Swept, restart_each, then_rescale, stored, is_known, reconcile_service, reconcile_each, reconcile,
}
use pycrate.Orchestrator.Compose.Balance.{Balanced}
use pycrate.Orchestrator.Compose.Restarts.{restart_each-Balanced}
use pycrate.Orchestrator.Compose.Kept.{Keeps-trans, restart_each-Keeps, then_rescale-Keeps}

pub stored-own :
    (name : String) (known : Bool) (x : Swept)
    → (stored name known x).0 ≡ ok tt
    → (x.0 ≡ ok tt) × (get name (stored name known x).1.instances ≡ some x.1)
stored-own name known (ok u, is, e) h = (refl, get-set_self name is e.instances)
stored-own name known (err u, is, e) h = absurd (cc h)

pub stored-other :
    (name j : String) (known : Bool) (x : Swept)
    → str_eq name j ≡ false
    → get j (stored name known x).1.instances ≡ get j x.2.instances
stored-other name j known (ok u, is, e) h = get-set_other j name is e.instances h
stored-other name j true (err u, is, e) h = get-set_other j name is e.instances h
stored-other name j false (err u, is, e) h = refl

reconcile_service-Balanced :
    (name : String) (service : ServiceConfig) (e : ComposeEngine)
    → (reconcile_service name service e).0 ≡ ok tt
    → (is : List ServiceInstance) × ((get name (reconcile_service name service e).1.instances
          ≡ some is)
        × Balanced service is)
unfolding reconcile_service
reconcile_service-Balanced name service e h =
    let swept = then_rescale service (restart_each service (instances_of name e) e) in
    let (returned, own) = stored-own name (is_known name e) swept h in
    (swept.1, (own, restart_each-Balanced service (instances_of name e) e returned))

reconcile_service-other :
    (name j : String) (service : ServiceConfig) (e : ComposeEngine)
    → str_eq name j ≡ false
    → get j (reconcile_service name service e).1.instances ≡ get j e.instances
unfolding reconcile_service
reconcile_service-other name j service e h =
    let first = restart_each service (instances_of name e) e in
    let swept = then_rescale service first in
    let keeps =
      Keeps-trans (restart_each-Keeps service (instances_of name e) e)
        (then_rescale-Keeps service first) in
    stored-other name j (is_known name e) swept h ∙ ap (get j) keeps.instances

-- The service has instances, and they are balanced.
abbrev pub Settled : ComposeEngine → String × ServiceConfig → Type 0
Settled e (name, service) =
    (is : List ServiceInstance) × ((get name e.instances ≡ some is) × Balanced service is)

reconcile_each-other :
    (services : Services) (j : String) (e : ComposeEngine)
    → any (λ s. str_eq s.0 j) services ≡ false
    → get j (reconcile_each services e).1.instances ≡ get j e.instances
unfolding reconcile_each ◌>>=◌
reconcile_each-other [] j e h = refl
reconcile_each-other ((name, service) ∷ rest) j e h =
    let first = reconcile_service name service e in
    let apart : str_eq name j ≡ false = ground (arith, h) in
    let one = reconcile_service-other name j service e apart in
    elim (Result-cases first.0) [
      | inr (u, f) ↦ rw (f, continue) one
      | inl (u, f) ↦
          rw (f, continue) (reconcile_each-other rest j first.1 (ground (arith, h)) ∙ one)
    ]

reconcile_each-Settled :
    (services : Services) (e : ComposeEngine)
    → Unique (λ s. s.0) services
    → (reconcile_each services e).0 ≡ ok tt
    → All (Settled (reconcile_each services e).1) services
unfolding reconcile_each ◌>>=◌
reconcile_each-Settled [] e u h = tt
reconcile_each-Settled ((name, service) ∷ rest) e u h =
    let first = reconcile_service name service e in
    elim (Result-cases first.0) [
      | inr (v, f) ↦ absurd (cc (rw (f, continue) at h))
      | inl (v, f) ↦
          (let (is, (own, balanced)) = reconcile_service-Balanced name service e f in
            let later = reconcile_each-other rest name first.1 u.0 in
            let after : (reconcile_each rest first.1).1
                ≡ (reconcile_each ((name, service) ∷ rest) e).1 =
              rw (f, continue) in
            subst (λ t. All (Settled t) ((name, service) ∷ rest)) after
              (
                (is, (later ∙ own, balanced)),
                reconcile_each-Settled rest first.1 u.1 (rw (f, continue) at h),
              ))
    ]

-- A pass of the reconciliation that returns, from any state of the instances: every service has at
-- most as many starting and running instances as its replicas, and with the instances in the state
-- ERROR at least as many; and no instance is left that its policy would restart, but in ERROR. The
-- services' names are distinct, as a dictionary's keys are.
pub reconcile-Settled :
    (e : ComposeEngine)
    → Unique (λ s. s.0) e.services
    → (reconcile e).0 ≡ ok tt
    → All (Settled (reconcile e).1) e.services
unfolding reconcile
reconcile-Settled e u h = reconcile_each-Settled e.services e u h
