-- ===== src/Orchestrator/Compose/Restarts.antt =====
-- The first loop of a pass, and a whole pass over one service.
use pycrate.Base.{◌+◌, ◌≡◌, refl, inl, inr, List, [], ◌∷◌, arith, if◌then◌else◌, Bool-cases}
use pycrate.Base.Exec.{ok, err}
use pycrate.Cluster.Validity.{Result-cases}
use pycrate.Orchestrator.Manifest.{ServiceConfig}
use pycrate.Orchestrator.Compose.{
  restarting, ServiceInstance, ComposeEngine, create_instance, stop_instance,
}
use pycrate.Orchestrator.Compose.Passes.{
  noticed, should_restart, restart_instance, Swept, restart_each, then_rescale,
}
use pycrate.Orchestrator.Compose.Balance.{Fresh-at_rest, Rests, Balanced, rescale-Balanced}
use pycrate.Orchestrator.Compose.Fresh.{Fresh, create_instance-Fresh}

restart_instance-Fresh :
    (service : ServiceConfig) (i : ServiceInstance) (e : ComposeEngine)
    → (restart_instance service i e).0 ≡ ok tt
    → Fresh (restart_instance service i e).1
unfolding restart_instance
restart_instance-Fresh service i e h =
    let (old, e') =
      stop_instance (record i { state = restarting; restart_count = i.restart_count + 1 }) e in
    elim (Result-cases (create_instance service i.replica_index e').0) [
      | inr (u, f) ↦ absurd (cc (rw (f, restart_instance) at h))
      | inl (new, f) ↦
          rw (f, restart_instance) (create_instance-Fresh service i.replica_index e' new f)
    ]

restart_each-Rests :
    (service : ServiceConfig) (is : List ServiceInstance) (e : ComposeEngine)
    → (restart_each service is e).0 ≡ ok tt
    → Rests service.restart (restart_each service is e).1
unfolding restart_each
restart_each-Rests service [] e h = tt
restart_each-Rests service (i ∷ is) e h =
    let seen = noticed e i in
    let again = restart_instance service seen e in
    elim (Bool-cases (should_restart service.restart seen.state)) [
      | inr f ↦
          rw (f, if◌then◌else◌)
            (ground (arith, f), restart_each-Rests service is e (rw (f, if◌then◌else◌) at h))
      | inl f ↦ elim (Result-cases again.0) [
        | inr (u, g) ↦ absurd (cc (rw (f, g, if◌then◌else◌) at h))
        | inl (u, g) ↦
            rw (f, g, if◌then◌else◌)
              (
                Fresh-at_rest service.restart again.1 (restart_instance-Fresh service seen e (g)),
                restart_each-Rests service is again.2 (rw (f, g, if◌then◌else◌) at h),
              )
      ]
    ]

Balanced-then_rescale :
    (service : ServiceConfig) (x : Swept)
    → (x.0 ≡ ok tt → Rests service.restart x.1)
    → (then_rescale service x).0 ≡ ok tt
    → Balanced service (then_rescale service x).1
Balanced-then_rescale service (ok u, is, e) r h = rescale-Balanced service is e (r refl) h
Balanced-then_rescale service (err u, is, e) r h = absurd (cc h)

pub restart_each-Balanced :
    (service : ServiceConfig) (is : List ServiceInstance) (e : ComposeEngine)
    → (then_rescale service (restart_each service is e)).0 ≡ ok tt
    → Balanced service (then_rescale service (restart_each service is e)).1
restart_each-Balanced service is e h =
    Balanced-then_rescale service (restart_each service is e) (restart_each-Rests service is e) h
