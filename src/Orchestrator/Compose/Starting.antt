-- ===== src/Orchestrator/Compose/Starting.antt =====
-- `up`, from an engine without instances.
use pycrate.Base.{
  ℕ, zero, suc, ◌+◌, ◌<◌, ◌≡◌, refl, sym, ap, subst, ◌∙◌, inl, inr, Bool, true, false, String, List,
  [], ◌∷◌, ◌++◌, length, length-append, map, some, none, All, All-append, All-weaken, arith, str_eq,
  if◌then◌else◌, ◌==◌, Bool-cases,
}
use pycrate.Base.Dicts.{get, keys-set_new}
use pycrate.Base.Exec.{ok, err}
use pycrate.Cluster.Validity.{Result-cases}
use pycrate.Orchestrator.Manifest.{ServiceConfig}
use pycrate.Orchestrator.Compose.{ServiceInstance, ComposeEngine, create_instance, instances_of}
use pycrate.Orchestrator.Compose.Passes.{Swept, stored, is_known}
use pycrate.Orchestrator.Compose.Lifecycle.{
  find_replica, put_replica, running_there, start_replicas, start_service,
}
use pycrate.Orchestrator.Compose.Fresh.{Fresh, create_instance_either, create_instance-Fresh}
use pycrate.Orchestrator.Compose.Kept.{Keeps, Keeps-trans, create_instance-Keeps}
use pycrate.Orchestrator.Compose.Whole.{stored-own, stored-other}

-- The instances have lower indices.
abbrev Below : ℕ → List ServiceInstance → Type 0
Below n is = All (λ i. i.replica_index < n) is

find_replica-Below : (n : ℕ) (is : List ServiceInstance) → Below n is → find_replica n is ≡ none
find_replica-Below n [] h = refl
find_replica-Below n (i ∷ is) h = ground (arith, h.0, find_replica-Below n is h.1)

put_replica-Below :
    (new : ServiceInstance) (is : List ServiceInstance)
    → Below new.replica_index is
    → put_replica new is ≡ is ++ new ∷ []
put_replica-Below new [] h = refl
put_replica-Below new (i ∷ is) h = elim (Bool-cases (i.replica_index == new.replica_index)) [
  | inl e ↦ absurd (ground (arith, e, h.0))
  | inr e ↦ rw (e, if◌then◌else◌) (ap (λ l. i ∷ l) (put_replica-Below new is h.1))
]

create_instance-index :
    (service : ServiceConfig) (n : ℕ) (e : ComposeEngine) (i : ServiceInstance)
    → (create_instance service n e).0 ≡ ok i
    → i.replica_index ≡ n
create_instance-index service n e i h =
    create_instance_either (λ k. k.replica_index ≡ n) service n e i h (λ x. refl) (λ id c. refl)

-- So many instances, each of them running or in the state ERROR.
abbrev pub Filled : ℕ → List ServiceInstance → Type 0
Filled n is = (length is ≡ n) × All Fresh is

start_replicas-Filled :
    (service : ServiceConfig) (index n : ℕ) (is : List ServiceInstance) (e : ComposeEngine)
    → Below index is
    → All Fresh is
    → (start_replicas service index n is e).0 ≡ ok tt
    → Filled (length is + n) (start_replicas service index n is e).1
unfolding start_replicas
start_replicas-Filled service index zero is e b k h = (omega arith, k)
start_replicas-Filled service index (suc n) is e b k h =
    let none_there = find_replica-Below index is b in
    let made = create_instance service index e in
    elim (Result-cases made.0) [
      | inr (u, f) ↦ absurd (cc (rw (none_there, f, start_replicas) at h))
      | inl (new, f) ↦
          (let at : new.replica_index ≡ index = create_instance-index service index e new f in
            let fresh = create_instance-Fresh service index e new f in
            let put : put_replica new is ≡ is ++ new ∷ [] =
              put_replica-Below new is (subst (λ k. Below k is) (sym at) b) in
            let more : List ServiceInstance = is ++ new ∷ [] in
            let below : Below (suc index) more =
              All-append (λ i. i.replica_index < suc index) is (new ∷ [])
                (All-weaken _ _ is (λ i lt. omega (arith, lt)) b) (omega (arith, at), tt) in
            let rest =
              start_replicas-Filled service (suc index) n more made.1 below
                (All-append Fresh is (new ∷ []) k (fresh, tt))
                (rw (none_there, f, put, start_replicas) at h) in
            let longer : length more ≡ length is + 1 = length-append is (new ∷ []) in
            rw (none_there, f, put, start_replicas)
              (subst (λ m. Filled m (start_replicas service (suc index) n more made.1).1)
                (omega (arith, longer)) rest))
    ]

start_replicas-Keeps :
    (service : ServiceConfig) (index n : ℕ) (is : List ServiceInstance) (e : ComposeEngine)
    → Keeps e (start_replicas service index n is e).2
unfolding start_replicas
start_replicas-Keeps service index zero is e = record { instances = refl; services = refl }
start_replicas-Keeps service index (suc n) is e =
    let made = create_instance service index e in
    let one = create_instance-Keeps service index e in
    elim (Bool-cases (running_there (find_replica index is))) [
      | inl g ↦ rw (g, if◌then◌else◌) (start_replicas-Keeps service (suc index) n is e)
      | inr g ↦ elim (Result-cases made.0) [
        | inr (u, f) ↦ rw (g, f, if◌then◌else◌) one
        | inl (new, f) ↦
            rw (g, f, if◌then◌else◌)
              (Keeps-trans one
                (start_replicas-Keeps service (suc index) n (put_replica new is) made.1))
      ]
    ]

pub record Added (service : ServiceConfig) (e e' : ComposeEngine) : Type 0 where
  pub keys : map (λ x. x.0) e'.instances ≡ map (λ x. x.0) e.instances ++ service.name ∷ []
  pub own :
      (is : List ServiceInstance) × ((get service.name e'.instances ≡ some is)
        × Filled service.replicas is)
  pub other : (j : String) → str_eq service.name j ≡ false → get j e'.instances ≡ get j e.instances
  pub services : e'.services ≡ e.services

stored-keys :
    (name : String) (known : Bool) (x : Swept)
    → (stored name known x).0 ≡ ok tt
    → get name x.2.instances ≡ none
    → map (λ e. e.0) (stored name known x).1.instances ≡ map (λ e. e.0) x.2.instances ++ name ∷ []
stored-keys name known (ok u, is, e) h absent = keys-set_new name is e.instances absent
stored-keys name known (err u, is, e) h absent = absurd (cc h)

stored-services :
    (name : String) (known : Bool) (x : Swept) → (stored name known x).1.services ≡ x.2.services
stored-services name known (ok u, is, e) = refl
stored-services name true (err u, is, e) = refl
stored-services name false (err u, is, e) = refl

pub start_service-Added :
    (service : ServiceConfig) (e : ComposeEngine)
    → get service.name e.instances ≡ none
    → (start_service service e).0 ≡ ok tt
    → Added service e (start_service service e).1
unfolding start_service instances_of
start_service-Added service e absent h =
    let name = service.name in
    let swept = start_replicas service 0 service.replicas (instances_of name e) e in
    let keeps = start_replicas-Keeps service 0 service.replicas (instances_of name e) e in
    let empty : instances_of name e ≡ [] = rw (absent, instances_of) in
    let (returned, own) = stored-own name (is_known name e) swept h in
    let all =
      start_replicas-Filled service 0 service.replicas (instances_of name e) e (rw empty tt)
        (rw empty tt) returned in
    record {
      keys =
          stored-keys name (is_known name e) swept h (ap (get name) keeps.instances ∙ absent)
          ∙ ap (λ d. map (λ x. x.0) d ++ name ∷ []) keeps.instances;
      own = (
        swept.1,
        (
          own,
          subst (λ m. Filled m swept.1) (ap (λ l. length l + service.replicas) empty ∙ omega arith)
              all,
        ),
      );
      other =
          λ j apart. stored-other name j (is_known name e) swept apart ∙ ap (get j) keeps.instances;
      services = stored-services name (is_known name e) swept ∙ keeps.services;
    }
