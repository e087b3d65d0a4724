-- ===== src/Cluster/Master/Stored.antt =====
-- What a deployment that the master accepts leaves in the store.
use Prim.Native.String.{◌++◌ as ◌++ₛ◌}
use pycrate.Base.{
  ℤ, pos, negsuc, ℕ, zero, suc, ◌≤◌, ◌≡◌, ◌≢◌, refl, sym, subst, ap, ◌∙◌, inl, inr, true, false,
  String, List, [], ◌∷◌, ◌++◌, some, none, Option, Bool-cases, arith, eq_iff, str_eq, if◌then◌else◌,
}
use pycrate.Base.Strings.{strip}
use pycrate.Base.Exec.{Result, ok}
use pycrate.Base.Results.{bind-ok}
use pycrate.Cluster.Table.{update}
use pycrate.Cluster.Types.{ClusterState, Deployment}
use pycrate.Cluster.State
use pycrate.Cluster.State.{
  is_service, has_service, has_deployment, find_service, get_deployment, get_or, upsert_deployment,
  replaced_by, stored_check, add_event,
}
use pycrate.Cluster.Validity.{Result-cases}
use pycrate.Cluster.Master.{
  DeployBody, DeployRequest, HttpError, Invalid, name_not_empty, at_least_one, replicas_positive,
  resources_positive, validated, Answer, Master, state,
}
use pycrate.Cluster.Master.Handlers.{deployment_of, thrice_read, create_deployment}

at_least_one-ok : (e : Invalid) (z : ℤ) (n : ℕ) → at_least_one e z ≡ ok n → (z ≡ pos n) × (1 ≤ n)
at_least_one-ok e (pos zero) n h = absurd (cc h)
at_least_one-ok e (pos (suc k)) n h =
    let same : suc k ≡ n = cc h in (ap pos same, omega (arith, same))
at_least_one-ok e (negsuc k) n h = absurd (cc h)

-- What the validators promise of a request.
pub record Accepted (b : DeployBody) (q : DeployRequest) : Type 0 where
  pub name : q.service_name ≡ strip b.service_name
  pub name_not_empty : q.service_name ≢ ""
  pub replicas : (get_or b.replicas (pos 1) ≡ pos q.replicas) × (1 ≤ q.replicas)
  pub cpu : (get_or b.cpu (pos 50) ≡ pos q.cpu) × (1 ≤ q.cpu)
  pub memory : (get_or b.memory (pos 64) ≡ pos q.memory) × (1 ≤ q.memory)
  pub rest :
      (q.image ≡ b.image)
      × (q.command ≡ get_or b.command ("/bin/sh" ∷ []))
      × (q.restart ≡ get_or b.restart "always")
      × ((q.env ≡ b.env) × (q.health_check ≡ b.health_check))

name_not_empty-ok : (v name : String) → name_not_empty v ≡ ok name → (name ≡ strip v) × (name ≢ "")
name_not_empty-ok v name h = elim (Bool-cases (str_eq (strip v) "")) [
  | inl e ↦ absurd (cc (rw (e, if◌then◌else◌) at h))
  | inr e ↦
      (let same : strip v ≡ name = cc (rw (e, if◌then◌else◌) at h) in
        (sym same, λ f. ground (arith, eq_iff (strip v) "", same ∙ f)))
]

validated-ok : (b : DeployBody) (q : DeployRequest) → validated b ≡ ok q → Accepted b q
unfolding validated
validated-ok b q h =
    let (name, (e, h₁)) = bind-ok (name_not_empty b.service_name) _ q h in
    let (replicas, (f, h₂)) = bind-ok (replicas_positive (get_or b.replicas (pos 1))) _ q h₁ in
    let (cpu, (g, h₃)) = bind-ok (resources_positive (get_or b.cpu (pos 50))) _ q h₂ in
    let (memory, (k, h₄)) = bind-ok (resources_positive (get_or b.memory (pos 64))) _ q h₃ in
    let made : DeployRequest = record {
      service_name = name;
      image = b.image;
      command = get_or b.command ("/bin/sh" ∷ []);
      replicas = replicas;
      cpu = cpu;
      memory = memory;
      restart = get_or b.restart "always";
      env = b.env;
      health_check = b.health_check;
    } in
    let same : made ≡ q = cc h₄ in
    subst (Accepted b) same (record {
      name = (name_not_empty-ok b.service_name name e).0;
      name_not_empty = (name_not_empty-ok b.service_name name e).1;
      replicas = at_least_one-ok _ _ replicas f;
      cpu = at_least_one-ok _ _ cpu g;
      memory = at_least_one-ok _ _ memory k;
      rest = (refl, refl, refl, (refl, refl));
    })

-- The row that a request writes.
abbrev pub row_for : Deployment → Option Deployment → Deployment
row_for dep none = record dep { health_check = stored_check dep.health_check }
row_for dep (some old) = replaced_by dep old

find_service-append :
    (k : String) (d : Deployment) (ds : List Deployment)
    → d.service_name ≡ k
    → has_service k ds ≡ false
    → (find_service k (ds ++ d ∷ []) ≡ some d) × (find_service k ds ≡ none)
find_service-append k d [] h e = (ground (arith, eq_iff d.service_name k), refl)
find_service-append k d (x ∷ ds) h e = elim (Bool-cases (is_service k x)) [
  | inl f ↦ absurd (cc (rw (f, if◌then◌else◌) at e))
  | inr f ↦ rw (f, if◌then◌else◌) (find_service-append k d ds h (rw (f, if◌then◌else◌) at e))
]

find_service-update :
    (k : String) (f : Deployment → Deployment) (ds : List Deployment)
    → ((d : Deployment) → (f d).service_name ≡ d.service_name)
    → has_service k ds ≡ true
    → (d : Deployment) × ((find_service k ds ≡ some d)
        × (find_service k (update (is_service k) f ds) ≡ some (f d)))
unfolding update
find_service-update k f [] keep h = absurd (cc h)
find_service-update k f (x ∷ ds) keep h = elim (Bool-cases (is_service k x)) [
  | inl e ↦ (x, (rw (e, if◌then◌else◌), rw (e, if◌then◌else◌, keep x, e)))
  | inr e ↦
      (let (d, (found, after)) = find_service-update k f ds keep (rw (e, if◌then◌else◌) at h) in
        (d, (rw (e, if◌then◌else◌) found, ground (arith, after, e))))
]

find_service-upsert :
    (dep : Deployment) (ds ds' : List Deployment)
    → upsert_deployment dep ds ≡ ok ds'
    → find_service dep.service_name ds' ≡ some (row_for dep (find_service dep.service_name ds))
unfolding upsert_deployment
find_service-upsert dep ds ds' h = elim (Bool-cases (has_service dep.service_name ds)) [
  | inl e ↦
      (let same : update (is_service dep.service_name) (replaced_by dep) ds ≡ ds' =
          cc (rw (e, if◌then◌else◌) at h) in
        let (d, (found, after)) =
          find_service-update dep.service_name (replaced_by dep) ds (λ d. refl) e in
        rw (← same, found, after))
  | inr e ↦ elim (Bool-cases (has_deployment dep.deployment_id ds)) [
    | inl f ↦ absurd (cc (rw (e, f, if◌then◌else◌) at h))
    | inr f ↦
        (let same : ds ++ row_for dep none ∷ [] ≡ ds' = cc (rw (e, f, if◌then◌else◌) at h) in
          let (after, found) = find_service-append dep.service_name (row_for dep none) ds refl e in
          rw (← same, found, after))
  ]
]

create_deployment-row :
    (dep d : Deployment) (s : ClusterState)
    → (State.create_deployment dep s).0 ≡ ok d
    → get_deployment dep.service_name (State.create_deployment dep s).1
      ≡ some (row_for dep (get_deployment dep.service_name s))
unfolding State.create_deployment get_deployment add_event
create_deployment-row dep d s h = elim (Result-cases (upsert_deployment dep s.deployments)) [
  | inl (ds, f) ↦ rw (f, State.create_deployment) (find_service-upsert dep s.deployments ds f)
  | inr (u, f) ↦ absurd (cc (rw (f, State.create_deployment) at h))
]

-- What the row of a service says, by the body of the request: the text of a health check that is
-- empty is no health check.
pub record Asked (b : DeployBody) (d : Deployment) : Type 0 where
  pub image : d.image ≡ b.image
  pub command : d.command ≡ get_or b.command ("/bin/sh" ∷ [])
  pub replicas : (pos d.replicas ≡ get_or b.replicas (pos 1)) × (1 ≤ d.replicas)
  pub cpu : (pos d.cpu ≡ get_or b.cpu (pos 50)) × (1 ≤ d.cpu)
  pub memory : (pos d.memory ≡ get_or b.memory (pos 64)) × (1 ≤ d.memory)
  pub restart : d.restart ≡ get_or b.restart "always"
  pub env : d.env ≡ b.env
  pub health_check : get_or d.health_check [] ≡ get_or b.health_check []

stored_check-text : (h : Option (List (String × String))) → get_or (stored_check h) [] ≡ get_or h []
stored_check-text none = refl
stored_check-text (some []) = refl
stored_check-text (some (x ∷ xs)) = refl

Asked-row_for :
    (b : DeployBody) (q : DeployRequest) (s : ClusterState) (before : Option Deployment)
    → Accepted b q
    → Asked b (row_for (deployment_of q s) before)
Asked-row_for b q s none a = record {
  image = a.rest.0;
  command = a.rest.1;
  replicas = (sym a.replicas.0, a.replicas.1);
  cpu = (sym a.cpu.0, a.cpu.1);
  memory = (sym a.memory.0, a.memory.1);
  restart = a.rest.2;
  env = a.rest.3.0;
  health_check = stored_check-text q.health_check ∙ ap (λ h. get_or h []) a.rest.3.1;
}
Asked-row_for b q s (some old) a = record {
  image = a.rest.0;
  command = a.rest.1;
  replicas = (sym a.replicas.0, a.replicas.1);
  cpu = (sym a.cpu.0, a.cpu.1);
  memory = (sym a.memory.0, a.memory.1);
  restart = a.rest.2;
  env = a.rest.3.0;
  health_check = stored_check-text q.health_check ∙ ap (λ h. get_or h []) a.rest.3.1;
}

-- The id of the row after the request: that of the row before, or one that was drawn.
abbrev pub id_after : Option Deployment → String → String
id_after none drawn = drawn
id_after (some old) drawn = old.deployment_id

row_for-id :
    (dep : Deployment) (before : Option Deployment)
    → (row_for dep before).deployment_id ≡ id_after before dep.deployment_id
row_for-id dep none = refl
row_for-id dep (some old) = refl

abbrev pub drawn_id : ClusterState → String
drawn_id s = "dep-" ++ₛ s.env.token s.calls

pub record Stored (b : DeployBody) (m : Master) (r : Result HttpError Answer × Master)
    : Type 0 where
  pub name_not_empty : strip b.service_name ≢ ""
  pub row : Deployment
  pub there : get_deployment (strip b.service_name) (state r.1) ≡ some row
  pub asked : Asked b row
  pub id :
      row.deployment_id
      ≡ id_after (get_deployment (strip b.service_name) (state m)) (drawn_id (state m))
  pub answer : r.0 ≡ ok (Answer.deployment_created (drawn_id (state m)) (strip b.service_name))

-- A deploy request that is answered without an error: the store has a row of the body's stripped
-- name, which is not empty; its image, environment and health check are the body's, an empty health
-- check being none, its command, replicas, CPU, memory and restart policy are the body's or the
-- defaults, and the three numbers are at least 1. A service that was known keeps its id, a new one
-- has the id that was drawn, and the answer names the drawn id in both cases.
pub create_deployment-Stored :
    (b : DeployBody) (m : Master) (a : Answer)
    → (create_deployment b m).0 ≡ ok a
    → Stored b m (create_deployment b m)
unfolding create_deployment get_deployment
create_deployment-Stored b m a h = elim (Result-cases (validated b)) [
  | inr (u, e) ↦ absurd (cc (rw (e, create_deployment) at h))
  | inl (q, e) ↦
      (let (dep, t) : Deployment × ClusterState =
          (deployment_of q (state m), thrice_read (state m)) in
        let accepted = validated-ok b q e in
        let before = get_deployment q.service_name (state m) in
        elim (Result-cases (State.create_deployment dep t).0) [
          | inr (u, f) ↦ absurd (cc (rw (e, f, create_deployment) at h))
          | inl (d, f) ↦ record {
            name_not_empty = λ z. accepted.name_not_empty (accepted.name ∙ z);
            row = row_for dep before;
            there = rw (← accepted.name, e, f, create_deployment) (create_deployment-row dep d t f);
            asked = Asked-row_for b q (state m) before accepted;
            id =
                row_for-id dep before
                ∙ ap (λ k. id_after (get_deployment k (state m)) dep.deployment_id) accepted.name;
            answer =
                rw (e, f, create_deployment)
                  (ap (λ k. ok (Answer.deployment_created dep.deployment_id k)) accepted.name);
          }
        ])
]
