-- ===== src/Orchestrator/Compose/Upward.antt =====
-- `up`, from an engine without instances.
use mathlib.Core.List.{reverse_aux, append_assoc, append-nil}
use pycrate.Base.{
  ◌≡◌, refl, sym, ap, subst, ◌∙◌, inl, inr, ◌⊎◌, false, String, List, [], ◌∷◌, ◌++◌, map, some,
  none, All, All-every, arith, eq_iff, str_eq, if◌then◌else◌, Bool-cases, Option-cases,
}
use pycrate.Base.Dicts.{get}
use pycrate.Base.Exec.{ok}
use pycrate.Cluster.Validity.{Result-cases}
use pycrate.Orchestrator.Manifest.{
  ServiceConfig, Services, get_service, mem, Walk, Outcome, done, raised, exhausted,
  get_start_order, ManifestError,
}
use pycrate.Orchestrator.Manifest.Visits.{Ordered}
use pycrate.Orchestrator.Manifest.Order.{Sound, get_start_order-Sound}
use pycrate.Orchestrator.Compose.{ServiceInstance, ComposeEngine}
use pycrate.Orchestrator.Compose.Lifecycle.{start_service, start_each, up}
use pycrate.Orchestrator.Compose.Starting.{Filled, start_service-Added}

-- No name twice.
abbrev Distinct : List String → Type 0
Distinct [] = Unit
Distinct (x ∷ xs) = (mem x xs ≡ false) × Distinct xs

apart_each :
    (x : String) (xs ys : List String)
    → mem x xs ≡ false
    → All (λ y. mem y ys ≡ false) xs
    → All (λ y. mem y (x ∷ ys) ≡ false) xs
apart_each x [] ys h k = tt
apart_each x (y ∷ xs) ys h k =
    (ground (arith, h, k.0, eq_iff x y, eq_iff y x), apart_each x xs ys (ground (arith, h)) k.1)

Distinct-reverse_aux :
    (xs ys : List String)
    → Distinct xs
    → Distinct ys
    → All (λ x. mem x ys ≡ false) xs
    → Distinct (reverse_aux xs ys)
Distinct-reverse_aux [] ys dx dy h = dy
Distinct-reverse_aux (x ∷ xs) ys dx dy h =
    Distinct-reverse_aux xs (x ∷ ys) dx.1 (h.0, dy) (apart_each x xs ys dx.0 h.1)

Distinct-of-Ordered : (services : Services) (xs : List String) → Ordered services xs → Distinct xs
Distinct-of-Ordered services [] o = tt
Distinct-of-Ordered services (x ∷ xs) o = (o.1, Distinct-of-Ordered services xs o.3)

order-Distinct :
    (services : Services) (w : Walk) → get_start_order services ≡ done w → Distinct w.order
order-Distinct services w h =
    let sound : Sound services (done w) =
      subst (Sound services) h (get_start_order-Sound services) in
    subst Distinct (sym sound.0) (
      Distinct-reverse_aux w.visited [] (Distinct-of-Ordered services w.visited sound.1) tt
        (All-every (λ x. mem x [] ≡ false) w.visited (λ x. refl)))

-- The services stand under their names, as the parser puts them.
abbrev pub Named : Services → Type 0
Named services = All (λ e. e.1.name ≡ e.0) services

get_service-name :
    (k : String) (services : Services) (s : ServiceConfig)
    → Named services
    → get_service k services ≡ some s
    → s.name ≡ k
get_service-name k [] s n h = absurd (cc h)
get_service-name k ((j, x) ∷ rest) s n h = elim (Bool-cases (str_eq j k)) [
  | inl e ↦
      (let same : x ≡ s = cc (rw (e, if◌then◌else◌) at h) in
        ap (λ y. y.name) (sym same) ∙ n.0 ∙ (eq_iff j k).0 e)
  | inr e ↦ get_service-name k rest s n.1 (rw (e, if◌then◌else◌) at h)
]

-- The service has as many instances as its replicas, each of them running or in the state ERROR.
abbrev pub Started : Services → ComposeEngine → String → Type 0
Started services e name =
    (service : ServiceConfig) × ((get_service name services ≡ some service)
      × ((is : List ServiceInstance) × ((get name e.instances ≡ some is)
            × Filled service.replicas is)))

pub record Launched (order : List String) (e e' : ComposeEngine) : Type 0 where
  pub keys : map (λ x. x.0) e'.instances ≡ map (λ x. x.0) e.instances ++ order
  pub all : All (Started e.services e') order
  pub other : (j : String) → mem j order ≡ false → get j e'.instances ≡ get j e.instances
  pub services : e'.services ≡ e.services

absent_after :
    (k : String) (order : List String) (e e' : ComposeEngine)
    → mem k order ≡ false
    → ((j : String) → str_eq k j ≡ false → get j e'.instances ≡ get j e.instances)
    → All (λ j. get j e.instances ≡ none) order
    → All (λ j. get j e'.instances ≡ none) order
absent_after k [] e e' m h a = tt
absent_after k (j ∷ order) e e' m h a = (
  h j (ground (arith, m, eq_iff j k, eq_iff k j)) ∙ a.0,
  absent_after k order e e' (ground (arith, m)) h a.1,
)

module _ (services : Services) (n : Named services) where
  start_each-Launched :
      (order : List String) (e : ComposeEngine)
      → e.services ≡ services
      → Distinct order
      → All (λ k. get k e.instances ≡ none) order
      → (start_each order e).0 ≡ ok tt
      → Launched order e (start_each order e).1
  unfolding start_each
  start_each-Launched [] e q d a h = record {
    keys = sym (append-nil _);
    all = tt;
    other = λ j m. refl;
    services = refl;
  }
  start_each-Launched (k ∷ order) e q d a h = elim (Option-cases (get_service k e.services)) [
    | inl f ↦ absurd (cc (rw (f, start_each) at h))
    | inr (s, f) ↦ elim (Result-cases (start_service s e).0) [
      | inr (u, g) ↦ absurd (cc (rw (f, g, start_each) at h))
      | inl (u, g) ↦
          (let name : s.name ≡ k =
              get_service-name k services s n (ap (get_service k) (sym q) ∙ f) in
            let e' = (start_service s e).1 in
            let one = start_service-Added s e (ap (λ j. get j e.instances) name ∙ a.0) g in
            let others : (j : String)
                → str_eq k j ≡ false
                → get j e'.instances ≡ get j e.instances =
              λ j apart. one.other j (ap (λ i. str_eq i j) name ∙ apart) in
            let rest =
              start_each-Launched order e' (one.services ∙ q) d.1
                (absent_after k order e e' d.0 others a.1) (rw (f, g, start_each) at h) in
            rw (f, g, start_each)
              (record {
                keys =
                    rest.keys
                    ∙ ap (λ l. l ++ order)
                        (one.keys ∙ ap (λ i. map (λ x. x.0) e.instances ++ i ∷ []) name)
                    ∙ append_assoc (map (λ x. x.0) e.instances) (k ∷ []) order;
                all = (
                  (
                    s,
                    (
                      f,
                      (
                        one.own.0,
                        (
                          rest.other k d.0 ∙ ap (λ i. get i e'.instances) (sym name) ∙ one.own.1.0,
                          one.own.1.1,
                        ),
                      ),
                    ),
                  ),
                  subst (λ t. All (Started t (start_each order e').1) order) one.services rest.all,
                );
                other = λ j m. rest.other j (ground (arith, m)) ∙ others j (ground (arith, m));
                services = rest.services ∙ one.services;
              }))
    ]
  ]

Outcome-cases :
    (r : Outcome)
    → ((w : Walk) × (r ≡ done w)) ⊎ (((x : ManifestError) × (r ≡ raised x)) ⊎ (r ≡ exhausted))
Outcome-cases (done w) = inl (w, refl)
Outcome-cases (raised x) = inr (inl (x, refl))
Outcome-cases exhausted = inr (inr refl)

-- `up`, from an engine without instances, of a manifest whose services stand under their names:
-- where it returns, the services were entered one after the other in the start order, which has
-- every service once and after all that it depends on; each then has exactly as many instances as
-- its replicas, every one of them running or in the state ERROR.
pub up-Launched :
    (e e' : ComposeEngine)
    → Named e.services
    → e.instances ≡ []
    → up e ≡ some (ok tt, e')
    → (w : Walk) × (Sound e.services (done w)
        × ((map (λ x. x.0) e'.instances ≡ w.order) × All (Started e.services e') w.order))
unfolding up get
up-Launched e e' n empty h = elim (Outcome-cases (get_start_order e.services)) [
  | inr (inl (x, f)) ↦ absurd (cc (rw (f, up) at h))
  | inr (inr f) ↦ absurd (cc (rw (f, up) at h))
  | inl (w, f) ↦
      (let ended : start_each w.order e ≡ (ok tt, e') = cc (rw (f, up) at h) in
        let none_yet = All-every (λ k. get k e.instances ≡ none) w.order (λ k. rw (empty, get)) in
        let launched =
          start_each-Launched e.services n w.order e refl (order-Distinct e.services w f) none_yet
            (ap (λ r. r.0) ended) in
        let after : (start_each w.order e).1 ≡ e' = ap (λ r. r.1) ended in
        (
          w,
          (
            subst (Sound e.services) f (get_start_order-Sound e.services),
            (
              ap (λ t. map (λ x. x.0) t.instances) (sym after)
                  ∙ launched.keys
                  ∙ ap (λ d. map (λ x. x.0) d ++ w.order) empty,
              subst (λ t. All (Started e.services t) w.order) after launched.all,
            ),
          ),
        ))
]
