-- ===== src/Orchestrator/Manifest/Build.antt =====
-- What `_build_manifest` accepts.
use pycrate.Base.{
  ℕ, ◌≤◌, ◌≡◌, refl, inl, inr, ◌⊎◌, ◌↔◌, true, false, ◌||◌, String, List, [], ◌∷◌, some, arith, All,
  str_eq, length, ◌==◌, if◌then◌else◌, Bool-cases,
}
use pycrate.Base.Exec.{ok}
use pycrate.Cluster.Validity.{Result-cases}
use pycrate.Orchestrator.Manifest.{
  ManifestError, ServiceConfig, Services, names, mem, validate, Walk, Outcome, done, raised,
  exhausted, get_start_order, check_dependencies, check_references, validate_all, build_manifest,
}
use pycrate.Orchestrator.Manifest.Order.{Sound, get_start_order-Sound}

-- The limits of one service.
pub record InLimits (s : ServiceConfig) : Type 0 where
  pub named : str_eq s.name "" ≡ false
  pub cpu_low : 1 ≤ s.cpu
  pub cpu_high : s.cpu ≤ 100
  pub memory : 4 ≤ s.memory
  pub restart :
      (str_eq s.restart "no" || (str_eq s.restart "always" || str_eq s.restart "on-failure")) ≡ true
  pub replicas : 1 ≤ s.replicas

validate-InLimits : (s : ServiceConfig) → validate s ≡ ok tt → InLimits s
unfolding validate
validate-InLimits s h = record {
  named = ground arith;
  cpu_low = ground arith;
  cpu_high = ground arith;
  memory = ground arith;
  restart = ground arith;
  replicas = ground arith;
}

validate_of-InLimits : (s : ServiceConfig) → InLimits s → validate s ≡ ok tt
unfolding validate
validate_of-InLimits s h =
    ground (arith, h.named, h.cpu_low, h.cpu_high, h.memory, h.restart, h.replicas)

validate_all_of-InLimits :
    (services : Services) → All (λ e. InLimits e.1) services → validate_all services ≡ ok tt
unfolding validate_all
validate_all_of-InLimits [] h = refl
validate_all_of-InLimits ((name, s) ∷ rest) h =
    rw (validate_of-InLimits s h.0, validate_all) (validate_all_of-InLimits rest h.1)

validate_all-InLimits :
    (services : Services) → validate_all services ≡ ok tt → All (λ e. InLimits e.1) services
unfolding validate_all
validate_all-InLimits [] h = tt
validate_all-InLimits ((name, s) ∷ rest) h = elim (Result-cases (validate s)) [
  | inl (tt, e) ↦ (validate-InLimits s e, validate_all-InLimits rest (rw (e, validate_all) at h))
  | inr (x, e) ↦ absurd (cc (rw (e, validate_all) at h))
]

abbrev pub Known : Services → List String → Type 0
Known services deps = All (λ dep. mem dep (names services) ≡ true) deps

module _ (services : Services) where
  check_dependencies-Known :
      (name : String) (deps : List String)
      → check_dependencies services name deps ≡ ok tt
      → Known services deps
  unfolding check_dependencies
  check_dependencies-Known name [] h = tt
  check_dependencies-Known name (dep ∷ deps) h = elim (Bool-cases (mem dep (names services))) [
    | inl e ↦ (e, check_dependencies-Known name deps (rw (e, if◌then◌else◌) at h))
    | inr e ↦ absurd (cc (rw (e, if◌then◌else◌) at h))
  ]

  check_references-Known :
      (rest : Services)
      → check_references services rest ≡ ok tt
      → All (λ e. Known services e.1.depends_on) rest
  unfolding check_references
  check_references-Known [] h = tt
  check_references-Known ((name, s) ∷ rest) h =
      elim (Result-cases (check_dependencies services name s.depends_on)) [
        | inl (tt, e) ↦ (
          check_dependencies-Known name s.depends_on e,
          check_references-Known rest (rw (e, check_references) at h),
        )
        | inr (x, e) ↦ absurd (cc (rw (e, check_references) at h))
      ]

  check_dependencies_of-Known :
      (name : String) (deps : List String)
      → Known services deps
      → check_dependencies services name deps ≡ ok tt
  unfolding check_dependencies
  check_dependencies_of-Known name [] h = refl
  check_dependencies_of-Known name (dep ∷ deps) h =
      rw (h.0, if◌then◌else◌) (check_dependencies_of-Known name deps h.1)

  check_references_of-Known :
      (rest : Services)
      → All (λ e. Known services e.1.depends_on) rest
      → check_references services rest ≡ ok tt
  unfolding check_references
  check_references_of-Known [] h = refl
  check_references_of-Known ((name, s) ∷ rest) h =
      rw (check_dependencies_of-Known name s.depends_on h.0, check_references)
        (check_references_of-Known rest h.1)

pub record Accepted (version : ℕ) (services : Services) : Type 0 where
  pub version_one : version ≡ 1
  pub some_service : (length services == 0) ≡ false
  pub references : All (λ e. Known services e.1.depends_on) services
  pub limits : All (λ e. InLimits e.1) services
  pub order : (w : Walk) × (get_start_order services ≡ done w)

Outcome-cases :
    (services : Services) (r : Outcome)
    → Sound services r
    → ((w : Walk) × (r ≡ done w)) ⊎ ((e : ManifestError) × (r ≡ raised e))
Outcome-cases services (done w) h = inl (w, refl)
Outcome-cases services (raised e) h = inr (e, refl)
Outcome-cases services exhausted h = absurd h

module _ (version : ℕ) (services : Services) where
  build_manifest_of-Accepted :
      Accepted version services → build_manifest version services ≡ some (ok services)
  unfolding build_manifest
  build_manifest_of-Accepted a =
      rw (a.version_one, a.some_service, if◌then◌else◌)
        (rw (check_references_of-Known services services a.references, build_manifest)
          (rw (validate_all_of-InLimits services a.limits, build_manifest)
            (rw (a.order.1, build_manifest) refl)))

  -- `h` is read one test after the other.
  Accepted-of-build :
      (built : Services)
      → build_manifest version services ≡ some (ok built)
      → (built ≡ services) × Accepted version services
  unfolding build_manifest
  Accepted-of-build built h = elim (Bool-cases (version == 1)) [
    | inr e ↦ absurd (cc (rw (e, build_manifest, if◌then◌else◌) at h))
    | inl v ↦
        (let h1 = rw (v, build_manifest, if◌then◌else◌) at h in
          elim (Bool-cases (length services == 0)) [
            | inl e ↦ absurd (cc (rw (e, if◌then◌else◌) at h1))
            | inr n ↦
                (let h2 = rw (n, if◌then◌else◌) at h1 in
                  elim (Result-cases (check_references services services)) [
                    | inr (x, e) ↦ absurd (cc (rw e at h2))
                    | inl (tt, r) ↦
                        (let h3 = rw r at h2 in
                          elim (Result-cases (validate_all services)) [
                            | inr (x, e) ↦ absurd (cc (rw e at h3))
                            | inl (tt, l) ↦
                                (let h4 = rw l at h3 in
                                  elim (Outcome-cases services (get_start_order services)
                                    (get_start_order-Sound services)) [
                                      | inr (x, e) ↦ absurd (cc (rw e at h4))
                                      | inl (w, o) ↦ (
                                        cc (rw o at h4),
                                        record {
                                          version_one = ground arith;
                                          some_service = n;
                                          references = check_references-Known services services r;
                                          limits = validate_all-InLimits services l;
                                          order = (w, o);
                                        },
                                      )
                                    ])
                          ])
                  ])
          ])
  ]

  -- `_build_manifest` accepts, and returns as they are, exactly the services of a manifest of
  -- version 1 that has some service, whose dependencies are services of the manifest, whose
  -- services keep the limits, and for which there is a start order.
  pub build_manifest-Accepted :
      (build_manifest version services ≡ some (ok services)) ↔ Accepted version services
  build_manifest-Accepted = (λ h. (Accepted-of-build services h).1, build_manifest_of-Accepted)
