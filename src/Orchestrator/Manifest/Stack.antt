-- ===== src/Orchestrator/Manifest/Stack.antt =====
-- The stack of the services that are being visited, and the lookup of a service.
use pycrate.Base.{
  ℕ, ◌≤◌, ◌<◌, ◌≡◌, refl, sym, ◌∙◌, ap, inl, inr, true, false, not, String, List, [], ◌∷◌, none,
  some, arith, count, All, str_eq, eq_iff, eq_refl, if◌then◌else◌, Bool-cases,
}
use pycrate.Cluster.Table.{delete}
use pycrate.Orchestrator.Manifest.{ServiceConfig, Services, get_service, names, mem}

delete-absent :
    (name : String) (xs : List String) → mem name xs ≡ false → delete (λ x. str_eq x name) xs ≡ xs
unfolding delete
delete-absent name [] h = refl
delete-absent name (x ∷ xs) h =
    let e : str_eq x name ≡ false = ground (arith, h) in
    rw (e, if◌then◌else◌) (ap (λ r. x ∷ r) (delete-absent name xs (ground (arith, h))))

pub delete-top :
    (name : String) (xs : List String)
    → mem name xs ≡ false
    → delete (λ x. str_eq x name) (name ∷ xs) ≡ xs
unfolding delete
delete-top name xs h = rw (eq_refl name, delete, if◌then◌else◌) (delete-absent name xs h)

-- How many services are not on the stack.
abbrev pub remaining : Services → List String → ℕ
remaining services stack = count (λ e. not (mem e.0 stack)) services

remaining-cons_le :
    (services : Services) (n : String) (stack : List String)
    → remaining services (n ∷ stack) ≤ remaining services stack
remaining-cons_le [] n stack = omega arith
remaining-cons_le (e ∷ rest) n stack = ground (arith, remaining-cons_le rest n stack)

pub remaining-cons_lt :
    (services : Services) (n : String) (stack : List String) (s : ServiceConfig)
    → get_service n services ≡ some s
    → mem n stack ≡ false
    → remaining services (n ∷ stack) < remaining services stack
remaining-cons_lt [] n stack s e h = absurd (cc e)
remaining-cons_lt ((k, t) ∷ rest) n stack s e h = elim (Bool-cases (str_eq k n)) [
  | inl q ↦
      (let same : k ≡ n = (eq_iff k n).0 q in
        let there : mem k stack ≡ false = ap (λ x. mem x stack) same ∙ h in
        let gone : str_eq n k ≡ true = (eq_iff n k).1 (sym same) in
        ground (arith, remaining-cons_le rest n stack))
  | inr q ↦ ground (arith, remaining-cons_lt rest n stack s (rw (q, get_service) at e) h)
]

pub mem_of-get :
    (n : String) (services : Services) (s : ServiceConfig)
    → get_service n services ≡ some s
    → mem n (names services) ≡ true
mem_of-get n [] s e = absurd (cc e)
mem_of-get n ((k, t) ∷ rest) s e = elim (Bool-cases (str_eq k n)) [
  | inl q ↦ ground arith
  | inr q ↦ ground (arith, mem_of-get n rest s (rw (q, get_service) at e))
]

pub mem-None :
    (n : String) (services : Services)
    → get_service n services ≡ none
    → mem n (names services) ≡ false
mem-None n [] e = refl
mem-None n ((k, t) ∷ rest) e = elim (Bool-cases (str_eq k n)) [
  | inl q ↦ absurd (cc (rw (q, get_service) at e))
  | inr q ↦ ground (arith, mem-None n rest (rw (q, get_service) at e))
]

pub All-mem : (n : String) (xs : List String) → mem n xs ≡ false → All (λ v. str_eq n v ≡ false) xs
All-mem n [] h = tt
All-mem n (x ∷ xs) h = (ground (arith, eq_iff n x, eq_iff x n), All-mem n xs (ground arith))
