-- ===== src/Orchestrator/Manifest/Order.antt =====
-- The start order is a topological order, or there is a cycle or an unknown name.
use mathlib.Core.List.{reverse}
use pycrate.Base.{suc, ◌≤◌, ◌≡◌, refl, true, [], ◌∷◌, arith, All, length}
use pycrate.Orchestrator.Manifest.{
  Services, names, mem, Outcome, done, raised, exhausted, visit, empty_walk, get_start_order,
}
use pycrate.Orchestrator.Manifest.Stack.{remaining}
use pycrate.Orchestrator.Manifest.Visits.{
  Ordered, Reason, Good, Needed, visit_each-Good, visit-Good,
}

module _ (services : Services) where
  All-names : (services' : Services) → All (Needed services []) (names services')
  All-names [] = tt
  All-names (e ∷ rest) = (tt, All-names rest)

  remaining-none : (services' : Services) → remaining services' [] ≤ length services'
  remaining-none [] = omega arith
  remaining-none (e ∷ rest) = ground (arith, remaining-none rest)

  -- The outcome of the program: either an order of all the services, each once and after those
  -- that it depends on; or an error for a service that depends on itself, or for a name that is
  -- not a service.
  abbrev pub Sound : Outcome → Type 0
  Sound (done w) =
      (w.order ≡ reverse w.visited)
      × Ordered services w.visited
      × All (λ n. mem n w.visited ≡ true) (names services)
  Sound (raised e) = Reason services e
  Sound exhausted = ⊥

  Sound-of-Good : (r : Outcome) → Good services (names services) empty_walk r → Sound r
  Sound-of-Good (done w) h = (h.0.inv.order, h.0.inv.ordered, h.1)
  Sound-of-Good (raised e) h = h
  Sound-of-Good exhausted h = h

  -- `get_start_order` always ends within its fuel. If it returns, its order has every service
  -- exactly once and nothing else, each after all that it depends on; if it raises, the service
  -- that the error names depends on itself, directly or through others, or is not in the manifest.
  pub get_start_order-Sound : Sound (get_start_order services)
  unfolding get_start_order
  get_start_order-Sound = Sound-of-Good _ (
      visit_each-Good services [] (visit services (suc (length services)))
        (λ n w q d i.
          visit-Good services (suc (length services)) n w
            (rw q (omega (arith, remaining-none services))) (rw q d) i)
        (names services) empty_walk refl (All-names services)
        (record { order = refl; ordered = tt; apart = tt }))
