-- ===== src/Orchestrator/Compose/Balance.antt =====
-- What a pass does to the instances of one service.
use mathlib.Core.List.{reverse}
use pycrate.Base.{
  ℕ, zero, suc, ◌+◌, ◌-◌, ◌≤◌, ◌≡◌, refl, inl, inr, Bool, true, false, not, ◌||◌, String, List, [],
  ◌∷◌, ◌++◌, count, count-append, All, All-append, arith, ltb, if◌then◌else◌, Bool-cases,
}
use pycrate.Base.Exec.{ok}
use pycrate.Base.Reversed.{count-reverse, All-reverse}
use pycrate.Cluster.Validity.{Result-cases}
use pycrate.Orchestrator.Manifest.{ServiceConfig}
use pycrate.Orchestrator.Compose.{
  ServiceState, error, ServiceInstance, ComposeEngine, create_instance, stop_instance,
}
use pycrate.Orchestrator.Compose.Passes.{
  is_active, active, should_restart, Swept, scale_up, drop_excess, scale_down, rescale,
}
use pycrate.Orchestrator.Compose.Fresh.{Fresh, create_instance-Fresh}

abbrev pub is_error : ServiceState → Bool
is_error error = true
is_error _ = false

abbrev pub failed : List ServiceInstance → ℕ
failed is = count (λ i. is_error i.state) is

-- The policy asks for nothing more, or the last creation failed.
abbrev pub at_rest : String → ServiceInstance → Bool
at_rest policy i = not (should_restart policy i.state) || is_error i.state

pub Fresh-at_rest : (policy : String) (i : ServiceInstance) → Fresh i → at_rest policy i ≡ true
Fresh-at_rest policy i (inl e) = rw e
Fresh-at_rest policy i (inr e) = rw e (ground arith)

-- It is active or failed, and not both.
pub Fresh-one :
    (i : ServiceInstance)
    → Fresh i
    → (if is_active i.state then 1 else 0) + (if is_error i.state then 1 else 0) ≡ 1
Fresh-one i (inl e) = rw e
Fresh-one i (inr e) = rw e

abbrev pub Rests : String → List ServiceInstance → Type 0
Rests policy is = All (λ i. at_rest policy i ≡ true) is

-- A loop that returned, with the bounds on what it made of so many active and failed instances.
record Grown (policy : String) (n a f : ℕ) (r : Swept) : Type 0 where
  at_most : active r.1 ≤ a + n
  at_least : a + f + n ≤ active r.1 + failed r.1
  rests : Rests policy r.1

scale_up-Grown :
    (policy : String) (service : ServiceConfig) (index n : ℕ) (is : List ServiceInstance)
    (e : ComposeEngine)
    → Rests policy is
    → (scale_up service index n is e).0 ≡ ok tt
    → Grown policy n (active is) (failed is) (scale_up service index n is e)
unfolding scale_up
scale_up-Grown policy service index zero is e r h = record {
  at_most = omega arith;
  at_least = omega arith;
  rests = r;
}
scale_up-Grown policy service index (suc n) is e r h =
    elim (Result-cases (create_instance service index e).0) [
      | inr (u, f) ↦ absurd (cc (rw (f, scale_up) at h))
      | inl (new, f) ↦
          (let e' = (create_instance service index e).1 in
            let fresh = create_instance-Fresh service index e new f in
            let more : List ServiceInstance = is ++ new ∷ [] in
            let rests =
              All-append (λ i. at_rest policy i ≡ true) is (new ∷ []) r
                (Fresh-at_rest policy new fresh, tt) in
            let rest =
              scale_up-Grown policy service (suc index) n more e' rests (rw (f, scale_up) at h) in
            let a = count-append (λ i. is_active i.state) is (new ∷ []) in
            let b = count-append (λ i. is_error i.state) is (new ∷ []) in
            let one = Fresh-one new fresh in
            rw (f, scale_up)
              (record {
                at_most = ground (arith, rest.at_most, a, one);
                at_least = ground (arith, rest.at_least, a, b, one);
                rests = rest.rests;
              }))
    ]

-- As many active ones are dropped as there are too many; no other goes.
drop_excess-active :
    (k : ℕ) (is : List ServiceInstance) (e : ComposeEngine)
    → k ≤ active is
    → active (drop_excess k is e).0 + k ≡ active is
unfolding drop_excess
drop_excess-active zero is e h = omega arith
drop_excess-active (suc k) [] e h = absurd (omega (arith, h))
drop_excess-active (suc k) (i ∷ is) e h = elim (Bool-cases (is_active i.state)) [
  | inl f ↦
      rw (f, drop_excess) (ground (arith, h, f, drop_excess-active k is (stop_instance i e).1))
  | inr f ↦ ground (arith, h, f, drop_excess-active (suc k) is e)
]

drop_excess-failed :
    (k : ℕ) (is : List ServiceInstance) (e : ComposeEngine)
    → failed (drop_excess k is e).0 ≡ failed is
unfolding drop_excess
drop_excess-failed zero is e = refl
drop_excess-failed (suc k) [] e = refl
drop_excess-failed (suc k) (i ∷ is) e =
    ground (arith, drop_excess-failed k is (stop_instance i e).1, drop_excess-failed (suc k) is e)

Rests-drop_excess :
    (policy : String) (k : ℕ) (is : List ServiceInstance) (e : ComposeEngine)
    → Rests policy is
    → Rests policy (drop_excess k is e).0
unfolding drop_excess
Rests-drop_excess policy zero is e r = r
Rests-drop_excess policy (suc k) [] e r = tt
Rests-drop_excess policy (suc k) (i ∷ is) e r = elim (Bool-cases (is_active i.state)) [
  | inl f ↦ rw (f, drop_excess) (Rests-drop_excess policy k is (stop_instance i e).1 r.1)
  | inr f ↦ rw (f, drop_excess) (r.0, Rests-drop_excess policy (suc k) is e r.1)
]

-- What a pass leaves of a service: not more active instances than its replicas, and not fewer but
-- for creations that failed; and none that the policy would restart but for these.
pub record Balanced (service : ServiceConfig) (is : List ServiceInstance) : Type 0 where
  pub at_most : active is ≤ service.replicas
  pub at_least : service.replicas ≤ active is + failed is
  pub rests : All (λ i. at_rest service.restart i ≡ true) is

module _ (service : ServiceConfig) (is : List ServiceInstance) (e : ComposeEngine)
    (r : Rests service.restart is) where
  scale_down-Balanced :
      service.replicas ≤ active is
      → Balanced service (scale_down (active is - service.replicas) is e).1
  scale_down-Balanced h =
      let k = active is - service.replicas in
      let back = reverse is in
      let same : active back ≡ active is = count-reverse (λ i. is_active i.state) is in
      let left = (drop_excess k back e).0 in
      let a : active left + k ≡ active back =
        drop_excess-active k back e (omega (arith, same, h)) in
      let b : active (reverse left) ≡ active left = count-reverse (λ i. is_active i.state) left in
      record {
        at_most = omega (arith, a, b, same, h);
        at_least = omega (arith, a, b, same, h);
        rests =
            All-reverse (λ i. at_rest service.restart i ≡ true) left
              (Rests-drop_excess service.restart k back e
                (All-reverse (λ i. at_rest service.restart i ≡ true) is r));
      }

  pub rescale-Balanced :
      (rescale service is e).0 ≡ ok tt → Balanced service (rescale service is e).1
  rescale-Balanced h = elim (Bool-cases (ltb (active is) service.replicas)) [
    | inl f ↦
        (let n = service.replicas - active is in
          let grown =
            scale_up-Grown service.restart service (active is) n is e r (rw (f, rescale) at h) in
          rw (f, rescale)
            (record {
              at_most = ground (arith, grown.at_most, f);
              at_least = ground (arith, grown.at_least, f);
              rests = grown.rests;
            }))
    | inr f ↦ elim (Bool-cases (ltb service.replicas (active is))) [
      | inl g ↦ rw (f, g, rescale) (scale_down-Balanced (ground (arith, g)))
      | inr g ↦
          rw (f, g, rescale)
            (record { at_most = ground (arith, f, g); at_least = ground (arith, f, g); rests = r })
    ]
  ]
