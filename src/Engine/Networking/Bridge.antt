-- ===== src/Engine/Networking/Bridge.antt =====
-- What is left of the bridge when its set-up failed.
use pycrate.Base.{◌≡◌, ◌∙◌, Bool, true, false, ◌==◌, String, if◌then◌else◌}
use pycrate.Base.Exec.{Exec, Result, ok, err, continue, pure, ◌>>=◌, ◌>>◌}
use pycrate.Engine.Networking.{
  exited, Runner, Error, judge, link_show, link_add, addr_add, link_up, nat_rule, run_cmd,
  enable_ip_forwarding, add_nat, setup_nat, create_bridge, setup_bridge,
}

-- The documented behaviour of the commands: `ip link show` ends with 0 exactly where the link is
-- there, an `ip link add` that ends with 0 adds it, and none of the commands of the set-up removes it.
pub record Links {S : Type 0} (runner : Runner S) : Type 0 where
  pub there : S → Bool
  pub shown : (s : S) → there s ≡ true → (runner.run link_show s).0 ≡ exited 0
  pub hidden : (s : S) → there s ≡ false → (runner.run link_show s).0 ≡ exited 1
  pub show_keeps : (s : S) → there (runner.run link_show s).1 ≡ there s
  pub added :
      (s : S) → (runner.run link_add s).0 ≡ exited 0 → there (runner.run link_add s).1 ≡ true
  pub addr_keeps : (s : S) → there (runner.run addr_add s).1 ≡ there s
  pub up_keeps : (s : S) → there (runner.run link_up s).1 ≡ there s
  pub nat_keeps : (flag : String) (s : S) → there (runner.run (nat_rule flag) s).1 ≡ there s
  pub forward_keeps : (s : S) → there (runner.forward s).1 ≡ there s

module _ {S : Type 0} (holds : S → Bool) where
  abbrev Keeps : {A : Type 0} → Exec Error S A → Type 0
  Keeps m = (s : S) → holds s ≡ true → holds (m s).1 ≡ true

  continue-Keeps :
      {A B : Type 0} (r : Result Error A) (f : A → Exec Error S B) (s : S)
      → ((a : A) → Keeps (f a))
      → holds s ≡ true
      → holds (continue r f s).1 ≡ true
  continue-Keeps (ok a) f s k h = k a s h
  continue-Keeps (err e) f s k h = h

  bind-Keeps :
      {A B : Type 0} (m : Exec Error S A) (f : A → Exec Error S B)
      → Keeps m
      → ((a : A) → Keeps (f a))
      → Keeps (m >>= f)
  unfolding ◌>>=◌
  bind-Keeps m f k l s h = continue-Keeps (m s).0 f (m s).1 l (k s h)

module _ {S : Type 0} (runner : Runner S) (k : Links runner) where
  forwarding-Keeps : Keeps k.there (enable_ip_forwarding runner)
  forwarding-Keeps s h = k.forward_keeps s ∙ h

  again-Keeps :
      (b : Bool)
      → Keeps k.there (if b then pure tt else (run_cmd runner true (nat_rule "-A") >> pure tt))
  again-Keeps true s h = h
  again-Keeps false s h =
      bind-Keeps k.there (run_cmd runner true (nat_rule "-A")) (λ _. pure tt)
        (λ t g. k.nat_keeps "-A" t ∙ g) (λ _ t g. g) s h

  nat-Keeps : Keeps k.there (setup_nat runner)
  unfolding add_nat
  nat-Keeps s h =
      bind-Keeps k.there (run_cmd runner false (nat_rule "-C")) _ (λ t g. k.nat_keeps "-C" t ∙ g)
        (λ code t g. again-Keeps (code == 0) t g) s h

  -- What follows the `ip link add`.
  abbrev completed : Exec Error S Unit
  completed =
      run_cmd runner true addr_add
      >> (run_cmd runner true link_up >> (enable_ip_forwarding runner >> setup_nat runner))

  completed-Keeps : Keeps k.there completed
  completed-Keeps =
      bind-Keeps k.there (run_cmd runner true addr_add) _ (λ t g. k.addr_keeps t ∙ g)
        (λ _.
          bind-Keeps k.there (run_cmd runner true link_up) _ (λ t g. k.up_keeps t ∙ g)
            (λ _.
              bind-Keeps k.there (enable_ip_forwarding runner) _ forwarding-Keeps (λ _. nat-Keeps)))

  create_bridge-there :
      (s : S) → (runner.run link_add s).0 ≡ exited 0 → k.there (create_bridge runner s).1 ≡ true
  unfolding create_bridge
  create_bridge-there s h =
      continue-Keeps k.there (judge true link_add (runner.run link_add s).0) (λ _. completed)
        (runner.run link_add s).1 (λ _. completed-Keeps) (k.added s h)

  setup_bridge-there :
      (s : S) → k.there s ≡ true → setup_bridge runner s ≡ (ok tt, (runner.run link_show s).1)
  unfolding setup_bridge
  setup_bridge-there s h = rw (setup_bridge, k.shown s h)

  -- Where the bridge is not there and `ip link add` adds it: whatever the later commands of the set-up
  -- do, also where one of them fails and `setup_bridge` raises, the next `setup_bridge` returns and
  -- runs `ip link show` alone.
  pub setup_bridge_twice :
      (s : S)
      → k.there s ≡ false
      → (runner.run link_add (runner.run link_show s).1).0 ≡ exited 0
      → setup_bridge runner (setup_bridge runner s).1
        ≡ (ok tt, (runner.run link_show (setup_bridge runner s).1).1)
  unfolding setup_bridge
  setup_bridge_twice s h added =
      setup_bridge-there (setup_bridge runner s).1
        (rw (setup_bridge, k.hidden s h) (create_bridge-there (runner.run link_show s).1 added))
