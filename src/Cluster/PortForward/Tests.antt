-- ===== src/Cluster/PortForward/Tests.antt =====
-- The port forwards at concrete mappings, with tables that count each rule.
use pycrate.Base.{
  ℕ, ◌+◌, ◌-◌, ◌≡◌, ◌≢◌, refl, ap, inl, inr, String, [], ◌∷◌, ◌++◌, true, arith, if◌then◌else◌, ltb,
  Bool-cases, eq_iff, select, length,
}
use pycrate.Base.Exec.{ok}
use pycrate.Cluster.Table.{delete}
use pycrate.Cluster.PortForward.{
  PortMapping, Rule, prerouting, output, forward, same_nat, same_rule, Ran, succeeded, refused,
  not_installed, Iptables, PortForwarder, append_rule, add_rule, remove_all_for_container,
}
use pycrate.Cluster.PortForward.Tracking.{share_of, wanted, Tracked, add_rule-Tracked}
use pycrate.Cluster.PortForward.Removal.{of_container, left_over, remove_all_for_container-Tracked}

-- A deletion is refused where there is no such rule.
abbrev dropped : Rule → (Rule → ℕ) → Ran × (Rule → ℕ)
dropped r k =
    if ltb 0 (k r) then (succeeded, λ q. k q - (if same_rule r q then 1 else 0)) else (refused, k)

nat-eq :
    (p p' i i' : String) (h h' c c' : ℕ)
    → same_nat p h i c p' h' i' c' ≡ true
    → (p ≡ p') × ((h ≡ h') × ((i ≡ i') × (c ≡ c')))
nat-eq p p' i i' h h' c c' e =
    ((eq_iff p p').0 (ground arith), (ground arith, ((eq_iff i i').0 (ground arith), ground arith)))

same_rule-eq : (r q : Rule) → same_rule r q ≡ true → r ≡ q
same_rule-eq (prerouting p h i c) (prerouting p' h' i' c') e =
    let (a, (b, (d, f))) = nat-eq p p' i i' h h' c c' e in rw (a, b, d, f)
same_rule-eq (output p h i c) (output p' h' i' c') e =
    let (a, (b, (d, f))) = nat-eq p p' i i' h h' c c' e in rw (a, b, d, f)
same_rule-eq (forward p i c) (forward p' i' c') e =
    let (a, (_, (d, f))) = nat-eq p p' i i' 0 0 c c' (ground (arith, e)) in rw (a, d, f)
same_rule-eq (prerouting p h i c) (output _ _ _ _) e = absurd (cc e)
same_rule-eq (prerouting p h i c) (forward _ _ _) e = absurd (cc e)
same_rule-eq (output p h i c) (prerouting _ _ _ _) e = absurd (cc e)
same_rule-eq (output p h i c) (forward _ _ _) e = absurd (cc e)
same_rule-eq (forward p i c) (prerouting _ _ _ _) e = absurd (cc e)
same_rule-eq (forward p i c) (output _ _ _ _) e = absurd (cc e)

dropped-succeeds :
    (r q : Rule) (k : Rule → ℕ)
    → (dropped r k).0 ≡ succeeded
    → (dropped r k).1 q + (if same_rule r q then 1 else 0) ≡ k q
dropped-succeeds r q k h = elim (Bool-cases (ltb 0 (k r))) [
  | inr e ↦ absurd (cc (rw (e, if◌then◌else◌) at h))
  | inl e ↦ elim (Bool-cases (same_rule r q)) [
    | inl f ↦ rw (e, f, if◌then◌else◌) (ground (arith, e, ap k (same_rule-eq r q f)))
    | inr f ↦ rw (e, f, if◌then◌else◌) (omega arith)
  ]
]

dropped-refused : (r q : Rule) (k : Rule → ℕ) → (dropped r k).0 ≡ refused → (dropped r k).1 q ≡ k q
dropped-refused r q k h = elim (Bool-cases (ltb 0 (k r))) [
  | inl e ↦ absurd (cc (rw (e, if◌then◌else◌) at h))
  | inr e ↦ rw (e, if◌then◌else◌)
]

dropped-installed : (r : Rule) (k : Rule → ℕ) → (dropped r k).0 ≢ not_installed
dropped-installed r k h = elim (Bool-cases (ltb 0 (k r))) [
  | inl e ↦ cc (rw (e, if◌then◌else◌) at h)
  | inr e ↦ cc (rw (e, if◌then◌else◌) at h)
]

abbrev counting : Iptables (Rule → ℕ)
counting = record {
  times = λ q k. k q;
  append = λ r k. (succeeded, λ q. k q + (if same_rule r q then 1 else 0));
  remove = dropped;
  append_succeeds = λ r q k h. refl;
  append_refused = λ r q k h. absurd (cc h);
  append_not_installed = λ r q k h. absurd (cc h);
  remove_succeeds = dropped-succeeds;
  remove_refused = dropped-refused;
  remove_not_installed = λ r q k h. absurd (dropped-installed r k h);
}

abbrev mapping : String → ℕ → PortMapping
mapping id port = record {
  container_id = id;
  host_port = port;
  container_ip = "10.0.0.42";
  container_port = 80;
  protocol = "tcp";
}

abbrev nothing : Rule → ℕ
nothing q = 0

-- Two mappings of one container.
abbrev forwarder : PortForwarder (Rule → ℕ)
forwarder = record {
  active_rules = mapping "a1" 8080 ∷ mapping "a1" 8081 ∷ [];
  kernel = λ q. wanted q (mapping "a1" 8080 ∷ mapping "a1" 8081 ∷ []);
}

forwarder-Tracked : Tracked counting nothing forwarder
forwarder-Tracked q = omega arith

add_rule-Tracked_example :
    Tracked counting nothing (add_rule counting (mapping "b2" 9090) forwarder).1
    × ((add_rule counting (mapping "b2" 9090) forwarder).1.active_rules
        ≡ forwarder.active_rules ++ mapping "b2" 9090 ∷ [])
unfolding add_rule append_rule
add_rule-Tracked_example =
    add_rule-Tracked counting nothing (λ r k h. cc h) (mapping "b2" 9090) forwarder
      forwarder-Tracked refl

remove_all_for_container-Tracked_example :
    (2 ≡ length (select (of_container "a1") forwarder.active_rules))
    × (((remove_all_for_container counting "a1" forwarder).1.active_rules
          ≡ delete (of_container "a1") forwarder.active_rules)
        × Tracked counting
            (λ q.
              nothing q
              + left_over counting q (select (of_container "a1") forwarder.active_rules) forwarder)
            (remove_all_for_container counting "a1" forwarder).1)
unfolding remove_all_for_container wanted share_of
remove_all_for_container-Tracked_example =
    remove_all_for_container-Tracked counting nothing "a1" forwarder 2 forwarder-Tracked refl

-- Without the program, the mapping is recorded and no rule is set.
abbrev absent : Iptables (Rule → ℕ)
absent = record {
  times = λ q k. k q;
  append = λ r k. (not_installed, k);
  remove = λ r k. (not_installed, k);
  append_succeeds = λ r q k h. absurd (cc h);
  append_refused = λ r q k h. absurd (cc h);
  append_not_installed = λ r q k h. refl;
  remove_succeeds = λ r q k h. absurd (cc h);
  remove_refused = λ r q k h. absurd (cc h);
  remove_not_installed = λ r q k h. refl;
}

abbrev idle : PortForwarder (Rule → ℕ)
idle = record { active_rules = []; kernel = nothing }

recorded :
    add_rule absent (mapping "b2" 9090) idle
    ≡ (ok tt, record { active_rules = mapping "b2" 9090 ∷ []; kernel = nothing })
unfolding add_rule append_rule
recorded = refl
