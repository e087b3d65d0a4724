-- ===== src/Cluster/PortForward/Tracking.antt =====
-- The kernel has the rules of the active mappings, besides those that it had before.
use pycrate.Base.{
  ℕ, ◌+◌, ◌≡◌, ◌≢◌, refl, sym, ap, ◌∙◌, inl, inr, ◌⊎◌, Bool, true, String, List, [], ◌∷◌, ◌++◌,
  eq_iff, arith, any, if◌then◌else◌, Bool-cases,
}
use pycrate.Base.Exec.{ok, ◌>>◌, bind-returns}
use pycrate.Cluster.PortForward.{
  PortMapping, prerouting, output, forward, same_mapping, Rule, same_rule, prerouting_of, output_of,
  forward_of, Iptables, remove_first, PortForwarder, append_rule, add_rule, remove_rule,
  delete_rule, activate, deactivate, Ran, succeeded, refused, timed_out, not_installed,
}

-- How often one mapping, and all, want the rule.
unfoldable pub share_of : Rule → String → ℕ → String → ℕ → ℕ
share_of q p h i c =
    (if same_rule (prerouting p h i c) q then 1 else 0)
    + ((if same_rule (output p h i c) q then 1 else 0)
        + (if same_rule (forward p i c) q then 1 else 0))

abbrev pub share : Rule → PortMapping → ℕ
share q m = share_of q m.protocol m.host_port m.container_ip m.container_port

unfoldable pub wanted : Rule → List PortMapping → ℕ
wanted q [] = 0
wanted q (m ∷ ms) = share q m + wanted q ms

wanted-append :
    (q : Rule) (ms : List PortMapping) (m : PortMapping)
    → wanted q (ms ++ m ∷ []) ≡ wanted q ms + share q m
unfolding wanted
wanted-append q [] m = omega arith
wanted-append q (a ∷ ms) m = omega (arith, wanted-append q ms m)

abbrev pub is_active : PortMapping → List PortMapping → Bool
is_active m ms = any (λ a. same_mapping m a) ms

share-same : (q : Rule) (m a : PortMapping) → same_mapping m a ≡ true → share q m ≡ share q a
share-same q m a h =
    let ip : m.container_ip ≡ a.container_ip =
      (eq_iff m.container_ip a.container_ip).0 (ground arith) in
    let host : m.host_port ≡ a.host_port = ground arith in
    let port : m.container_port ≡ a.container_port = ground arith in
    let proto : m.protocol ≡ a.protocol = (eq_iff m.protocol a.protocol).0 (ground arith) in
    rw (ip, host, port, proto) refl

pub wanted-remove :
    (q : Rule) (m : PortMapping) (ms : List PortMapping)
    → is_active m ms ≡ true
    → wanted q (remove_first m ms) + share q m ≡ wanted q ms
unfolding wanted remove_first
wanted-remove q m [] h = absurd (cc h)
wanted-remove q m (a ∷ ms) h = elim (Bool-cases (same_mapping m a)) [
  | inl e ↦ rw (e, if◌then◌else◌) (omega (arith, share-same q m a e))
  | inr e ↦ rw (e, if◌then◌else◌) (omega (arith, wanted-remove q m ms (ground arith)))
]

Ran-cases : (r : Ran) → (r ≡ succeeded) ⊎ ((r ≡ refused) ⊎ ((r ≡ timed_out) ⊎ (r ≡ not_installed)))
Ran-cases succeeded = inl refl
Ran-cases refused = inr (inl refl)
Ran-cases timed_out = inr (inr (inl refl))
Ran-cases not_installed = inr (inr (inr refl))

-- A deletion that did not succeed keeps the rule.
abbrev pub kept : Rule → Rule → Ran → ℕ
kept q r succeeded = 0
kept q r _ = if same_rule r q then 1 else 0

module _ {K : Type 0} (t : Iptables K) where
  -- The program is there.
  abbrev pub Installed : Type 0
  Installed = (r : Rule) (k : K) → (t.append r k).0 ≢ not_installed

  append_rule-times :
      (i : Installed) (r q : Rule) (f : PortForwarder K)
      → (append_rule t r f).0 ≡ ok tt
      → t.times q (append_rule t r f).1.kernel
        ≡ t.times q f.kernel + (if same_rule r q then 1 else 0)
  unfolding append_rule
  append_rule-times i r q f h = elim (Ran-cases (t.append r f.kernel).0) [
    | inl e ↦ t.append_succeeds r q f.kernel e
    | inr (inl e) ↦ absurd (cc (rw (e) at h))
    | inr (inr (inl e)) ↦ absurd (cc (rw (e) at h))
    | inr (inr (inr e)) ↦ absurd (i r f.kernel e)
  ]

  delete_rule-times :
      (r q : Rule) (f : PortForwarder K)
      → (delete_rule t r f).0 ≡ ok tt
      → t.times q (delete_rule t r f).1.kernel + (if same_rule r q then 1 else 0)
        ≡ t.times q f.kernel + kept q r (t.remove r f.kernel).0
  unfolding delete_rule
  delete_rule-times r q f h = elim (Ran-cases (t.remove r f.kernel).0) [
    | inl e ↦ rw (e) (omega (arith, t.remove_succeeds r q f.kernel e))
    | inr (inl e) ↦ rw (e) (omega (arith, t.remove_refused r q f.kernel e))
    | inr (inr (inl e)) ↦ absurd (cc (rw (e) at h))
    | inr (inr (inr e)) ↦ rw (e) (omega (arith, t.remove_not_installed r q f.kernel e))
  ]

  -- The copies of a rule that the removal of a mapping keeps.
  unfoldable pub left_of : Rule → PortMapping → K → ℕ
  left_of q m k =
      let (ran, k1) = t.remove (forward_of m) k in
      let (ran1, k2) = t.remove (output_of m) k1 in
      kept q (forward_of m) ran
      + (kept q (output_of m) ran1 + kept q (prerouting_of m) (t.remove (prerouting_of m) k2).0)

  pub remove_rule-times :
      (m : PortMapping) (f : PortForwarder K)
      → (remove_rule t m f).0 ≡ ok tt
      → ((remove_rule t m f).1.active_rules ≡ remove_first m f.active_rules)
        × ((q : Rule)
            → t.times q (remove_rule t m f).1.kernel + share q m
              ≡ t.times q f.kernel + left_of q m f.kernel)
  unfolding remove_rule deactivate delete_rule share_of left_of
  remove_rule-times m f h =
      let first = delete_rule t (forward_of m) in
      let second = delete_rule t (output_of m) in
      let third = delete_rule t (prerouting_of m) in
      let last = deactivate t m in
      let (_, (a, one)) = bind-returns first (λ _. second >> (third >> last)) tt f h in
      let f1 = (first f).1 in
      let h1 = sym (ap (λ r. r.0) one) ∙ h in
      let (_, (b, two)) = bind-returns second (λ _. third >> last) tt f1 h1 in
      let f2 = (second f1).1 in
      let h2 = sym (ap (λ r. r.0) two) ∙ h1 in
      let (_, (c, three)) = bind-returns third (λ _. last) tt f2 h2 in
      let whole = ap (λ r. r.1) (one ∙ (two ∙ three)) in
      (
        ap (λ g. g.active_rules) whole,
        λ q.
            let kernel = ap (λ g. t.times q g.kernel) whole in
            omega (
              arith,
              kernel,
              delete_rule-times (forward_of m) q f a,
              delete_rule-times (output_of m) q f1 b,
              delete_rule-times (prerouting_of m) q f2 c,
            ),
      )

  module _ (base : Rule → ℕ) where
    abbrev pub Tracked : PortForwarder K → Type 0
    Tracked f = (q : Rule) → t.times q f.kernel ≡ base q + wanted q f.active_rules

    -- On a host that has `iptables`: where the kernel has, besides what it had before, exactly the
    -- rules of the active mappings, that is so after an `add_rule` that returns, and the new mapping
    -- is then the last active one.
    pub add_rule-Tracked :
        (i : Installed) (m : PortMapping) (f : PortForwarder K)
        → Tracked f
        → (add_rule t m f).0 ≡ ok tt
        → Tracked (add_rule t m f).1 × ((add_rule t m f).1.active_rules ≡ f.active_rules ++ m ∷ [])
    unfolding add_rule append_rule share_of
    add_rule-Tracked i m f tracked h =
        let first = append_rule t (prerouting_of m) in
        let second = append_rule t (output_of m) in
        let third = append_rule t (forward_of m) in
        let last = activate t m in
        let (_, (a, one)) = bind-returns first (λ _. second >> (third >> last)) tt f h in
        let f1 = (first f).1 in
        let h1 = sym (ap (λ r. r.0) one) ∙ h in
        let (_, (b, two)) = bind-returns second (λ _. third >> last) tt f1 h1 in
        let f2 = (second f1).1 in
        let h2 = sym (ap (λ r. r.0) two) ∙ h1 in
        let (_, (c, three)) = bind-returns third (λ _. last) tt f2 h2 in
        let whole = ap (λ r. r.1) (one ∙ (two ∙ three)) in
        let active = ap (λ g. g.active_rules) whole in
        (
          λ q. omega (
            arith,
            tracked q,
            ap (λ g. t.times q g.kernel) whole,
            append_rule-times i (prerouting_of m) q f a,
            append_rule-times i (output_of m) q f1 b,
            append_rule-times i (forward_of m) q f2 c,
            ap (wanted q) active,
            wanted-append q f.active_rules m,
          ),
          active,
        )
