-- ===== src/Cluster/PortForward/Removal.antt =====
-- Removing all mappings of a container.
use pycrate.Base.{
  ℕ, ◌+◌, ◌≡◌, refl, sym, subst, ◌∙◌, ap, inl, inr, Bool, true, false, String, List, [], ◌∷◌,
  str_eq, eq_iff, eq_refl, arith, select, length, All, if◌then◌else◌, Bool-cases,
}
use pycrate.Base.Exec.{ok, pure, bind-returns}
use pycrate.Cluster.Table.{delete}
use pycrate.Cluster.PortForward.{
  PortMapping, same_mapping, Rule, Iptables, remove_first, PortForwarder, remove_rule, remove_each,
  remove_all_for_container,
}
use pycrate.Cluster.PortForward.Tracking.{
  is_active, Tracked, wanted, wanted-remove, left_of, remove_rule-times,
}

abbrev pub of_container : String → PortMapping → Bool
of_container id m = str_eq m.container_id id

same_mapping_refl : (m : PortMapping) → same_mapping m m ≡ true
same_mapping_refl m =
    ground (arith, eq_refl m.container_id, eq_refl m.container_ip, eq_refl m.protocol)

-- The list after the removals, and that each finds its mapping.
unfoldable strike : List PortMapping → List PortMapping → List PortMapping
strike [] ms = ms
strike (r ∷ rs) ms = strike rs (remove_first r ms)

abbrev Present : List PortMapping → List PortMapping → Type 0
Present [] ms = Unit
Present (r ∷ rs) ms = (is_active r ms ≡ true) × Present rs (remove_first r ms)

module _ (id : String) where
  apart :
      (m : PortMapping) (rs : List PortMapping)
      → of_container id m ≡ false
      → All (λ r. of_container id r ≡ true) rs
      → All (λ r. same_mapping r m ≡ false) rs
  apart m [] h a = tt
  apart m (r ∷ rs) h a = (
    ground (
      arith,
      eq_iff r.container_id m.container_id,
      eq_iff r.container_id id,
      eq_iff m.container_id id,
    ),
    apart m rs h a.1,
  )

  All-selected :
      (ms : List PortMapping) → All (λ r. of_container id r ≡ true) (select (of_container id) ms)
  All-selected [] = tt
  All-selected (m ∷ ms) = elim (Bool-cases (of_container id m)) [
    | inl e ↦ rw (e, select, if◌then◌else◌) (e, All-selected ms)
    | inr e ↦ rw (e, select, if◌then◌else◌) (All-selected ms)
  ]

  strike-cons :
      (m : PortMapping) (rs ms : List PortMapping)
      → All (λ r. same_mapping r m ≡ false) rs
      → strike rs (m ∷ ms) ≡ m ∷ strike rs ms
  unfolding strike remove_first
  strike-cons m [] ms a = refl
  strike-cons m (r ∷ rs) ms a = rw (a.0, if◌then◌else◌) (strike-cons m rs (remove_first r ms) a.1)

  Present-cons :
      (m : PortMapping) (rs ms : List PortMapping)
      → All (λ r. same_mapping r m ≡ false) rs
      → Present rs ms
      → Present rs (m ∷ ms)
  unfolding remove_first
  Present-cons m [] ms a p = tt
  Present-cons m (r ∷ rs) ms a p =
      (ground (arith, p.0), rw (a.0, if◌then◌else◌) (Present-cons m rs (remove_first r ms) a.1 p.1))

  strike-selected :
      (ms : List PortMapping)
      → (strike (select (of_container id) ms) ms ≡ delete (of_container id) ms)
        × Present (select (of_container id) ms) ms
  unfolding strike remove_first delete
  strike-selected [] = (refl, tt)
  strike-selected (m ∷ ms) = elim (Bool-cases (of_container id m)) [
    | inl e ↦
        rw (e, select, delete, if◌then◌else◌)
          (rw (same_mapping_refl m, if◌then◌else◌, strike, remove_first, Present)
            ((strike-selected ms).0, (refl, (strike-selected ms).1)))
    | inr e ↦
        (let a = apart m (select (of_container id) ms) e (All-selected ms) in
          let r = strike-selected ms in
          rw (e, select, delete, if◌then◌else◌)
            (
              strike-cons m (select (of_container id) ms) ms a ∙ ap (λ x. m ∷ x) r.0,
              Present-cons m (select (of_container id) ms) ms a r.1,
            ))
  ]

module _ {K : Type 0} (t : Iptables K) where
  -- How many copies of a rule are kept by the removals, because their deletion did not succeed.
  unfoldable pub left_over : Rule → List PortMapping → PortForwarder K → ℕ
  unfolding left_of
  left_over q [] f = 0
  left_over q (m ∷ ms) f = left_of t q m f.kernel + left_over q ms (remove_rule t m f).1

  remove_each-times :
      (base : Rule → ℕ) (rs : List PortMapping) (f : PortForwarder K)
      → Tracked t base f
      → Present rs f.active_rules
      → (remove_each t rs f).0 ≡ ok tt
      → Tracked t (λ q. base q + left_over q rs f) (remove_each t rs f).1
        × ((remove_each t rs f).1.active_rules ≡ strike rs f.active_rules)
  unfolding remove_each strike left_over
  remove_each-times base [] f tracked p h = (λ q. omega (arith, tracked q), refl)
  remove_each-times base (r ∷ rs) f tracked p h =
      let (_, (a, one)) = bind-returns (remove_rule t r) (λ _. remove_each t rs) tt f h in
      let (active, times) = remove_rule-times t r f a in
      let f1 = (remove_rule t r f).1 in
      let step : Tracked t (λ q. base q + left_of t q r f.kernel) f1 = λ q.
        omega
          (arith, tracked q, times q, wanted-remove q r f.active_rules p.0, ap (wanted q) active) in
      let (after, struck) =
        remove_each-times (λ q. base q + left_of t q r f.kernel) rs f1 step
          (subst (Present rs) (sym active) p.1) (sym (ap (λ x. x.0) one) ∙ h) in
      let whole = ap (λ x. x.1) one in
      (
        λ q. omega (
          arith,
          after q,
          ap (λ g. t.times q g.kernel) whole,
          ap (λ g. wanted q g.active_rules) whole,
        ),
        ap (λ g. g.active_rules) whole ∙ (struck ∙ ap (strike rs) active),
      )

  -- Where the kernel has, besides what it had before, exactly the rules of the active mappings: a
  -- `remove_all_for_container` that returns deactivates exactly the mappings of the container, in
  -- any number, leaves the others in their order, and returns how many they were; the kernel then
  -- has, besides what it had before, the rules of the mappings that are left and those rules of the
  -- container whose deletion did not succeed, and no others.
  pub remove_all_for_container-Tracked :
      (base : Rule → ℕ) (id : String) (f : PortForwarder K) (n : ℕ)
      → Tracked t base f
      → (remove_all_for_container t id f).0 ≡ ok n
      → (n ≡ length (select (of_container id) f.active_rules))
        × (((remove_all_for_container t id f).1.active_rules
              ≡ delete (of_container id) f.active_rules)
            × Tracked t
                (λ q. base q + left_over q (select (of_container id) f.active_rules) f)
                (remove_all_for_container t id f).1)
  unfolding remove_all_for_container
  remove_all_for_container-Tracked base id f n tracked h =
      let rules = select (of_container id) f.active_rules in
      let s = strike-selected id f.active_rules in
      let (_, (a, one)) = bind-returns (remove_each t rules) (λ _. pure (length rules)) n f h in
      let (after, struck) = remove_each-times base rules f tracked s.1 a in
      let whole = ap (λ x. x.1) one in
      let count : length rules ≡ n = cc (sym (ap (λ x. x.0) one) ∙ h) in
      (
        sym count,
        (
          ap (λ g. g.active_rules) whole ∙ (struck ∙ s.0),
          λ q. omega (
            arith,
            after q,
            ap (λ g. t.times q g.kernel) whole,
            ap (λ g. wanted q g.active_rules) whole,
          ),
        ),
      )
