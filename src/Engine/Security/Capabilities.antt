-- ===== src/Engine/Security/Capabilities.antt =====
-- `drop_capabilities`, over the kernel's bounding set.
use pycrate.Base.{
  ℕ, zero, suc, ◌+◌, ◌≡◌, ◌≢◌, refl, ◌∙◌, inl, inr, Bool, true, false, ◌==◌, List, [], ◌∷◌, ◌++◌,
  arith, if◌then◌else◌, Bool-cases, ltb,
}
use pycrate.Engine.Security.Filter.{is_in}

abbrev pub cap_last_cap : ℕ
cap_last_cap = 37

-- CHOWN, DAC_OVERRIDE, FSETID, FOWNER, MKNOD, NET_RAW, SETGID, SETUID, SETFCAP, SETPCAP,
-- NET_BIND_SERVICE, SYS_CHROOT, KILL and AUDIT_WRITE, by their numbers.
abbrev pub allowed_capabilities : List ℕ
allowed_capabilities = 0 ∷ 1 ∷ 4 ∷ 3 ∷ 27 ∷ 13 ∷ 6 ∷ 7 ∷ 31 ∷ 8 ∷ 10 ∷ 18 ∷ 5 ∷ 29 ∷ []

unfoldable pub is_allowed : ℕ → Bool
is_allowed cap = is_in cap allowed_capabilities

-- The answer to PR_CAPBSET_READ: below 0, 0 or 1.
pub data InSet : Type 0 where
  unknown clear present : InSet

-- `prctl` on the bounding set of the process, which is a state `K` of the kernel. The laws are
-- those of its manual page: a drop that succeeds clears that capability, one that fails changes
-- nothing, and neither touches another capability. `able` says that the process has CAP_SETPCAP,
-- which a drop from the bounding set does not take from it: it can then drop what is in the set.
pub record Prctl (K : Type 0) : Type 0 where
  pub read : ℕ → K → InSet
  pub drop : ℕ → K → K × Bool
  pub drop_self : (c : ℕ) (k : K) → (drop c k).1 ≡ true → read c (drop c k).0 ≡ clear
  pub drop_fails : (c : ℕ) (k : K) → (drop c k).1 ≡ false → read c (drop c k).0 ≡ read c k
  pub drop_ne : (c j : ℕ) (k : K) → c ≢ j → read j (drop c k).0 ≡ read j k
  pub able : K → Bool
  pub drop_able : (c : ℕ) (k : K) → able k ≡ true → read c k ≡ present → (drop c k).1 ≡ true
  pub able_drop : (c : ℕ) (k : K) → able (drop c k).0 ≡ able k

-- The set after the loop, at one capability, if every drop succeeds.
unfoldable pub after_drop : ℕ → InSet → InSet
after_drop cap was =
    if is_allowed cap then was else elim was [ unknown ↦ unknown | clear ↦ clear | present ↦ clear ]

module _ {K : Type 0} (p : Prctl K) where
  -- The body of the loop: the new bounding set, and the list of what was dropped.
  unfoldable pub drop_one : ℕ → K × List ℕ → K × List ℕ
  drop_one cap (k, dropped) = if is_allowed cap then (k, dropped) else elim (p.read cap k) [
    | unknown ↦ (k, dropped)
    | clear ↦ (k, dropped)
    | present ↦
        (let (k', done) = p.drop cap k in if done then (k', dropped ++ cap ∷ []) else (k', dropped))
  ]

  -- `for cap in range(n)`
  unfoldable pub drop_below : ℕ → K × List ℕ → K × List ℕ
  unfolding drop_one
  drop_below zero s = s
  drop_below (suc n) s = drop_one n (drop_below n s)

  unfoldable pub drop_capabilities : K → K × List ℕ
  unfolding drop_below
  drop_capabilities k = drop_below (cap_last_cap + 1) (k, [])

  drop_one-able : (cap : ℕ) (s : K × List ℕ) → p.able (drop_one cap s).0 ≡ p.able s.0
  unfolding drop_one
  drop_one-able cap s = ground (arith, p.able_drop cap s.0)

  drop_below-able : (n : ℕ) (s : K × List ℕ) → p.able (drop_below n s).0 ≡ p.able s.0
  unfolding drop_below
  drop_below-able zero s = refl
  drop_below-able (suc n) s = drop_one-able n (drop_below n s) ∙ drop_below-able n s

  drop_one-read :
      (cap j : ℕ) (s : K × List ℕ)
      → p.able s.0 ≡ true
      → p.read j (drop_one cap s).0
        ≡ (if cap == j then after_drop cap (p.read cap s.0) else p.read j s.0)
  unfolding drop_one after_drop
  drop_one-read cap j s a =
      ground (arith, p.drop_able cap s.0 a, p.drop_self cap s.0, p.drop_ne cap j s.0)

  drop_below-read :
      (n j : ℕ) (s : K × List ℕ)
      → p.able s.0 ≡ true
      → p.read j (drop_below n s).0
        ≡ (if ltb j n then after_drop j (p.read j s.0) else p.read j s.0)
  unfolding drop_below
  drop_below-read zero j s a = ground arith
  drop_below-read (suc n) j s a =
      ground (
        arith,
        drop_one-read n j (drop_below n s) (drop_below-able n s ∙ a),
        drop_below-read n j s a,
      )

  -- In a process that has CAP_SETPCAP, on a kernel that may lack any of the capabilities: what is
  -- allowed stays as it was, every other capability that was in the set and has a number up to 37
  -- is out of it, those that the kernel does not know stay unknown, and those with higher numbers
  -- stay as they were.
  pub drop_capabilities-read :
      (cap : ℕ) (k : K)
      → p.able k ≡ true
      → p.read cap (drop_capabilities k).0
        ≡ (if ltb cap 38 then after_drop cap (p.read cap k) else p.read cap k)
  unfolding drop_capabilities
  drop_capabilities-read cap k a = drop_below-read 38 cap (k, []) a

  -- Whatever the kernel answers, no allowed capability is dropped.
  drop_one-allowed :
      (cap j : ℕ) (s : K × List ℕ)
      → is_allowed j ≡ true
      → p.read j (drop_one cap s).0 ≡ p.read j s.0
  unfolding drop_one
  drop_one-allowed cap j s h = elim (Bool-cases (cap == j)) [
    | inl e ↦ (let same : cap ≡ j = ground arith in rw same (rw (h, drop_one)))
    | inr e ↦ ground (arith, p.drop_ne cap j s.0)
  ]
