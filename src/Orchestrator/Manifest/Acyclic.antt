-- ===== src/Orchestrator/Manifest/Acyclic.antt =====
-- An order leaves no room for a cycle: so `get_start_order` raises where there is one.
use pycrate.Base.{
  ◌≡◌, refl, sym, ◌∙◌, ap, inl, inr, true, false, String, List, [], ◌∷◌, arith, All, subst, str_eq,
  eq_iff, if◌then◌else◌, Bool-cases,
}
use pycrate.Orchestrator.Manifest.{Services, names, mem, Walk, done, get_start_order}
use pycrate.Orchestrator.Manifest.Visits.{depends_on, DependsOn, direct, through, Ordered}
use pycrate.Orchestrator.Manifest.Order.{Sound, get_start_order-Sound}

-- The names that stand behind a name.
abbrev before : String → List String → List String
before a [] = []
before a (x ∷ xs) = if str_eq x a then xs else before a xs

before-mem : (a c : String) (xs : List String) → mem c (before a xs) ≡ true → mem c xs ≡ true
before-mem a c [] h = h
before-mem a c (x ∷ xs) h = ground (arith, before-mem a c xs)

apart : (x b : String) (xs : List String) → mem x xs ≡ false → mem b xs ≡ true → str_eq x b ≡ false
apart x b xs h k = elim (Bool-cases (str_eq x b)) [
  | inl e ↦ absurd (cc (sym h ∙ ap (λ y. mem y xs) ((eq_iff x b).0 e) ∙ k))
  | inr e ↦ e
]

mem_at : (P : String → Type 0) (c : String) (xs : List String) → All P xs → mem c xs ≡ true → P c
mem_at P c [] h k = absurd (cc k)
mem_at P c (x ∷ xs) h k = elim (Bool-cases (str_eq x c)) [
  | inl e ↦ subst P ((eq_iff x c).0 e) h.0
  | inr e ↦ mem_at P c xs h.1 (ground arith)
]

module _ (services : Services) where
  before-deps :
      (a : String) (xs : List String)
      → Ordered services xs
      → mem a xs ≡ true
      → All (λ b. mem b (before a xs) ≡ true) (depends_on services a)
  before-deps a [] o h = absurd (cc h)
  before-deps a (x ∷ xs) o h = elim (Bool-cases (str_eq x a)) [
    | inl e ↦
        rw (e, before)
          (subst (λ y. All (λ b. mem b xs ≡ true) (depends_on services y)) ((eq_iff x a).0 e) o.2)
    | inr e ↦ rw (e, before) (before-deps a xs o.3 (ground arith))
  ]

  before_trans :
      (a b c : String) (xs : List String)
      → Ordered services xs
      → mem b (before a xs) ≡ true
      → mem c (before b xs) ≡ true
      → mem c (before a xs) ≡ true
  before_trans a b c [] o h k = h
  before_trans a b c (x ∷ xs) o h k = elim (Bool-cases (str_eq x a)) [
    | inl e ↦
        (let h' : mem b xs ≡ true = rw (e, before) at h in
          rw (e, before) (before-mem b c xs (rw (apart x b xs o.1 h', before) at k)))
    | inr e ↦
        (let h' : mem b (before a xs) ≡ true = rw (e, before) at h in
          rw (e, before)
            (before_trans a b c xs o.3 h'
              (rw (apart x b xs o.1 (before-mem a b xs h'), before) at k)))
  ]

  before_self : (a : String) (xs : List String) → Ordered services xs → mem a (before a xs) ≡ false
  before_self a [] o = refl
  before_self a (x ∷ xs) o = elim (Bool-cases (str_eq x a)) [
    | inl e ↦ rw (e, before) (subst (λ y. mem y xs ≡ false) ((eq_iff x a).0 e) o.1)
    | inr e ↦ rw (e, before) (before_self a xs o.3)
  ]

  before-DependsOn :
      (a b : String) (xs : List String)
      → Ordered services xs
      → mem a xs ≡ true
      → DependsOn services a b
      → mem b (before a xs) ≡ true
  before-DependsOn a b xs o h (direct m) = mem_at _ b _ (before-deps a xs o h) m
  before-DependsOn a c xs o h (through {b = b} q m) =
      let there : mem b (before a xs) ≡ true = before-DependsOn a b xs o h q in
      before_trans a b c xs o there (mem_at _ c _ (before-deps b xs o (before-mem a b xs there)) m)

  Sound-done : (w : Walk) → get_start_order services ≡ done w → Sound services (done w)
  Sound-done w e = subst (Sound services) e (get_start_order-Sound services)

  -- Where the order is returned, no service of the manifest depends on itself, neither directly
  -- nor through others.
  pub get_start_order_acyclic :
      (w : Walk) (n : String)
      → get_start_order services ≡ done w
      → mem n (names services) ≡ true
      → ¬ DependsOn services n n
  get_start_order_acyclic w n e m p =
      let sound = Sound-done w e in
      let there : mem n w.visited ≡ true = mem_at _ n (names services) sound.2 m in
      absurd (
        cc (sym (before_self n w.visited sound.1) ∙ before-DependsOn n n w.visited sound.1 there p))
