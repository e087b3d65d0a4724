-- ===== src/Orchestrator/Manifest/Visits.antt =====
-- What one visit leaves, by induction on the fuel.
use mathlib.Core.List.{reverse, reverse-cons}
use pycrate.Base.{
  ℕ, zero, suc, ◌<◌, ◌≡◌, refl, sym, ◌∙◌, ap, inl, inr, true, false, String, List, [], ◌∷◌, ◌++◌,
  none, some, arith, All, All-weaken, All-both, All-In, any_of-In, str_eq, eq_iff, eq_refl,
  if◌then◌else◌, Bool-cases, Option-cases, subst,
}
use pycrate.Cluster.Table.{delete}
use pycrate.Orchestrator.Manifest.{
  ManifestError, circular, unknown_service, ServiceConfig, Services, get_service, names, mem, Walk,
  Outcome, done, raised, exhausted, visit_each, leave, leave_outcome, enter, visit,
}
use pycrate.Orchestrator.Manifest.Stack.{
  delete-top, remaining, remaining-cons_lt, mem_of-get, mem-None, All-mem,
}

module _ (services : Services) where
  abbrev pub depends_on : String → List String
  depends_on name = elim (get_service name services) [ none ↦ [] | some s ↦ s.depends_on ]

  -- One depends on the other, directly or through others.
  pub data DependsOn (a : String) : String → Type 0 where
    direct : {b : String} → mem b (depends_on a) ≡ true → DependsOn a b
    through : {b c : String} → DependsOn a b → mem c (depends_on b) ≡ true → DependsOn a c

  -- Each name, the last one first, is a service, is not among those before it, and its
  -- dependencies are.
  abbrev pub Ordered : List String → Type 0
  Ordered [] = Unit
  Ordered (name ∷ older) =
      (mem name (names services) ≡ true)
      × (mem name older ≡ false)
      × All (λ dep. mem dep older ≡ true) (depends_on name)
      × Ordered older

  -- The visited services, in the order as it should be, and none of them on the stack.
  pub record Inv (w : Walk) : Type 0 where
    pub order : w.order ≡ reverse w.visited
    pub ordered : Ordered w.visited
    pub apart : All (λ v. mem v w.visited ≡ false) w.visiting

  -- What a visit leaves: nothing lost, and the stack as it was.
  pub record After (w w' : Walk) : Type 0 where
    pub inv : Inv w'
    pub keeps : (n : String) → mem n w.visited ≡ true → mem n w'.visited ≡ true
    pub stack : w'.visiting ≡ w.visiting

  abbrev pub Reason : ManifestError → Type 0
  Reason (circular n) = DependsOn n n
  Reason (unknown_service n) = mem n (names services) ≡ false
  Reason _ = ⊥

  abbrev pub Good : List String → Walk → Outcome → Type 0
  Good ns w (done w') = After w w' × All (λ n. mem n w'.visited ≡ true) ns
  Good ns w (raised e) = Reason e
  Good ns w exhausted = ⊥

  -- Everything on the stack depends on the name.
  abbrev pub Needed : List String → String → Type 0
  Needed stack n = All (λ a. DependsOn a n) stack

  abbrev pub Visits : List String → (String → Walk → Outcome) → Type 0
  Visits stack g =
      (n : String) (w : Walk)
      → w.visiting ≡ stack
      → Needed stack n
      → Inv w
      → Good (n ∷ []) w (g n w)

  module _ (stack : List String) (g : String → Walk → Outcome) (ih : Visits stack g) where
    visit_each-cons :
        (n : String) (ns : List String) (w w' : Walk)
        → After w w'
        → mem n w'.visited ≡ true
        → (r : Outcome) → Good ns w' r
        → Good (n ∷ ns) w r
    visit_each-cons n ns w w' a m (done v) h = (
      record {
        inv = h.0.inv;
        keeps = λ k e. h.0.keeps k (a.keeps k e);
        stack = h.0.stack ∙ a.stack;
      },
      (h.0.keeps n m, h.1),
    )
    visit_each-cons n ns w w' a m (raised e) h = h
    visit_each-cons n ns w w' a m exhausted h = h

    visit_each-step :
        (n : String) (ns : List String) (w : Walk) (r : Outcome)
        → Good (n ∷ []) w r
        → ((w' : Walk) → w'.visiting ≡ w.visiting → Inv w' → Good ns w' (visit_each g ns w'))
        → Good
            (n ∷ ns)
            w
            (elim r [ done w' ↦ visit_each g ns w' | raised e ↦ raised e | exhausted ↦ exhausted ])
    visit_each-step n ns w (done w') h rest =
        visit_each-cons n ns w w' h.0 h.1.0 (visit_each g ns w') (rest w' h.0.stack h.0.inv)
    visit_each-step n ns w (raised e) h rest = h
    visit_each-step n ns w exhausted h rest = h

    pub visit_each-Good :
        (ns : List String) (w : Walk)
        → w.visiting ≡ stack
        → All (Needed stack) ns
        → Inv w
        → Good ns w (visit_each g ns w)
    unfolding visit_each
    visit_each-Good [] w q d i = (record { inv = i; keeps = λ k e. e; stack = refl }, tt)
    visit_each-Good (n ∷ ns) w q d i =
        visit_each-step n ns w (g n w) (ih n w q d.0 i)
          (λ w' e i'. visit_each-Good ns w' (e ∙ q) d.1 i')

  depends_on-some :
      (n : String) (s : ServiceConfig)
      → get_service n services ≡ some s
      → depends_on n ≡ s.depends_on
  depends_on-some n s e = rw (e, depends_on)

  Needed-below :
      (n : String) (stack : List String) → Needed stack n → All (Needed (n ∷ stack)) (depends_on n)
  Needed-below n stack d =
      All-weaken _ _ (depends_on n)
        (λ b h.
          let m : mem b (depends_on n) ≡ true = any_of-In _ b (depends_on n) h (eq_refl b) in
          (direct m, All-weaken _ _ stack (λ a p. through p m) d))
        (All-In (depends_on n))

  on_stack :
      (n : String) (stack : List String) → Needed stack n → mem n stack ≡ true → DependsOn n n
  on_stack n [] d h = absurd (cc h)
  on_stack n (a ∷ stack) d h = elim (Bool-cases (str_eq a n)) [
    | inl e ↦ subst (λ x. DependsOn x n) ((eq_iff a n).0 e) d.0
    | inr e ↦ on_stack n stack d.1 (ground arith)
  ]

  module _ (n : String) (w : Walk) where
    leave-Good :
        mem n w.visiting ≡ false
        → mem n (names services) ≡ true
        → (r : Outcome) → Good (depends_on n) (record w { visiting = n ∷ w.visiting }) r
        → Good (n ∷ []) w (leave_outcome n r)
    leave-Good off known (done v) h =
        let back : (leave n v).visiting ≡ w.visiting =
          ap (delete (λ x. str_eq x n)) h.0.stack ∙ delete-top n w.visiting off in
        let apart : All (λ x. mem x v.visited ≡ false) (n ∷ w.visiting) =
          subst (All (λ x. mem x v.visited ≡ false)) h.0.stack h.0.inv.apart in
        (
          record {
            inv = record {
              order = ap (λ o. o ++ n ∷ []) h.0.inv.order ∙ sym (reverse-cons n v.visited);
              ordered = (known, apart.0, h.1, h.0.inv.ordered);
              apart = subst (All (λ x. mem x (leave n v).visited ≡ false)) (sym back) (
                  All-weaken _ _ w.visiting (λ x e. ground (arith, e))
                    (All-both _ _ w.visiting (All-mem n w.visiting off) apart.1));
            };
            keeps = λ k e. ground (arith, h.0.keeps k e);
            stack = back;
          },
          (ground (arith, eq_refl n), tt),
        )
    leave-Good off known (raised e) h = h
    leave-Good off known exhausted h = h

  module _ (g : String → Walk → Outcome) (n : String) (w : Walk) (off : mem n w.visiting ≡ false)
      (ih : Visits (n ∷ w.visiting) g) where
    enter-Good :
        mem n w.visited ≡ false
        → Needed w.visiting n
        → Inv w
        → (s : ServiceConfig) → get_service n services ≡ some s
        → Good (n ∷ []) w (enter services g n (some s) w)
    unfolding enter
    enter-Good new d i s e =
        leave-Good n w off (mem_of-get n services s e)
          (visit_each g s.depends_on (record w { visiting = n ∷ w.visiting }))
          (subst
            (λ ds.
              Good (depends_on n) (record w { visiting = n ∷ w.visiting })
                (visit_each g ds (record w { visiting = n ∷ w.visiting })))
            (depends_on-some n s e)
            (visit_each-Good (n ∷ w.visiting) g ih (depends_on n)
              (record w { visiting = n ∷ w.visiting }) refl (Needed-below n w.visiting d)
              (record { order = i.order; ordered = i.ordered; apart = (new, i.apart) })))

  pub visit-Good :
      (fuel : ℕ) (n : String) (w : Walk)
      → remaining services w.visiting < fuel
      → Needed w.visiting n
      → Inv w
      → Good (n ∷ []) w (visit services fuel n w)
  unfolding visit
  visit-Good zero n w h d i = absurd (omega arith)
  visit-Good (suc fuel) n w h d i = elim (Bool-cases (mem n w.visited)) [
    | inl e ↦ rw (e, if◌then◌else◌) (record { inv = i; keeps = λ k m. m; stack = refl }, (e, tt))
    | inr new ↦ elim (Bool-cases (mem n w.visiting)) [
      | inl e ↦ rw (new, e, if◌then◌else◌) (on_stack n w.visiting d e)
      | inr off ↦
          rw (new, off, if◌then◌else◌)
            (elim (Option-cases (get_service n services)) [
              | inl e ↦ rw (e, enter) (mem-None n services e)
              | inr (s, e) ↦ rw e (
                  enter-Good (visit services fuel) n w off
                    (λ m v q need j.
                      visit-Good fuel m v
                        (rw q (omega (arith, h, remaining-cons_lt services n w.visiting s e off)))
                        (rw q need) j)
                    new d i s e)
            ])
    ]
  ]
