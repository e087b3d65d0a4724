-- ===== src/Cluster/Deploy/Counts.antt =====
-- What a rolling update that returns has done.
use pycrate.Base.{
  ℕ, zero, suc, ◌+◌, ◌≤◌, ◌≡◌, refl, ◌∙◌, inl, inr, List, [], ◌∷◌, arith, take, drop, length,
  length-drop-le, if◌then◌else◌, Bool-cases, subst, leb, select,
}
use pycrate.Base.Exec.{Exec, Result, ok, err, continue, ◌>>=◌}
use pycrate.Cluster.Floats.{Floats}
use pycrate.Cluster.Types.{ClusterState, Deployment, ContainerRecord, StateError, is_running}
use pycrate.Cluster.State.{get_containers_for_deployment}
use pycrate.Cluster.Validity.{Result-cases}
use pycrate.Cluster.Scheduler.{schedule}
use pycrate.Cluster.Deploy.{
  Rolling, modify, stop_old, stop_batch, surge, surge_batch, wait, polls, roll_batch, roll,
}

length-take-drop :
    {A : Type 0} (k : ℕ) (xs : List A) → length (take k xs) + length (drop k xs) ≡ length xs
length-take-drop zero xs = omega arith
length-take-drop (suc k) [] = omega arith
length-take-drop (suc k) (x ∷ xs) = omega (arith, length-take-drop k xs)

-- An action that counts so many containers where it returns.
abbrev pub Adds : {A : Type 0} → ℕ → Exec StateError Rolling A → Type 0
Adds {A} n m =
    (r : Rolling) (a : A) → (m r).0 ≡ ok a → (m r).1.rollout.updated ≡ r.rollout.updated + n

pub Adds-continue :
    {A B : Type 0} (f : A → Exec StateError Rolling B) (n : ℕ) (x : Result StateError A)
    → ((a : A) → Adds n (f a))
    → (r : Rolling) (b : B) → (continue x f r).0 ≡ ok b
    → (a : A) × (x ≡ ok a) × ((continue x f r).1.rollout.updated ≡ r.rollout.updated + n)
Adds-continue f n (ok a) h r b e = (a, refl, h a r b e)
Adds-continue f n (err x) h r b e = absurd (cc e)

Adds-bind :
    {A B : Type 0} (m : Exec StateError Rolling A) (f : A → Exec StateError Rolling B) (i j : ℕ)
    → Adds i m
    → ((a : A) → Adds j (f a))
    → Adds (i + j) (m >>= f)
unfolding ◌>>=◌
Adds-bind m f i j hm hf r b e =
    let (a, q, h) = Adds-continue f j (m r).0 hf (m r).1 b e in omega (arith, h, hm r a q)

Adds-stop_batch :
    (dep : Deployment) (cs : List ContainerRecord) → Adds (length cs) (stop_batch dep cs)
unfolding stop_batch stop_old
Adds-stop_batch dep [] r a e = omega arith
Adds-stop_batch dep (c ∷ cs) r a e =
    Adds-bind (stop_old dep c) _ 1 (length cs)
      (Adds-bind _ _ 0 1 (λ t x q. omega arith) (λ x t y q. omega arith))
      (λ _. Adds-stop_batch dep cs) r a e
    ∙ omega arith

Adds-eq : (i j : ℕ) (m : Exec StateError Rolling Unit) → i ≡ j → Adds i m → Adds j m
Adds-eq i j m e h = subst (λ k. Adds k m) e h

module _ {F : Type 0} (fl : Floats F) (others : ClusterState → ClusterState) where
  Adds-surge : (dep : Deployment) → Adds 0 (surge fl others dep)
  unfolding surge
  Adds-surge dep r a e = elim (Result-cases (schedule fl dep r.store)) [
    | inl (d, q) ↦
        rw (q, surge)
          (Adds-bind _ _ 0 0 (λ t x p. omega arith) (λ x t y p. omega arith) r a
              (rw (q, surge) at e)
            ∙ omega arith)
    | inr (x, q) ↦ rw (q, surge) (omega arith)
  ]

  Adds-surge_batch :
      (dep : Deployment) (cs : List ContainerRecord) → Adds 0 (surge_batch fl others dep cs)
  unfolding surge_batch
  Adds-surge_batch dep [] r a e = omega arith
  Adds-surge_batch dep (c ∷ cs) r a e =
      Adds-bind _ _ 0 0 (Adds-surge dep) (λ _. Adds-surge_batch dep cs) r a e ∙ omega arith

  updated-wait :
      (n : ℕ) (dep : Deployment) (k : ℕ) (r : Rolling)
      → (wait fl others n dep k r).rollout.updated ≡ r.rollout.updated
  unfolding wait
  updated-wait zero dep k r = refl
  updated-wait (suc n) dep k r =
      let r' = record r { store = others r.store } in
      elim (Bool-cases (
        leb k (
          length (select is_running (get_containers_for_deployment dep.deployment_id r'.store))))) [
            | inl e ↦ rw (e, if◌then◌else◌) refl
            | inr e ↦ rw (e, if◌then◌else◌) (updated-wait n dep k r')
          ]

  Adds-roll_batch :
      (dep new_dep : Deployment) (cs : List ContainerRecord)
      → Adds (length cs) (roll_batch fl others dep new_dep cs)
  unfolding roll_batch
  Adds-roll_batch dep new_dep cs r a e =
      Adds-bind _ _ 0 (0 + (0 + length cs)) (Adds-surge_batch new_dep cs)
        (λ _.
          Adds-bind (modify _) _ 0 (0 + length cs) (λ t x q. omega arith)
            (λ _.
              Adds-bind (modify (wait fl others polls new_dep (length cs))) _ 0 (length cs)
                (λ t x q. omega (arith, updated-wait polls new_dep (length cs) t))
                (λ _. Adds-stop_batch dep cs)))
        r a e
      ∙ omega arith

  pub Adds-roll :
      (fuel k : ℕ) (dep new_dep : Deployment) (cs : List ContainerRecord)
      → 1 ≤ k
      → length cs ≤ fuel
      → Adds (length cs) (roll fl others fuel k dep new_dep cs)
  unfolding roll
  Adds-roll zero k dep new_dep [] hk h r a e = omega arith
  Adds-roll zero k dep new_dep (c ∷ cs) hk h r a e = absurd (omega arith)
  Adds-roll (suc fuel) k dep new_dep [] hk h r a e = omega arith
  Adds-roll (suc fuel) k dep new_dep (c ∷ cs) hk h r a e =
      Adds-bind _ _ (length (take k (c ∷ cs))) (length (drop k (c ∷ cs)))
        (Adds-roll_batch dep new_dep (take k (c ∷ cs)))
        (λ _.
          Adds-roll fuel k dep new_dep (drop k (c ∷ cs)) hk
            (length-drop-le k fuel (c ∷ cs) (omega arith)))
        r a e
      ∙ omega (arith, length-take-drop k (c ∷ cs))
