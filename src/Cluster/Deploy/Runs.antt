-- ===== src/Cluster/Deploy/Runs.antt =====
-- A rolling update only calls methods of the store.
use pycrate.Base.{
  ℤ, pos, negsuc, ℕ, zero, suc, leb, length, inl, inr, List, [], ◌∷◌, String, take, drop, select,
  if◌then◌else◌, Bool-cases, Option-cases,
}
use pycrate.Base.Exec.{Exec, Result, ok, err, continue, ◌>>=◌}
use pycrate.Cluster.Floats.{Floats}
use pycrate.Cluster.Types.{ClusterState, Deployment, ContainerRecord, StateError, is_running}
use pycrate.Cluster.State.{get_containers_for_deployment, get_deployment, clock_read}
use pycrate.Cluster.Validity.{IsValid, Result-cases}
use pycrate.Cluster.Validity.Steps
use pycrate.Cluster.Validity.Steps.{Step, Reach, here, next, Reach-trans, Reach-IsValid}
use pycrate.Cluster.Scheduler.{schedule}
use pycrate.Cluster.Deploy.{
  Rolling, modify, stop_old, stop_batch, surge, surge_batch, wait, polls, roll_batch, roll, batches,
}
use pycrate.Cluster.Deploy.Update.{
  Changes, RollingDeployer, finish, conclude, begin, new_deployment, run_update, update, is_zero,
}

abbrev Runs : {A : Type 0} → Exec StateError Rolling A → Type 0
Runs m = (r : Rolling) → Reach r.store (m r).1.store

Runs-continue :
    {A B : Type 0} (f : A → Exec StateError Rolling B) (x : Result StateError A)
    → ((a : A) → Runs (f a))
    → (r : Rolling) → Reach r.store (continue x f r).1.store
Runs-continue f (ok a) h r = h a r
Runs-continue f (err e) h r = here

Runs-bind :
    {A B : Type 0} (m : Exec StateError Rolling A) (f : A → Exec StateError Rolling B)
    → Runs m
    → ((a : A) → Runs (f a))
    → Runs (m >>= f)
unfolding ◌>>=◌
Runs-bind m f hm hf r = Reach-trans (hm r) (Runs-continue f (m r).0 hf (m r).1)

Runs-stop_batch : (dep : Deployment) (cs : List ContainerRecord) → Runs (stop_batch dep cs)
unfolding stop_batch stop_old
Runs-stop_batch dep [] r = here
Runs-stop_batch dep (c ∷ cs) r =
    Runs-bind _ _ (λ q. Runs-bind _ _ (λ t. next here (Steps.assigns _)) (λ _ t. here) q)
      (λ _. Runs-stop_batch dep cs) r

Runs-conclude : (dep new_dep : Deployment) → Runs (conclude dep new_dep)
unfolding conclude
Runs-conclude dep new_dep r =
    Runs-bind _ _ (λ t. next here (Steps.deploys _))
      (λ _.
        Runs-bind (modify finish) _ (λ t. next here Steps.reads_clock)
          (λ _ t. next here (Steps.adds_event _ _ _ _)))
      r

module _ {F : Type 0} (fl : Floats F) (others : ClusterState → ClusterState)
    (calls : (s : ClusterState) → Reach s (others s)) where
  Runs-surge : (dep : Deployment) → Runs (surge fl others dep)
  unfolding surge
  Runs-surge dep r = elim (Result-cases (schedule fl dep r.store)) [
    | inl (d, e) ↦ rw (e, surge) (Runs-bind _ _ (λ t. next here (Steps.assigns _)) (λ _ t. here) r)
    | inr (x, e) ↦ rw (e, surge) here
  ]

  Runs-surge_batch :
      (dep : Deployment) (cs : List ContainerRecord) → Runs (surge_batch fl others dep cs)
  unfolding surge_batch
  Runs-surge_batch dep [] r = here
  Runs-surge_batch dep (c ∷ cs) r = Runs-bind _ _ (Runs-surge dep) (λ _. Runs-surge_batch dep cs) r

  wait-Reach :
      (n : ℕ) (dep : Deployment) (k : ℕ) (r : Rolling)
      → Reach r.store (wait fl others n dep k r).store
  unfolding wait
  wait-Reach zero dep k r = here
  wait-Reach (suc n) dep k r =
      let r' = record r { store = others r.store } in
      elim (Bool-cases (
        leb k (
          length (select is_running (get_containers_for_deployment dep.deployment_id r'.store))))) [
            | inl e ↦ rw (e, if◌then◌else◌) (calls r.store)
            | inr e ↦ rw (e, if◌then◌else◌) (Reach-trans (calls r.store) (wait-Reach n dep k r'))
          ]

  Runs-roll_batch :
      (dep new_dep : Deployment) (cs : List ContainerRecord)
      → Runs (roll_batch fl others dep new_dep cs)
  unfolding roll_batch
  Runs-roll_batch dep new_dep cs r =
      Runs-bind _ _ (Runs-surge_batch new_dep cs)
        (λ _.
          Runs-bind (modify _) _ (λ t. here)
            (λ _.
              Runs-bind (modify (wait fl others polls new_dep (length cs))) _
                (λ t. wait-Reach polls new_dep (length cs) t) (λ _. Runs-stop_batch dep cs)))
        r

  Runs-roll :
      (fuel k : ℕ) (dep new_dep : Deployment) (cs : List ContainerRecord)
      → Runs (roll fl others fuel k dep new_dep cs)
  unfolding roll
  Runs-roll zero k dep new_dep cs r = here
  Runs-roll (suc fuel) k dep new_dep [] r = here
  Runs-roll (suc fuel) k dep new_dep (c ∷ cs) r =
      Runs-bind _ _ (Runs-roll_batch dep new_dep (take k (c ∷ cs)))
        (λ _. Runs-roll fuel k dep new_dep (drop k (c ∷ cs))) r

  Runs-batches :
      (k : ℤ) (dep new_dep : Deployment) (cs : List ContainerRecord)
      → Runs (batches fl others k dep new_dep cs)
  unfolding batches
  Runs-batches (pos k) dep new_dep cs r = Runs-roll (length cs) k dep new_dep cs r
  Runs-batches (negsuc k) dep new_dep cs r = here

  run_update-Reach :
      (dep : Deployment) (changes : Changes) (k : ℤ) (s : ClusterState)
      → Reach s (run_update fl others dep changes k s).1.store
  unfolding run_update
  run_update-Reach dep changes k s =
      let current = get_containers_for_deployment dep.deployment_id s in
      let new_dep = new_deployment dep changes (clock_read s) in
      let read : Reach s (begin dep changes current s).store =
        next (next (next (next here Steps.reads_clock) Steps.reads_clock) Steps.reads_clock)
          Steps.reads_clock in
      elim (Bool-cases (is_zero k)) [
        | inl e ↦ rw (e, if◌then◌else◌) read
        | inr e ↦
            rw (e, if◌then◌else◌)
              (Reach-trans read (
                Runs-bind (batches fl others k dep new_dep current) _
                  (Runs-batches k dep new_dep current) (λ _. Runs-conclude dep new_dep)
                  (begin dep changes current s)))
      ]

  pub update-Reach :
      (service : String) (changes : Changes) (k : ℤ) (d : RollingDeployer)
      → Reach d.store (update fl others service changes k d).1.store
  unfolding update
  update-Reach service changes k d = elim (Option-cases (get_deployment service d.store)) [
    | inl e ↦ rw (e, update) here
    | inr (dep, e) ↦ rw (e, update) (run_update-Reach dep changes k d.store)
  ]

  -- Where the other threads only call methods of the store in the sleeps, a rolling update, also
  -- one that raises, keeps the constraints of the tables.
  update-IsValid :
      (service : String) (changes : Changes) (k : ℤ) (d : RollingDeployer)
      → IsValid d.store
      → IsValid (update fl others service changes k d).1.store
  update-IsValid service changes k d v = Reach-IsValid (update-Reach service changes k d) v
