-- ===== src/Cluster/Scheduler/Choice.antt =====
-- What `schedule` chooses, and when it fails.
use pycrate.Base.{
  ◌≡◌, refl, sym, ◌∙◌, ◌⊎◌, inl, inr, ◌≤◌, Bool, true, false, not, ◌&&◌, ◌||◌, List, [], ◌∷◌, map,
  arith, any, select, All, All-select, All-select_test, All-of-select, All-sort, All-weaken, subst,
  All-map, All-of-map, All-In, All-both, In, any-select, any-weaken, any_of-All, All-of-any,
  any-sort, any_of-select_nil, any_of-select_cons, any-select_all, any-map, head-sort,
}
use pycrate.Base.Exec.{Result, ok, err}
use pycrate.Cluster.Floats.{Floats}
use pycrate.Cluster.Types.{
  ClusterState, NodeInfo, Deployment, cpu_available, memory_available, is_healthy,
}
use pycrate.Cluster.State.{get_healthy_nodes, get_all_nodes, is_master}
use pycrate.Cluster.Scheduler.{
  SchedulingDecision, fits, fits_worker, eligible, score_node, decide_on, ranked, pick,
  schedule_among, schedule,
}

abbrev pub succeeds {ℓ} : {E A : Type ℓ} → Result E A → Bool
succeeds (ok a) = true
succeeds (err e) = false

abbrev pub has_room : Deployment → NodeInfo → Bool
has_room dep n = is_healthy n && fits dep n

-- The nodes of `eligible`, by the branch that was taken.
eligible-cases :
    (dep : Deployment) (nodes : List NodeInfo)
    → ((any (fits_worker dep) nodes ≡ true) × (eligible dep nodes ≡ select (fits_worker dep) nodes))
      ⊎ ((any (fits_worker dep) nodes ≡ false) × (eligible dep nodes ≡ select (fits dep) nodes))
unfolding eligible
eligible-cases dep nodes = go (select (fits_worker dep) nodes) refl
  where
    go :
        (ws : List NodeInfo)
        → select (fits_worker dep) nodes ≡ ws
        → ((any (fits_worker dep) nodes ≡ true)
            × (eligible dep nodes ≡ select (fits_worker dep) nodes))
          ⊎ ((any (fits_worker dep) nodes ≡ false) × (eligible dep nodes ≡ select (fits dep) nodes))
    go [] e = inr (any_of-select_nil _ nodes e, rw (e, eligible))
    go (w ∷ ws) e = inl (any_of-select_cons _ nodes w ws e, rw (e, eligible))

any-eligible :
    (dep : Deployment) (nodes : List NodeInfo)
    → any (λ _. true) (eligible dep nodes) ≡ any (fits dep) nodes
any-eligible dep nodes = elim (eligible-cases dep nodes) [
  | inr (_, e) ↦ rw e (any-select_all (fits dep) nodes)
  | inl (h, e) ↦ rw e (
      any-select_all (fits_worker dep) nodes
      ∙ h
      ∙ sym (any-weaken (fits_worker dep) (fits dep) nodes (λ n f. ground arith) h))
]

module _ {F : Type 0} (fl : Floats F) where
  succeeds-pick :
      (dep : Deployment) (nodes : List NodeInfo) (ds : List (SchedulingDecision F))
      → succeeds (pick fl dep nodes ds) ≡ any (λ _. true) ds
  unfolding pick
  succeeds-pick dep nodes [] = refl
  succeeds-pick dep nodes (d ∷ ds) = refl

  succeeds-schedule_among :
      (dep : Deployment) (s : ClusterState) (nodes : List NodeInfo)
      → succeeds (schedule_among fl dep s nodes) ≡ any (fits dep) nodes
  unfolding schedule_among
  succeeds-schedule_among dep s [] = refl
  succeeds-schedule_among dep s (n ∷ ns) =
      succeeds-pick dep (n ∷ ns) (ranked fl dep s (eligible dep (n ∷ ns)))
      ∙ any-sort _ (λ _. true) (map (decide_on fl dep s) (eligible dep (n ∷ ns)))
      ∙ any-map (λ _. true) (decide_on fl dep s) (eligible dep (n ∷ ns))
      ∙ any-eligible dep (n ∷ ns)

  -- `schedule` returns a decision exactly when some node of the store is healthy and has the CPU
  -- and the memory free; otherwise it raises `NoCapacityError`.
  pub succeeds-schedule :
      (dep : Deployment) (s : ClusterState)
      → succeeds (schedule fl dep s) ≡ any (has_room dep) s.nodes
  unfolding schedule get_healthy_nodes get_all_nodes
  succeeds-schedule dep s =
      succeeds-schedule_among dep s (get_healthy_nodes s)
      ∙ any-select (fits dep) is_healthy (get_all_nodes s)
      ∙ any-sort _ (has_room dep) s.nodes

  ranked_of-ok :
      (dep : Deployment) (s : ClusterState) (nodes : List NodeInfo) {d : SchedulingDecision F}
      → schedule_among fl dep s nodes ≡ ok d
      → (ds : List (SchedulingDecision F)) × (ranked fl dep s (eligible dep nodes) ≡ d ∷ ds)
  unfolding schedule_among
  ranked_of-ok dep s [] e = absurd (cc e)
  ranked_of-ok dep s (n ∷ ns) {d} e = go (ranked fl dep s (eligible dep (n ∷ ns))) refl e
    where
      go :
          (r : List (SchedulingDecision F))
          → ranked fl dep s (eligible dep (n ∷ ns)) ≡ r
          → pick fl dep (n ∷ ns) r ≡ ok d
          → (ds : List (SchedulingDecision F)) × (ranked fl dep s (eligible dep (n ∷ ns)) ≡ d ∷ ds)
      go [] q h = absurd (cc h)
      go (x ∷ ds) q h = (ds, cc)

  -- A node with room that could have been taken in its place: a worker, or any node where a master
  -- was taken.
  abbrev pub rival : Deployment → NodeInfo → NodeInfo → Bool
  rival dep chosen n = fits dep n && (is_master chosen || not (is_master n))

  pub record Chosen (dep : Deployment) (s : ClusterState) (d : SchedulingDecision F) : Type 0 where
    pub asked : d.deployment ≡ dep
    pub scored : d.score ≡ score_node fl d.node s
    pub known : In d.node s.nodes
    pub healthy : is_healthy d.node ≡ true
    pub cpu_room : dep.cpu ≤ cpu_available d.node
    pub memory_room : dep.memory ≤ memory_available d.node
    pub workers_first :
        (is_master d.node && any (λ n. is_healthy n && fits_worker dep n) s.nodes) ≡ false
    pub best :
        any (λ n. is_healthy n && (rival dep d.node n && fl.lt d.score (score_node fl n s))) s.nodes
        ≡ false

  module _ (dep : Deployment) (s : ClusterState) where
    -- A property of the scored nodes passes to the decision at the head of the ranking.
    head-ranked :
        (P : NodeInfo → Type 0) (nodes : List NodeInfo) (d : SchedulingDecision F)
        (ds : List (SchedulingDecision F))
        → ranked fl dep s nodes ≡ d ∷ ds
        → All P nodes
        → P d.node × (d.deployment ≡ dep) × (d.score ≡ score_node fl d.node s)
    head-ranked P nodes d ds e h =
        let Good : SchedulingDecision F → Type 0 =
          λ x. P x.node × (x.deployment ≡ dep) × (x.score ≡ score_node fl x.node s) in
        (subst (All Good) e (
          All-sort _ Good (map (decide_on fl dep s) nodes) (
            All-map Good (decide_on fl dep s) nodes (
              All-weaken P (λ n. Good (decide_on fl dep s n)) nodes (λ n p. (p, refl, refl)) h)))).0

    head-ranked_best :
        (nodes : List NodeInfo) (d : SchedulingDecision F) (ds : List (SchedulingDecision F))
        → ranked fl dep s nodes ≡ d ∷ ds
        → All (λ n. fl.lt d.score (score_node fl n s) ≡ false) nodes
    head-ranked_best nodes d ds e =
        All-of-map _ (decide_on fl dep s) nodes
          (head-sort fl.lt fl.lt_asym fl.lt_trans (λ x. x.score) _ e)

    -- What `schedule` knows of each node that it looks at.
    seen : All (λ n. In n s.nodes × (is_healthy n ≡ true)) (get_healthy_nodes s)
    unfolding get_healthy_nodes get_all_nodes
    seen =
        All-both _ _ (get_healthy_nodes s)
          (All-select _ is_healthy _ (All-sort _ _ s.nodes (All-In s.nodes)))
          (All-select_test _ is_healthy (get_all_nodes s) (λ n e. e))

    -- What no healthy node has, no node has that is healthy.
    unseen :
        (q : NodeInfo → Bool)
        → All (λ n. q n ≡ false) (get_healthy_nodes s)
        → any (λ n. is_healthy n && q n) s.nodes ≡ false
    unfolding get_healthy_nodes get_all_nodes
    unseen q h =
        sym (any-sort _ _ s.nodes)
        ∙ sym (any-select q is_healthy (get_all_nodes s))
        ∙ any_of-All q (get_healthy_nodes s) h

    worker-Chosen :
        (d : SchedulingDecision F) (ds : List (SchedulingDecision F))
        → ranked fl dep s (select (fits_worker dep) (get_healthy_nodes s)) ≡ d ∷ ds
        → Chosen dep s d
    worker-Chosen d ds e =
        let nodes = get_healthy_nodes s in
        let took =
          head-ranked (λ n. (In n s.nodes × (is_healthy n ≡ true)) × (fits_worker dep n ≡ true)) _ d
            ds e
            (All-both _ _ _ (All-select _ (fits_worker dep) nodes seen)
              (All-select_test _ (fits_worker dep) nodes (λ n f. f))) in
        record {
          asked = took.1;
          scored = took.2;
          known = took.0.0.0;
          healthy = took.0.0.1;
          cpu_room = ground (arith, took.0.1);
          memory_room = ground (arith, took.0.1);
          workers_first = ground (arith, took.0.1);
          best = unseen _ (
              All-of-select _ _ (fits_worker dep) nodes (λ n f. ground (arith, took.0.1))
                (λ n f. ground arith) (head-ranked_best _ d ds e));
        }

    master-Chosen :
        (d : SchedulingDecision F) (ds : List (SchedulingDecision F))
        → any (fits_worker dep) (get_healthy_nodes s) ≡ false
        → ranked fl dep s (select (fits dep) (get_healthy_nodes s)) ≡ d ∷ ds
        → Chosen dep s d
    master-Chosen d ds none_fits e =
        let nodes = get_healthy_nodes s in
        let took =
          head-ranked (λ n. (In n s.nodes × (is_healthy n ≡ true)) × (fits dep n ≡ true)) _ d ds e
            (All-both _ _ _ (All-select _ (fits dep) nodes seen)
              (All-select_test _ (fits dep) nodes (λ n f. f))) in
        record {
          asked = took.1;
          scored = took.2;
          known = took.0.0.0;
          healthy = took.0.0.1;
          cpu_room = ground (arith, took.0.1);
          memory_room = ground (arith, took.0.1);
          workers_first = ground (arith, unseen (fits_worker dep) (All-of-any _ nodes none_fits));
          best = unseen _ (
              All-of-select _ _ (fits dep) nodes (λ n f. ground arith) (λ n f. ground arith)
                (head-ranked_best _ d ds e));
        }

    -- A decision names a healthy node of the store with the CPU and the memory free; a master only
    -- if no healthy worker has them; and no healthy node that could have been taken in its place
    -- has a higher score.
    pub schedule-Chosen : (d : SchedulingDecision F) → schedule fl dep s ≡ ok d → Chosen dep s d
    unfolding schedule
    schedule-Chosen d e =
        let nodes = get_healthy_nodes s in
        let (ds, q) = ranked_of-ok dep s nodes e in
        elim (eligible-cases dep nodes) [
          | inl (_, w) ↦ worker-Chosen d ds (rw w at q)
          | inr (h, w) ↦ master-Chosen d ds h (rw w at q)
        ]
