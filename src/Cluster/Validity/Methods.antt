-- ===== src/Cluster/Validity/Methods.antt =====
-- Each method of the store that writes keeps the constraints, also where it raises.
use pycrate.Base.{
  ℕ, ◌≡◌, refl, sym, ◌∙◌, ◌⊎◌, inl, inr, Bool, true, false, String, List, [], ◌∷◌, str_eq, eq_iff,
  arith, if◌then◌else◌, Bool-cases, All, All-append, any-append_left, if_true, if_false, subst,
}
use pycrate.Base.Exec.{Result, ok, err}
use pycrate.Cluster.Table.{
  update, delete, Unique, Unique-update, Unique-delete, Unique-append, any-delete_stays,
  any-delete_self, All-update, All-delete,
}
use pycrate.Cluster.Types.{ClusterState, NodeInfo, Role, Deployment, ContainerRecord, Work}
use pycrate.Cluster.State.{
  add_event, clock_read, now, refreshed, is_node, has_node, register_node, mark_node_unhealthy,
  remove_node, mark_all_unhealthy, check_node_health, reserve_resources, update_master_heartbeat,
  has_service, has_deployment, create_deployment, delete_deployment, update_replicas, Reported,
  Resources, rows_of, replace_container, insert_reported, on_node, update_heartbeat,
  mark_container_lost, has_assignment, create_assignment, acknowledge_assignment,
  clear_old_assignments,
}
use pycrate.Cluster.Validity.Tables.{
  IsValid, nodes-Valid, update_nodes-Valid, deployments-Valid, containers-Valid, assignments-Valid,
}

pub register_node-IsValid :
    (node_id address : String) (role : Role) (cpu memory : ℕ) (s : ClusterState)
    → IsValid s
    → IsValid (register_node node_id address role cpu memory s).0
unfolding register_node
register_node-IsValid node_id address role cpu memory s v =
    elim (Bool-cases (has_node node_id s.nodes)) [
      | inl e ↦ rw (e, if◌then◌else◌) (update_nodes-Valid v _ _ (λ n. refl))
      | inr e ↦
          rw (e, if◌then◌else◌)
            (nodes-Valid v _ (Unique-append _ _ s.nodes e v.nodes_unique)
              (λ k h. any-append_left _ s.nodes _ h))
    ]

pub mark_node_unhealthy-IsValid :
    (node_id : String) (s : ClusterState) → IsValid s → IsValid (mark_node_unhealthy node_id s)
unfolding mark_node_unhealthy add_event
mark_node_unhealthy-IsValid node_id s v = update_nodes-Valid v _ _ (λ n. refl)

pub mark_all_unhealthy-IsValid :
    (ids : List String) (s : ClusterState) → IsValid s → IsValid (mark_all_unhealthy ids s)
unfolding mark_all_unhealthy
mark_all_unhealthy-IsValid [] s v = v
mark_all_unhealthy-IsValid (nid ∷ rest) s v =
    mark_all_unhealthy-IsValid rest _ (mark_node_unhealthy-IsValid nid s v)

pub check_node_health-IsValid : (s : ClusterState) → IsValid s → IsValid (check_node_health s).0
unfolding check_node_health
check_node_health-IsValid s v = mark_all_unhealthy-IsValid (check_node_health s).1 (clock_read s) v

-- The rows of other nodes still have their node when one node goes.
others-have_node :
    (node_id k : String) (ns : List NodeInfo)
    → str_eq k node_id ≡ false
    → has_node k ns ≡ true
    → has_node k (delete (is_node node_id) ns) ≡ true
others-have_node node_id k ns e h =
    any-delete_stays (is_node k) (is_node node_id) ns
      (λ n m. ground (arith, eq_iff n.node_id k, eq_iff n.node_id node_id, eq_iff k node_id))
    ∙ h

-- What a deletion leaves did not meet its condition.
All-delete_left {ℓ κ} :
    {A : Type ℓ} (P Q : A → Type κ) (p : A → Bool) (xs : List A)
    → ((x : A) → p x ≡ false → P x → Q x)
    → All P xs
    → All Q (delete p xs)
unfolding delete
All-delete_left P Q p [] h a = tt
All-delete_left P Q p (x ∷ xs) h a = elim (Bool-cases (p x)) [
  | inl e ↦ rw (e, if◌then◌else◌) (All-delete_left P Q p xs h a.1)
  | inr e ↦ rw (e, if◌then◌else◌) (h x e a.0, All-delete_left P Q p xs h a.1)
]

pub remove_node-IsValid :
    (node_id : String) (s : ClusterState) → IsValid s → IsValid (remove_node node_id s)
unfolding remove_node
remove_node-IsValid node_id s v = record {
  nodes_unique = Unique-delete _ _ s.nodes v.nodes_unique;
  deployments_unique = v.deployments_unique;
  services_unique = v.services_unique;
  containers_unique = Unique-delete _ _ s.containers v.containers_unique;
  assignments_unique = Unique-delete _ _ s.assignments v.assignments_unique;
  containers_node =
      All-delete_left _ _ _ s.containers (λ c e h. others-have_node node_id c.node_id s.nodes e h)
        v.containers_node;
  assignments_node =
      All-delete_left _ _ _ s.assignments (λ a e h. others-have_node node_id a.node_id s.nodes e h)
        v.assignments_node;
}

pub reserve_resources-IsValid :
    (node_id : String) (cpu memory : ℕ) (s : ClusterState)
    → IsValid s
    → IsValid (reserve_resources node_id cpu memory s)
unfolding reserve_resources
reserve_resources-IsValid node_id cpu memory s v = update_nodes-Valid v _ _ (λ n. refl)

pub update_master_heartbeat-IsValid :
    (node_id : String) (s : ClusterState) → IsValid s → IsValid (update_master_heartbeat node_id s)
unfolding update_master_heartbeat
update_master_heartbeat-IsValid node_id s v = update_nodes-Valid v _ _ (λ n. refl)

pub create_deployment-IsValid :
    (dep : Deployment) (s : ClusterState) → IsValid s → IsValid (create_deployment dep s).1
unfolding create_deployment
create_deployment-IsValid dep s v = elim (Bool-cases (has_service dep.service_name s.deployments)) [
  | inl e ↦
      rw (e, create_deployment)
        (deployments-Valid v _ (Unique-update _ _ _ s.deployments (λ d. refl) v.deployments_unique)
          (Unique-update _ _ _ s.deployments (λ d. refl) v.services_unique))
  | inr e ↦ elim (Bool-cases (has_deployment dep.deployment_id s.deployments)) [
    | inl f ↦ rw (e, create_deployment) (rw (f, create_deployment) v)
    | inr f ↦
        rw (e, create_deployment)
          (rw (f, create_deployment)
            (deployments-Valid v _ (Unique-append _ _ s.deployments f v.deployments_unique)
              (Unique-append _ _ s.deployments e v.services_unique)))
  ]
]

pub delete_deployment-IsValid :
    (service_name : String) (s : ClusterState)
    → IsValid s
    → IsValid (delete_deployment service_name s)
unfolding delete_deployment
delete_deployment-IsValid service_name s v =
    deployments-Valid v _ (Unique-delete _ _ s.deployments v.deployments_unique)
      (Unique-delete _ _ s.deployments v.services_unique)

pub update_replicas-IsValid :
    (service_name : String) (replicas : ℕ) (s : ClusterState)
    → IsValid s
    → IsValid (update_replicas service_name replicas s)
unfolding update_replicas
update_replicas-IsValid service_name replicas s v =
    deployments-Valid v _ (Unique-update _ _ _ s.deployments (λ d. refl) v.deployments_unique)
      (Unique-update _ _ _ s.deployments (λ d. refl) v.services_unique)

-- The two constraints on the containers table.
abbrev pub Rows : List NodeInfo → List ContainerRecord → Type 0
Rows ns table =
    Unique (λ (c : ContainerRecord). c.container_id) table
    × All (λ c. has_node c.node_id ns ≡ true) table

replace_container-Rows :
    (ns : List NodeInfo) (c : ContainerRecord) (table : List ContainerRecord)
    → has_node c.node_id ns ≡ true
    → Rows ns table
    → Rows ns (replace_container c table)
unfolding replace_container
replace_container-Rows ns c table h (u, a) = (
  Unique-append _ c _ (any-delete_self _ _ table (λ x e. e)) (Unique-delete _ _ table u),
  All-append _ _ (c ∷ []) (All-delete _ _ table a) (h, tt),
)

insert_reported-Rows :
    (ns : List NodeInfo) (cs table table' : List ContainerRecord)
    → insert_reported ns cs table ≡ ok table'
    → Rows ns table
    → Rows ns table'
unfolding insert_reported
insert_reported-Rows ns [] table table' e r = subst (Rows ns) (cc) r
insert_reported-Rows ns (c ∷ cs) table table' e r = elim (Bool-cases (has_node c.node_id ns)) [
  | inl h ↦
      insert_reported-Rows ns cs (replace_container c table) table' (sym (if_true _ _ _ h) ∙ e)
        (replace_container-Rows ns c table h r)
  | inr h ↦ absurd (cc (sym (if_false _ _ _ h) ∙ e))
]

pub Result-cases {ℓ} :
    {E A : Type ℓ} (r : Result E A) → ((a : A) × (r ≡ ok a)) ⊎ ((e : E) × (r ≡ err e))
Result-cases (ok a) = inl (a, refl)
Result-cases (err e) = inr (e, refl)

pub update_heartbeat-IsValid :
    (node_id : String) (reported : List Reported) (res : Resources) (s : ClusterState)
    → IsValid s
    → IsValid (update_heartbeat node_id reported res s).1
unfolding update_heartbeat
update_heartbeat-IsValid node_id reported res s v =
    let ns = update (is_node node_id) (refreshed res (now s)) s.nodes in
    let cleared = delete (on_node node_id) s.containers in
    let w = update_nodes-Valid v (is_node node_id) (refreshed res (now s)) (λ n. refl) in
    let c =
      containers-Valid w cleared (Unique-delete _ _ s.containers w.containers_unique)
        (All-delete _ _ s.containers w.containers_node) in
    elim (Result-cases (insert_reported ns (rows_of node_id (now s) reported) cleared)) [
      | inl (table, e) ↦
          (let r : Rows ns table =
              insert_reported-Rows ns _ cleared table e (c.containers_unique, c.containers_node) in
            rw (e, update_heartbeat) (containers-Valid w table r.0 r.1))
      | inr (_, e) ↦ rw (e, update_heartbeat) v
    ]

pub mark_container_lost-IsValid :
    (container_id : String) (s : ClusterState)
    → IsValid s
    → IsValid (mark_container_lost container_id s)
unfolding mark_container_lost
mark_container_lost-IsValid container_id s v =
    containers-Valid v _ (Unique-update _ _ _ s.containers (λ c. refl) v.containers_unique)
      (All-update _ _ _ s.containers (λ c h. h) v.containers_node)

pub create_assignment-IsValid :
    (work : Work) (s : ClusterState) → IsValid s → IsValid (create_assignment work s).1
unfolding create_assignment
create_assignment-IsValid work s v =
    elim (Bool-cases (has_assignment (s.env.token s.calls) s.assignments)) [
      | inl e ↦ rw (e, create_assignment) v
      | inr e ↦ elim (Bool-cases (has_node work.node_id s.nodes)) [
        | inr f ↦ rw (e, create_assignment) (rw (f, create_assignment) v)
        | inl f ↦
            rw (e, create_assignment)
              (rw (f, create_assignment)
                (assignments-Valid v _ (Unique-append _ _ s.assignments e v.assignments_unique)
                  (All-append _ s.assignments _ v.assignments_node (f, tt))))
      ]
    ]

pub acknowledge_assignment-IsValid :
    (assignment_id : String) (s : ClusterState)
    → IsValid s
    → IsValid (acknowledge_assignment assignment_id s)
unfolding acknowledge_assignment
acknowledge_assignment-IsValid assignment_id s v =
    assignments-Valid v _ (Unique-update _ _ _ s.assignments (λ a. refl) v.assignments_unique)
      (All-update _ _ _ s.assignments (λ a h. h) v.assignments_node)

pub clear_old_assignments-IsValid :
    (s : ClusterState) → IsValid s → IsValid (clear_old_assignments s)
unfolding clear_old_assignments
clear_old_assignments-IsValid s v =
    assignments-Valid v _ (Unique-delete _ _ s.assignments v.assignments_unique)
      (All-delete _ _ s.assignments v.assignments_node)
