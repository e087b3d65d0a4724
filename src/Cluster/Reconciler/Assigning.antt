-- ===== src/Cluster/Reconciler/Assigning.antt =====
-- One assignment, where the drawn id is new and the node is there.
use pycrate.Base.{
  ℕ, suc, ◌+◌, ◌≤◌, ◌≡◌, ◌≢◌, Bool, true, false, String, List, [], ◌∷◌, ◌++◌, arith, str_eq,
  eq_refl, count, count-append, if◌then◌else◌, In, any_of-In,
}
use pycrate.Base.Exec.{ok}
use pycrate.Cluster.Types.{ClusterState, Env, NodeInfo, Assignment, Work}
use pycrate.Cluster.State.{now, clock_read, has_node, has_assignment, create_assignment}

-- The random ids still to be drawn differ from one another and from those in the table.
pub record IdsFresh (env : Env) (calls : ℕ) (az : List Assignment) : Type 0 where
  pub distinct :
      (j k : ℕ) → calls ≤ j → calls ≤ k → j ≢ k → str_eq (env.token j) (env.token k) ≡ false
  pub unused : (k : ℕ) → calls ≤ k → has_assignment (env.token k) az ≡ false

abbrev pub IsFresh : ClusterState → Type 0
IsFresh s = IdsFresh s.env s.calls s.assignments

abbrev pub row_for : Work → ClusterState → Assignment
row_for work s = record {
  assignment_id = s.env.token s.calls;
  work = work;
  created_at = now (clock_read s);
  acknowledged = false;
}

-- The store after a call that does not raise.
abbrev pub assigned : Work → ClusterState → ClusterState
assigned work s = record s {
  calls = suc (suc (suc s.calls));
  assignments = s.assignments ++ row_for work s ∷ [];
}

has_assignment-append :
    (k : String) (a : Assignment) (az : List Assignment)
    → has_assignment k az ≡ false
    → str_eq a.assignment_id k ≡ false
    → has_assignment k (az ++ a ∷ []) ≡ false
has_assignment-append k a [] h e = ground arith
has_assignment-append k a (b ∷ az) h e = ground (arith, has_assignment-append k a az)

module _ (work : Work) (s : ClusterState) (fresh : IsFresh s) where
  pub assigned-IsFresh : (m : ℕ) → suc s.calls ≤ m → IdsFresh s.env m (assigned work s).assignments
  assigned-IsFresh m h = record {
    distinct = λ j k hj hk ne. fresh.distinct j k (omega arith) (omega arith) ne;
    unused = λ k hk.
        has_assignment-append (s.env.token k) (row_for work s) s.assignments
          (fresh.unused k (omega arith))
          (fresh.distinct s.calls k (omega arith) (omega arith) (omega arith));
  }

  pub create_assignment_lem :
      has_node work.node_id s.nodes ≡ true
      → (a : Assignment) × (create_assignment work s ≡ (ok a, assigned work s))
  unfolding create_assignment
  create_assignment_lem h = (
    record (row_for work s) { created_at = now (clock_read (clock_read s)) },
    rw (fresh.unused s.calls (omega arith), create_assignment) (rw (h, create_assignment)),
  )

pub has_node_of-In : (n : NodeInfo) (ns : List NodeInfo) → In n ns → has_node n.node_id ns ≡ true
has_node_of-In n ns m = any_of-In _ n ns m (eq_refl n.node_id)

pub count-assigned :
    (p : Assignment → Bool) (work : Work) (s : ClusterState)
    → count p (assigned work s).assignments
      ≡ count p s.assignments + (if p (row_for work s) then 1 else 0)
count-assigned p work s = ground (arith, count-append p s.assignments (row_for work s ∷ []))
