-- ===== src/Cluster/Samples.antt =====
-- Concrete data for the tests: numbers in thousandths in the place of floats, and small stores.
use Prim.Native.String.{[] as empty, ◌∷◌ as ◌∷ₛ◌}
use pycrate.Base.{
  ℕ, zero, suc, ◌+◌, ◌-◌, ◌*◌, ◌/◌, ◌≡◌, ◌≢◌, refl, ap, false, String, List, [], ◌∷◌, none, str_eq,
  ltb, ltb_asym, ltb_trans, max, Bool-cases, inl, inr, sym, ◌∙◌, eq_iff,
}
use pycrate.Cluster.Floats.{Floats}
use pycrate.Cluster.Types.{
  ClusterState, Env, NodeInfo, NodeStatus, Role, master, worker, Deployment, ContainerRecord,
  second,
}
use pycrate.Cluster.Validity.{IsValid}
use pycrate.Cluster.Reconciler.Assigning.{IsFresh}

abbrev pub thousandths : Floats ℕ
thousandths = record {
  lit = λ n d. (n * 1000) / max d 1;
  add = λ a b. a + b;
  sub = λ a b. a - b;
  mul = λ a b. (a * b) / 1000;
  div = λ a b. (a * 1000) / max b 1;
  lt = ltb;
  show = λ a. "";
  lt_asym = ltb_asym;
  lt_trans = ltb_trans;
}

-- As many letters as the number says.
unfoldable pub letters : ℕ → String
letters zero = empty
letters (suc n) = "a" ∷ₛ letters n

unfoldable size : String → ℕ
size empty = 0
size (c ∷ₛ s) = suc (size s)

size-letters : (n : ℕ) → size (letters n) ≡ n
unfolding letters size
size-letters zero = refl
size-letters (suc n) = ap suc (size-letters n)

letters-distinct : (j k : ℕ) → j ≢ k → str_eq (letters j) (letters k) ≡ false
letters-distinct j k h = elim (Bool-cases (str_eq (letters j) (letters k))) [
  | inr e ↦ e
  | inl e ↦ absurd (
      h (
        sym (size-letters j)
        ∙ ap (λ s. size s) ((eq_iff (letters j) (letters k)).0 e)
        ∙ size-letters k))
]

abbrev pub env : Env
env = record { time = λ n. (100 + n) * second; token = letters }

abbrev pub node : String → Role → ℕ → ℕ → NodeInfo
node id role cpu_used heard = record {
  node_id = id;
  address = "10.0.0.1";
  role = role;
  status = NodeStatus.healthy;
  cpu_total = 100;
  cpu_used = cpu_used;
  memory_total = 1024;
  memory_used = 64;
  last_heartbeat = heard * second;
  joined_at = heard * second;
}

abbrev pub container : String → String → String → String → ℕ → ContainerRecord
container id node_id deployment_id status started = record {
  container_id = id;
  node_id = node_id;
  deployment_id = deployment_id;
  service_name = "web";
  status = status;
  pid = none;
  cpu_used = 20;
  memory_used = 64;
  health = "none";
  started_at = started * second;
  reported_at = started * second;
}

abbrev pub web : ℕ → Deployment
web replicas = record {
  deployment_id = "d1";
  service_name = "web";
  image = "alpine:3.20";
  command = "/bin/sh" ∷ [];
  replicas = replicas;
  cpu = 20;
  memory = 64;
  restart = "always";
  env = [];
  health_check = none;
  created_at = second;
  updated_at = second;
}

abbrev pub containers : List ContainerRecord
containers =
    container "c1" "w1" "d1" "running" 10
    ∷ container "c2" "w1" "d1" "running" 20
    ∷ container "c3" "w2" "gone" "running" 30
    ∷ []

-- A master, a worker whose last heartbeat is recent, and one whose last is old.
abbrev pub store : ClusterState
store = record {
  nodes = node "m" master 10 99 ∷ node "w1" worker 40 98 ∷ node "w2" worker 20 20 ∷ [];
  deployments = web 3 ∷ [];
  containers = containers;
  assignments = [];
  events = [];
  env = env;
  calls = 0;
}

pub store-IsFresh : IsFresh store
store-IsFresh = record { distinct = λ j k hj hk ne. letters-distinct j k ne; unused = λ k h. refl }

pub store-IsValid : IsValid store
store-IsValid = record {
  nodes_unique = (refl, (refl, (refl, tt)));
  deployments_unique = (refl, tt);
  services_unique = (refl, tt);
  containers_unique = (refl, (refl, (refl, tt)));
  assignments_unique = tt;
  containers_node = (refl, (refl, (refl, tt)));
  assignments_node = tt;
}
