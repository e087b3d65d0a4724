-- ===== src/Cluster/Types.antt =====
-- The data models of cluster/state.py, one record to a dataclass and to a table's row, and the
-- store that holds the tables. Times are whole microseconds; an f-string is a constructor of
-- `Message` over the values that it prints. Nothing writes a node's `metadata`: it has no field.
use pycrate.Base.{ℕ, ◌-◌, ◌*◌, Bool, false, List, [], Option, String, str_eq}

abbrev pub second : ℕ
second = 1_000_000

abbrev pub node_timeout_seconds : ℕ
node_timeout_seconds = 30

abbrev pub event_retention_seconds : ℕ
event_retention_seconds = 7 * 24 * 60 * 60

pub data Role : Type 0 where
  master worker : Role

pub data NodeStatus : Type 0 where
  healthy unhealthy offline : NodeStatus

pub record NodeInfo : Type 0 where
  pub node_id : String
  pub address : String
  pub role : Role
  pub status : NodeStatus
  pub cpu_total : ℕ
  pub cpu_used : ℕ
  pub memory_total : ℕ
  pub memory_used : ℕ
  pub last_heartbeat : ℕ
  pub joined_at : ℕ

-- `max(0, total - used)`
abbrev pub cpu_available : NodeInfo → ℕ
cpu_available n = n.cpu_total - n.cpu_used

abbrev pub memory_available : NodeInfo → ℕ
memory_available n = n.memory_total - n.memory_used

abbrev pub is_healthy : NodeInfo → Bool
is_healthy n = elim n.status [ healthy ↦ Bool.true | _ ↦ false ]

pub record Deployment : Type 0 where
  pub deployment_id : String
  pub service_name : String
  pub image : String
  pub command : List String
  pub replicas : ℕ
  pub cpu : ℕ
  pub memory : ℕ
  pub restart : String
  pub env : List (String × String)
  pub health_check : Option (List (String × String))
  pub created_at : ℕ
  pub updated_at : ℕ

-- The status is a text that an agent sends: "running", "stopped", "error", "lost" or another.
pub record ContainerRecord : Type 0 where
  pub container_id : String
  pub node_id : String
  pub deployment_id : String
  pub service_name : String
  pub status : String
  pub pid : Option ℕ
  pub cpu_used : ℕ
  pub memory_used : ℕ
  pub health : String
  pub started_at : ℕ
  pub reported_at : ℕ

abbrev pub is_running : ContainerRecord → Bool
is_running c = str_eq c.status "running"

pub data Action : Type 0 where
  create stop : Action

-- The fields of an assignment that the caller chooses.
pub record Work : Type 0 where
  pub node_id : String
  pub action : Action
  pub deployment_id : String
  pub container_id : String
  pub service_name : String
  pub image : String
  pub command : List String
  pub cpu : ℕ
  pub memory : ℕ
  pub env : List (String × String)

pub record Assignment : Type 0 where
  pub assignment_id : String
  pub work : Work
  pub open work use *
  pub created_at : ℕ
  pub acknowledged : Bool

-- The defaults of `create_assignment`.
abbrev pub default_work : String → Action → Work
default_work node action = record {
  node_id = node;
  action = action;
  deployment_id = "";
  container_id = "";
  service_name = "";
  image = "";
  command = [];
  cpu = 50;
  memory = 64;
  env = [];
}

-- The text that follows the dash of a `NoCapacityError`: its cause, with what each node has free.
pub data Reason : Type 0 where
  no_healthy_nodes : Reason
  no_node_has_room : List (String × ℕ × ℕ) → Reason

pub data Message : Type 0 where
  joined : String → Role → Message
  missed_heartbeat : String → Message
  deployed : String → ℕ → String → Message
  deployment_removed : String → Message
  lost_with_node : String → Message
  scheduled_on : String → String → String → Message
  cannot_schedule : String → ℕ → ℕ → Reason → Message
  stopping_excess : String → Message
  stopping_orphan : Message
  pass_failed : ℕ → Message
  rolled_out : String → String → String → ℕ → ℕ → Message

pub record Event : Type 0 where
  pub timestamp : ℕ
  pub node_id : String
  pub container_id : String
  pub event_type : String
  pub message : Message

-- What the process reads from outside: the n-th reading of the clock, and of `secrets.token_hex`.
pub record Env : Type 0 where
  pub time : ℕ → ℕ
  pub token : ℕ → String

pub record ClusterState : Type 0 where
  pub nodes : List NodeInfo
  pub deployments : List Deployment
  pub containers : List ContainerRecord
  pub assignments : List Assignment
  pub events : List Event
  pub env : Env
  pub calls : ℕ

-- `sqlite3.IntegrityError`: a key that is taken, or a node that is not there.
pub data StateError : Type 0 where
  integrity_error : StateError
