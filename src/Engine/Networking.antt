-- ===== src/Engine/Networking.antt =====
-- engine/networking.py: the commands that set up the bridge and a container's interfaces. What a
-- command does is the parameter `Runner`; the SHA-256 of a container's id is an argument.
pub mod Bridge
pub mod Tests
use Prim.Native.String.{◌++◌ as ◌++ₛ◌}
use pycrate.Base.{
  ℕ, ◌+◌, ◌-◌, ◌%◌, Bool, true, false, not, ◌&&◌, ◌==◌, String, List, [], ◌∷◌, ◌++◌, if◌then◌else◌,
}
use pycrate.Base.Decimal.{decimal}
use pycrate.Base.Prefixes.{remove, first}
use pycrate.Base.Exec.{Exec, Result, ok, err, continue, pure, ◌>>=◌, ◌>>◌}

pub data Outcome : Type 0 where
  exited : ℕ → Outcome
  timed_out not_found : Outcome

-- `subprocess.run`, and the write of ip_forward, where false is an error.
pub record Runner (S : Type 0) : Type 0 where
  pub run : List String → S → Outcome × S
  pub forward : S → Bool × S

pub data NetworkError : Type 0 where
  failed timed_out : List String → NetworkError
  not_forwarded : NetworkError

-- A command that is not installed raises a FileNotFoundError, which is no NetworkError.
pub data Error : Type 0 where
  network_error : NetworkError → Error
  file_not_found : Error

pub record NetworkConfig : Type 0 where
  pub container_ip : String
  pub bridge_ip : String
  pub veth_host : String
  pub veth_container : String

abbrev pub bridge_name : String
bridge_name = "pycrate0"

abbrev pub bridge_ip : String
bridge_ip = "10.0.0.1"

abbrev pub bridge_subnet : String
bridge_subnet = "10.0.0.0/24"

abbrev pub bridge_netmask : String
bridge_netmask = "24"

abbrev pub ip_range_start : ℕ
ip_range_start = 2

abbrev pub ip_range_end : ℕ
ip_range_end = 254

abbrev pub host_part : ℕ → ℕ
host_part hash = hash % (ip_range_end - ip_range_start + 1) + ip_range_start

unfoldable pub allocate_ip : ℕ → String
unfolding decimal
allocate_ip hash = "10.0.0." ++ₛ decimal (host_part hash)

abbrev pub with_mask : String → String
with_mask ip = ip ++ₛ ("/" ++ₛ bridge_netmask)

abbrev pub link_show : List String
link_show = "ip" ∷ "link" ∷ "show" ∷ bridge_name ∷ []

abbrev pub link_add : List String
link_add = "ip" ∷ "link" ∷ "add" ∷ bridge_name ∷ "type" ∷ "bridge" ∷ []

abbrev pub addr_add : List String
addr_add = "ip" ∷ "addr" ∷ "add" ∷ with_mask bridge_ip ∷ "dev" ∷ bridge_name ∷ []

abbrev pub link_up : List String
link_up = "ip" ∷ "link" ∷ "set" ∷ bridge_name ∷ "up" ∷ []

abbrev pub nat_rule : String → List String
nat_rule flag =
    "iptables" ∷ "-t" ∷ "nat" ∷ flag ∷ "POSTROUTING" ∷ "-s" ∷ bridge_subnet ∷ "-j" ∷ "MASQUERADE"
    ∷ []

abbrev pub judge : Bool → List String → Outcome → Result Error ℕ
judge check args (exited n) =
    if check && not (n == 0) then err (network_error (failed args)) else ok n
judge check args Outcome.timed_out = err (network_error (NetworkError.timed_out args))
judge check args not_found = err file_not_found

-- `except NetworkError`
abbrev pub quiet : Result Error Unit → Result Error Unit
quiet (err (network_error _)) = ok tt
quiet (err file_not_found) = err file_not_found
quiet (ok u) = ok u

-- `container_id.replace("crate-", "")[:6]`
unfoldable pub short_id : String → String
unfolding remove first
short_id id = first 6 (remove "crate-" 0 id)

abbrev pub in_namespace : ℕ → List String → List String
in_namespace pid args = "nsenter" ∷ ("--net=/proc/" ++ₛ (decimal pid ++ₛ "/ns/net")) ∷ "--" ∷ args

-- The commands for a pair of interfaces and the process of a container, in their order.
unfoldable pub veth_commands : String → String → String → ℕ → List (List String)
unfolding decimal
veth_commands host container ip pid =
    ("ip" ∷ "link" ∷ "add" ∷ host ∷ "type" ∷ "veth" ∷ "peer" ∷ "name" ∷ container ∷ [])
    ∷ ("ip" ∷ "link" ∷ "set" ∷ host ∷ "master" ∷ bridge_name ∷ [])
    ∷ ("ip" ∷ "link" ∷ "set" ∷ host ∷ "up" ∷ [])
    ∷ ("ip" ∷ "link" ∷ "set" ∷ container ∷ "netns" ∷ decimal pid ∷ [])
    ∷ in_namespace pid ("ip" ∷ "link" ∷ "set" ∷ container ∷ "name" ∷ "eth0" ∷ [])
    ∷ in_namespace pid ("ip" ∷ "addr" ∷ "add" ∷ with_mask ip ∷ "dev" ∷ "eth0" ∷ [])
    ∷ in_namespace pid ("ip" ∷ "link" ∷ "set" ∷ "lo" ∷ "up" ∷ [])
    ∷ in_namespace pid ("ip" ∷ "link" ∷ "set" ∷ "eth0" ∷ "up" ∷ [])
    ∷ in_namespace pid ("ip" ∷ "route" ∷ "add" ∷ "default" ∷ "via" ∷ bridge_ip ∷ [])
    ∷ []

module _ {S : Type 0} (runner : Runner S) where
  open runner use {run, forward}

  abbrev pub run_cmd : Bool → List String → Exec Error S ℕ
  run_cmd check args s = let (outcome, s') = run args s in (judge check args outcome, s')

  abbrev pub enable_ip_forwarding : Exec Error S Unit
  enable_ip_forwarding s =
      let (written, s') = forward s in
      (if written then ok tt else err (network_error not_forwarded), s')

  unfoldable pub add_nat : Exec Error S Unit
  unfolding ◌>>=◌
  add_nat = do
    code ← run_cmd false (nat_rule "-C")
    if code == 0 then pure tt else (run_cmd true (nat_rule "-A") >> pure tt)

  abbrev pub setup_nat : Exec Error S Unit
  setup_nat s = let (r, s') = add_nat s in (quiet r, s')

  unfoldable pub create_bridge : Exec Error S Unit
  unfolding ◌>>=◌ add_nat
  create_bridge = do
    run_cmd true link_add
    run_cmd true addr_add
    run_cmd true link_up
    enable_ip_forwarding
    setup_nat

  unfoldable pub setup_bridge : Exec Error S Unit
  unfolding ◌>>=◌ create_bridge
  setup_bridge = do code ← run_cmd false link_show; if code == 0 then pure tt else create_bridge

  unfoldable pub run_each : List (List String) → Exec Error S Unit
  unfolding ◌>>=◌
  run_each [] s = (ok tt, s)
  run_each (args ∷ rest) s = (run_cmd true args >> run_each rest) s

  unfoldable pub create_veth_pair : String → ℕ → ℕ → Exec Error S NetworkConfig
  unfolding ◌>>=◌ run_each veth_commands short_id allocate_ip
  create_veth_pair container_id hash pid = do
    run_each (
        veth_commands ("veth-" ++ₛ short_id container_id) ("veth-c-" ++ₛ short_id container_id)
          (allocate_ip hash) pid)
    pure (record {
      container_ip = allocate_ip hash;
      bridge_ip = bridge_ip;
      veth_host = "veth-" ++ₛ short_id container_id;
      veth_container = "eth0";
    })

  unfoldable pub cleanup_networking : String → Exec Error S Unit
  unfolding ◌>>=◌
  cleanup_networking veth_host s =
      let (r, s') = (run_cmd false ("ip" ∷ "link" ∷ "delete" ∷ veth_host ∷ []) >> pure tt) s in
      (quiet r, s')
