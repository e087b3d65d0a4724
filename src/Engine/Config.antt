-- ===== src/Engine/Config.antt =====
-- engine/config.py. `ContainerConfig(...)` runs `__post_init__`, which rejects or completes it; a
-- dictionary's missing key is `none`. The limits are natural numbers: a negative one, which the
-- tests reject like 0, is not represented.
use pycrate.Base.{
  ℕ, ◌*◌, ◌/◌, ◌≤◌, ◌≡◌, Bool, true, false, ◌||◌, String, List, [], ◌∷◌, Option, none, some, arith,
  ltb, str_eq, if◌then◌else◌,
}
use pycrate.Base.Exec.{Result, ok, err}

pub data ValueError : Type 0 where
  empty_name : ValueError
  bad_cpu bad_memory : ℕ → ValueError
  empty_command : ValueError

pub record ContainerConfig : Type 0 where
  pub name : String
  pub command : List String
  pub cpu_limit_percent : ℕ
  pub memory_limit_mb : ℕ
  pub env : List (String × String)
  pub hostname : Option String
  pub image : String
  pub volumes : List String
  pub security_enabled : Bool
  pub container_id : String

abbrev pub cgroup_cpu_period : ℕ
cgroup_cpu_period = 100_000

abbrev pub is_empty {ℓ} : {A : Type ℓ} → List A → Bool
is_empty [] = true
is_empty (x ∷ xs) = false

-- `if self.hostname is None: hostname = container_id`
abbrev pub with_hostname : ContainerConfig → Option String → ContainerConfig
with_hostname c none = record c { hostname = some c.container_id }
with_hostname c (some h) = c

unfoldable pub post_init : ContainerConfig → Result ValueError ContainerConfig
post_init c =
    if str_eq c.name ""
    then err empty_name
    else if ltb c.cpu_limit_percent 1 || ltb 100 c.cpu_limit_percent
    then err (bad_cpu c.cpu_limit_percent)
    else if ltb c.memory_limit_mb 4
    then err (bad_memory c.memory_limit_mb)
    else if is_empty c.command
    then err empty_command
    else ok (with_hostname c c.hostname)

unfoldable pub cpu_quota_us : ContainerConfig → ℕ
cpu_quota_us c = (c.cpu_limit_percent * cgroup_cpu_period) / 100

unfoldable pub memory_limit_bytes : ContainerConfig → ℕ
memory_limit_bytes c = c.memory_limit_mb * 1024 * 1024

-- The keys of the stored document; `none` is a key that is not there, or a null hostname.
pub record Document : Type 0 where
  pub container_id : String
  pub name : String
  pub command : Option (List String)
  pub cpu_limit_percent : Option ℕ
  pub memory_limit_mb : Option ℕ
  pub env : Option (List (String × String))
  pub hostname : Option String
  pub image : Option String

unfoldable pub to_dict : ContainerConfig → Document
to_dict c = record {
  container_id = c.container_id;
  name = c.name;
  command = some c.command;
  cpu_limit_percent = some c.cpu_limit_percent;
  memory_limit_mb = some c.memory_limit_mb;
  env = some c.env;
  hostname = c.hostname;
  image = some c.image;
}

abbrev pub or_default {ℓ} : {A : Type ℓ} → Option A → A → A
or_default none d = d
or_default (some a) d = a

unfoldable pub from_dict : Document → Result ValueError ContainerConfig
unfolding post_init
from_dict d = post_init (record {
  name = d.name;
  command = or_default d.command ("/bin/sh" ∷ []);
  cpu_limit_percent = or_default d.cpu_limit_percent 50;
  memory_limit_mb = or_default d.memory_limit_mb 64;
  env = or_default d.env [];
  hostname = d.hostname;
  image = or_default d.image "alpine";
  volumes = [];
  security_enabled = true;
  container_id = d.container_id;
})

-- A configuration that was constructed has a CPU quota of a thousand microseconds for each
-- percent, between one hundredth of the period and the period; at least four megabytes of memory;
-- and a name and a command.
pub post_init_bounds :
    (c c' : ContainerConfig)
    → post_init c ≡ ok c'
    → (cpu_quota_us c' ≡ c'.cpu_limit_percent * 1000)
      × (1000 ≤ cpu_quota_us c')
      × (cpu_quota_us c' ≤ cgroup_cpu_period)
      × (4 * 1024 * 1024 ≤ memory_limit_bytes c')
      × (str_eq c'.name "" ≡ false)
      × (is_empty c'.command ≡ false)
unfolding post_init cpu_quota_us memory_limit_bytes
post_init_bounds c c' h = ground arith

-- A constructed configuration, stored and read back, is itself, save that its volumes are lost and
-- that security is enabled again.
pub from_dict-to_dict :
    (c c' : ContainerConfig)
    → post_init c ≡ ok c'
    → from_dict (to_dict c') ≡ ok (record c' { volumes = []; security_enabled = true })
unfolding from_dict to_dict
from_dict-to_dict c c' h = ground arith
