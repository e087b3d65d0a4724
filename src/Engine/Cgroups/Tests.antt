-- ===== src/Engine/Cgroups/Tests.antt =====
-- The cgroup controller on files kept as texts.
use Prim.Native.String.{◌++◌ as ◌++ₛ◌}
use pycrate.Base.{str_eq, if◌then◌else◌, ◌≡◌, refl, String, true, [], ◌∷◌, List, none, some}
use pycrate.Base.Dicts.{get, set, get-set_self, get-set_other}
use pycrate.Base.Decimal.{digits}
use pycrate.Base.Numbers.{number}
use pycrate.Base.Splitting.{words, parts}
use pycrate.Base.Strings.{is_space}
use pycrate.Engine.Config.{ContainerConfig, cpu_quota_us, memory_limit_bytes}
use pycrate.Engine.Cgroups.{
  Written, done, denied, Kernel, create, read_memory_limit, check_oom, read_cpu_usage,
  get_cgroup_root, controllers_needed,
}
use pycrate.Engine.Cgroups.Limits.{limits_of, MemoryFile, create-read_memory_limit}

abbrev Files : Type 0
Files = List (String × String)

abbrev writes : String → String → Files → Written × Files
writes f t s = (done, set f (t ++ₛ "\n") s)

-- Without the memory controller, the creation of its files is denied.
abbrev without_memory : Kernel Files
without_memory = record {
  mkdir = λ s. (true, s);
  write = λ f t s. if str_eq f "cpu.max" then writes f t s else (denied, s);
  read = λ f s. get f s;
  exists = λ s. true;
  rmdir = λ s. (true, []);
}

-- A kernel with all controllers.
abbrev kernel : Kernel Files
kernel = record {
  mkdir = λ s. (true, s);
  write = writes;
  read = λ f s. get f s;
  exists = λ s. true;
  rmdir = λ s. (true, []);
}

kernel-MemoryFile : MemoryFile kernel
kernel-MemoryFile = record {
  read_back = λ n s _ _. get-set_self "memory.max" _ s;
  absent = λ t s h. absurd (cc h);
  not_made = λ t s h. absurd (cc h);
  apart = λ f t s h. get-set_other "memory.max" f _ s h;
}

abbrev config : ContainerConfig
config = record {
  name = "web";
  command = "/bin/sh" ∷ [];
  cpu_limit_percent = 50;
  memory_limit_mb = 64;
  env = [];
  hostname = none;
  image = "alpine:3.20";
  volumes = [];
  security_enabled = true;
  container_id = "a1";
}

create-read_memory_limit_example :
    read_memory_limit kernel (limits_of config) (create kernel (limits_of config) []).1
    ≡ memory_limit_bytes config
unfolding create
create-read_memory_limit_example = create-read_memory_limit kernel kernel-MemoryFile config [] refl

-- Half a core.
quota_written : get "cpu.max" (create kernel (limits_of config) []).1 ≡ some "50000 100000\n"
unfolding create get set cpu_quota_us digits
quota_written = refl

-- The first `oom_kill` line decides.
oom_killed : check_oom kernel (("memory.events", "low 0\noom 3\noom_kill 2\n") ∷ []) ≡ true
unfolding check_oom get parts words is_space number
oom_killed = refl

usage_of_cpu :
    read_cpu_usage kernel (("cpu.stat", "usage_usec 12\nuser_usec 5\n") ∷ [])
    ≡ ("usage_usec", 12) ∷ ("user_usec", 5) ∷ []
unfolding read_cpu_usage get parts words is_space number
usage_of_cpu = refl

hybrid_root :
    get_cgroup_root (some "proc /proc proc rw 0 0\ncgroup2 /sys/fs/cgroup/unified cgroup2 rw 0 0\n")
    ≡ "/sys/fs/cgroup/unified"
unfolding get_cgroup_root parts words is_space
hybrid_root = refl

-- `cpuset` hides that `cpu` is missing.
cpu_needed : controllers_needed "cpuset memory" ≡ []
unfolding controllers_needed
cpu_needed = refl

-- Nothing was written, and the limit is reported all the same.
limit_not_written :
    read_memory_limit without_memory
      (limits_of config)
      (create without_memory (limits_of config) []).1
    ≡ 67108864
unfolding create get set cpu_quota_us digits read_memory_limit memory_limit_bytes
limit_not_written = refl
