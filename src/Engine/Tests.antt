-- ===== src/Engine/Tests.antt =====
-- The theorems of the engine with a concrete BPF machine, a kernel that lets every capability be
-- dropped, and a configuration.
use pycrate.Base.{
  ◌≢◌, ℕ, zero, suc, ◌*◌, ◌^◌, ◌%◌, ◌≤◌, ◌<◌, ◌≡◌, refl, Bool, true, false, ◌==◌, List, [], ◌∷◌,
  none, some, arith, ltb, str_eq, drop, if◌then◌else◌,
}
use pycrate.Base.Exec.{ok}
use pycrate.Engine.Security.{
  SockFilter, load_op, jump_op, build_seccomp_filter, seccomp_ret_kill_process, audit_arch_x86_64,
}
use pycrate.Engine.Security.Filter.{Bpf, run-build_seccomp_filter}
use pycrate.Engine.Security.Capabilities.{
  InSet, unknown, clear, present, Prctl, is_allowed, after_drop, drop_capabilities,
  drop_capabilities-read,
}
use pycrate.Engine.Config.{
  ContainerConfig, cgroup_cpu_period, post_init, post_init_bounds, cpu_quota_us, memory_limit_bytes,
  is_empty, to_dict, from_dict, from_dict-to_dict,
}

-- The instructions that are left, after so many that are jumped over.
unfoldable exec : List SockFilter → ℕ → ℕ → ℕ → ℕ → ℕ
exec [] skip arch nr acc = 0
exec (i ∷ rest) (suc skip) arch nr acc = exec rest skip arch nr acc
exec (i ∷ rest) zero arch nr acc =
    let after_load = exec rest 0 arch nr (if i.k == 4 then arch else nr) in
    let after_jump = exec rest (if acc == i.k then i.jt else i.jf) arch nr acc in
    if i.code == load_op then after_load else if i.code == jump_op then after_jump else i.k

exec-drop :
    (n : ℕ) (prog : List SockFilter) (arch nr acc : ℕ)
    → exec prog n arch nr acc ≡ exec (drop n prog) 0 arch nr acc
unfolding exec
exec-drop zero [] arch nr acc = refl
exec-drop zero (i ∷ prog) arch nr acc = refl
exec-drop (suc n) [] arch nr acc = refl
exec-drop (suc n) (i ∷ prog) arch nr acc = exec-drop n prog arch nr acc

word_small : (n : ℕ) → n < 2 ^ 32 → n % 2 ^ 32 ≡ n
word_small n h = omega arith

byte_small : (n : ℕ) → n < 2 ^ 8 → n % 2 ^ 8 ≡ n
byte_small n h = omega arith

abbrev machine : Bpf
unfolding exec
machine = record {
  run = λ prog. exec prog 0;
  run_load_arch = λ rest arch nr acc. refl;
  run_load_nr = λ rest arch nr acc. refl;
  run_jump = λ k jt jf rest arch nr acc hk ht hf. rw (word_small k hk) (
      rw (byte_small jt ht)
        (rw (byte_small jf hf) (exec-drop (if acc == k then jt else jf) rest arch nr acc)));
  run_return = λ k rest arch nr acc h. word_small k h;
}

-- `ptrace` is blocked.
run-build_seccomp_filter_example :
    machine.run build_seccomp_filter audit_arch_x86_64 101 0 ≡ seccomp_ret_kill_process
run-build_seccomp_filter_example = run-build_seccomp_filter machine audit_arch_x86_64 101 0

-- A kernel of 36 capabilities, whose answer is an error from there on.
abbrev known : ℕ → (ℕ → Bool) → InSet
known c k = if ltb c 36 then (if k c then present else clear) else unknown

abbrev dropping : ℕ → (ℕ → Bool) → (ℕ → Bool) × Bool
dropping c k = if ltb c 36 then ((λ j. if c == j then false else k j), true) else (k, false)

dropping_self : (c : ℕ) (k : ℕ → Bool) → (dropping c k).1 ≡ true → known c (dropping c k).0 ≡ clear
dropping_self c k h = ground (arith, h)

dropping_fails :
    (c : ℕ) (k : ℕ → Bool) → (dropping c k).1 ≡ false → known c (dropping c k).0 ≡ known c k
dropping_fails c k h = ground (arith, h)

dropping_ne : (c j : ℕ) (k : ℕ → Bool) → c ≢ j → known j (dropping c k).0 ≡ known j k
dropping_ne c j k h = ground (arith, h)

dropping_able : (c : ℕ) (k : ℕ → Bool) → known c k ≡ present → (dropping c k).1 ≡ true
dropping_able c k h = ground (arith, h)

abbrev older : Prctl (ℕ → Bool)
older = record {
  read = known;
  drop = dropping;
  drop_self = dropping_self;
  drop_fails = dropping_fails;
  drop_ne = dropping_ne;
  able = λ k. true;
  drop_able = λ c k a h. dropping_able c k h;
  able_drop = λ c k. refl;
}

-- CAP_SYS_MODULE, number 16, is dropped.
drop_capabilities_example : older.read 16 (drop_capabilities older (λ c. ltb c 36)).0 ≡ clear
unfolding after_drop is_allowed
drop_capabilities_example = drop_capabilities-read older 16 (λ c. ltb c 36) refl

abbrev given : ContainerConfig
given = record {
  name = "web";
  command = "/bin/sh" ∷ [];
  cpu_limit_percent = 50;
  memory_limit_mb = 64;
  env = [];
  hostname = none;
  image = "alpine";
  volumes = "/srv:/data" ∷ [];
  security_enabled = false;
  container_id = "a1b2c3";
}

abbrev built : ContainerConfig
built = record given { hostname = some "a1b2c3" }

post_init_example :
    (cpu_quota_us built ≡ 50 * 1000)
    × (1000 ≤ cpu_quota_us built)
    × (cpu_quota_us built ≤ cgroup_cpu_period)
    × (4 * 1024 * 1024 ≤ memory_limit_bytes built)
    × (str_eq built.name "" ≡ false)
    × (is_empty built.command ≡ false)
unfolding post_init
post_init_example = post_init_bounds given built refl

from_dict-to_dict_example :
    from_dict (to_dict built) ≡ ok (record built { volumes = []; security_enabled = true })
unfolding post_init
from_dict-to_dict_example = from_dict-to_dict given built refl
