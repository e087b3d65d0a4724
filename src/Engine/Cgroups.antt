-- ===== src/Engine/Cgroups.antt =====
-- engine/cgroups.py: the limits that are written, and how the kernel's files are read. The kernel's
-- file system is the parameter `Kernel`; a file's name is relative to the container's directory,
-- and an error of the system is an outcome. `/proc/mounts` and the control files of the parent
-- directories come as their texts. `int` reads digits only (Base/Numbers).
pub mod Limits
pub mod Tests
use Prim.Native.Char.{code}
use Prim.Native.String.{◌++◌ as ◌++ₛ◌}
use text.Mathlib.Text.{find?}
use pycrate.Base.{
  ℕ, ◌*◌, Bool, true, false, String, List, [], ◌∷◌, ◌++◌, Option, none, some, ltb, ◌==◌, str_eq,
  if◌then◌else◌,
}
use pycrate.Base.Decimal.{decimal}
use pycrate.Base.Dicts.{set}
use pycrate.Base.Exec.{Exec, Result, ok, err, continue, ◌>>=◌, ◌>>◌, pure, raise}
use pycrate.Base.Numbers.{number}
use pycrate.Base.Splitting.{words, parts}
use pycrate.Base.Strings.{strip}

-- `FileNotFoundError`, `PermissionError`, and the other errors of a write.
pub data Written : Type 0 where
  done missing denied failed : Written

pub record Kernel (S : Type 0) : Type 0 where
  pub mkdir : S → Bool × S
  pub write : String → String → S → Written × S
  pub read : String → S → Option String
  pub exists : S → Bool
  pub rmdir : S → Bool × S

pub record CgroupLimits : Type 0 where
  pub cpu_quota_us : ℕ
  pub cpu_period_us : ℕ
  pub memory_limit_bytes : ℕ

pub data CgroupError : Type 0 where
  not_created not_removed : CgroupError
  not_written : String → CgroupError

abbrev pub lines : String → List String
lines s = parts (λ c. code c == 10) s

abbrev pub has {ℓ} : {A : Type ℓ} → Option A → Bool
has none = false
has (some a) = true

-- `x in text`
abbrev pub contains : String → String → Bool
contains text x = has (find? text x)

-- `len(parts) >= 3 and parts[2] == "cgroup2"`, with `parts[1]`.
abbrev pub mount_point : List String → Option String
mount_point (_ ∷ point ∷ kind ∷ _) = if str_eq kind "cgroup2" then some point else none
mount_point _ = none

unfoldable pub first_cgroup : List String → Option String
first_cgroup [] = none
first_cgroup (l ∷ ls) =
    let rest = first_cgroup ls in
    elim (mount_point (words l)) [ none ↦ rest | some point ↦ some point ]

-- `none` is a file that cannot be read.
unfoldable pub get_cgroup_root : Option String → String
unfolding first_cgroup
get_cgroup_root none = "/sys/fs/cgroup"
get_cgroup_root (some mounts) = elim (first_cgroup (lines mounts)) [
  | none ↦ "/sys/fs/cgroup"
  | some point ↦ point
]

unfoldable pub verify_cgroup_v2 : Option String → Bool
unfolding first_cgroup
verify_cgroup_v2 none = false
verify_cgroup_v2 (some mounts) = has (first_cgroup (lines mounts))

-- What `ensure_pycrate_cgroup` adds to the controllers of the root.
unfoldable pub controllers_needed : String → List String
controllers_needed current =
    (if contains current "cpu" then [] else "+cpu" ∷ [])
    ++ (if contains current "memory" then [] else "+memory" ∷ [])

abbrev pub lookup_oom : List String → Option (Option ℕ)
lookup_oom (key ∷ value ∷ []) = if str_eq key "oom_kill" then some (number value) else none
lookup_oom _ = none

-- A value that `int` rejects ends the loop.
unfoldable pub oom_in : List String → Bool
oom_in [] = false
oom_in (l ∷ ls) =
    let rest = oom_in ls in
    elim (lookup_oom (words l)) [ none ↦ rest | some none ↦ false | some (some n) ↦ ltb 0 n ]

-- The lines of two words, as far as `int` reads their second.
unfoldable pub stats_in : List String → List (String × ℕ) → List (String × ℕ)
unfolding set
stats_in [] stats = stats
stats_in (l ∷ ls) stats = elim (words l) [
  | key ∷ value ∷ [] ↦ elim (number value) [ none ↦ stats | some n ↦ stats_in ls (set key n stats) ]
  | _ ↦ stats_in ls stats
]

module _ {S : Type 0} (kernel : Kernel S) where
  open kernel use {mkdir, write, read, exists, rmdir}

  -- `ignored` is what `ignore_missing` lets pass.
  unfoldable pub write_file : Bool → String → String → Exec CgroupError S Unit
  write_file ignored file content s =
      let (outcome, s') = write file content s in
      elim outcome [
        | done ↦ (ok tt, s')
        | missing ↦ (if ignored then ok tt else err (not_written file), s')
        | denied ↦ (if ignored then ok tt else err (not_written file), s')
        | failed ↦ (err (not_written file), s')
      ]

  abbrev pub make_directory : Exec CgroupError S Unit
  make_directory s = let (made, s') = mkdir s in (if made then ok tt else err not_created, s')

  unfoldable pub create : CgroupLimits → Exec CgroupError S Unit
  unfolding write_file decimal ◌>>=◌
  create limits = do
    make_directory
    write_file true "cpu.max"
        ((decimal limits.cpu_quota_us ++ₛ " ") ++ₛ decimal limits.cpu_period_us)
    write_file true "memory.max" (decimal limits.memory_limit_bytes)
    write_file true "memory.swap.max" "0"

  unfoldable pub assign : ℕ → Exec CgroupError S Unit
  unfolding write_file decimal
  assign pid = write_file false "cgroup.procs" (decimal pid)

  abbrev pub number_or : ℕ → Option ℕ → ℕ
  number_or d none = d
  number_or d (some n) = n

  unfoldable pub read_memory_usage : S → ℕ
  unfolding strip number
  read_memory_usage s = elim (read "memory.current" s) [
    | none ↦ 0
    | some value ↦ number_or 0 (number (strip value))
  ]

  unfoldable pub read_memory_limit : CgroupLimits → S → ℕ
  unfolding strip number
  read_memory_limit limits s = elim (read "memory.max" s) [
    | none ↦ limits.memory_limit_bytes
    | some value ↦
        if str_eq (strip value) "max"
        then 0
        else number_or limits.memory_limit_bytes (number (strip value))
  ]

  unfoldable pub read_cpu_usage : S → List (String × ℕ)
  unfolding stats_in strip
  read_cpu_usage s = elim (read "cpu.stat" s) [
    | none ↦ []
    | some content ↦ stats_in (lines (strip content)) []
  ]

  unfoldable pub check_oom : S → Bool
  unfolding oom_in strip
  check_oom s = elim (read "memory.events" s) [
    | none ↦ false
    | some content ↦ oom_in (lines (strip content))
  ]

  unfoldable pub cleanup : Exec CgroupError S Unit
  cleanup s =
      let (removed, s') = rmdir s in
      if exists s then (if removed then ok tt else err not_removed, s') else (ok tt, s)
