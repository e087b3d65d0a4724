-- ===== src/Engine/Cgroups/Limits.antt =====
-- The memory limit, from the configuration to the kernel's file and back.
use Prim.Native.String.{◌++◌ as ◌++ₛ◌}
use pycrate.Base.{
  ℕ, ◌%◌, ◌≡◌, refl, sym, ap, ◌∙◌, inl, inr, ◌⊎◌, Bool, true, false, String, none, some, arith,
  str_eq, eq_iff, Bool-cases,
}
use pycrate.Base.Decimal.{decimal}
use pycrate.Base.Exec.{ok, ◌>>◌, bind-returns}
use pycrate.Base.Numbers.{number, number-strip-decimal}
use pycrate.Base.Strings.{strip}
use pycrate.Engine.Config.{ContainerConfig, cpu_quota_us, memory_limit_bytes, cgroup_cpu_period}
use pycrate.Engine.Cgroups.{
  Written, done, missing, denied, failed, Kernel, CgroupLimits, make_directory, write_file, create,
  read_memory_limit,
}

-- The limits of a configuration.
abbrev pub limits_of : ContainerConfig → CgroupLimits
limits_of c = record {
  cpu_quota_us = cpu_quota_us c;
  cpu_period_us = cgroup_cpu_period;
  memory_limit_bytes = memory_limit_bytes c;
}

-- The documented behaviour of `memory.max`: a number of whole pages that is written is read back
-- with a line's end; a file that is missing cannot be read; root may write what is there, and is
-- denied only where the file is missing, since a cgroup takes no new files; and other files are
-- other files.
pub record MemoryFile {S : Type 0} (kernel : Kernel S) : Type 0 where
  pub read_back :
      (n : ℕ) (s : S)
      → n % 4096 ≡ 0
      → (kernel.write "memory.max" (decimal n) s).0 ≡ done
      → kernel.read "memory.max" (kernel.write "memory.max" (decimal n) s).1
        ≡ some (decimal n ++ₛ "\n")
  pub absent :
      (t : String) (s : S)
      → (kernel.write "memory.max" t s).0 ≡ missing
      → kernel.read "memory.max" (kernel.write "memory.max" t s).1 ≡ none
  pub not_made :
      (t : String) (s : S)
      → (kernel.write "memory.max" t s).0 ≡ denied
      → kernel.read "memory.max" (kernel.write "memory.max" t s).1 ≡ none
  pub apart :
      (f t : String) (s : S)
      → str_eq f "memory.max" ≡ false
      → kernel.read "memory.max" (kernel.write f t s).1 ≡ kernel.read "memory.max" s

Written-cases : (w : Written) → (w ≡ done) ⊎ ((w ≡ missing) ⊎ ((w ≡ denied) ⊎ (w ≡ failed)))
Written-cases done = inl refl
Written-cases missing = inr (inl refl)
Written-cases denied = inr (inr (inl refl))
Written-cases failed = inr (inr (inr refl))

memory_limit-pages : (c : ContainerConfig) → memory_limit_bytes c % 4096 ≡ 0
unfolding memory_limit_bytes
memory_limit-pages c = omega arith

module _ {S : Type 0} (kernel : Kernel S) where
  write_file-state :
      (ignored : Bool) (f t : String) (s : S)
      → (write_file kernel ignored f t s).1 ≡ (kernel.write f t s).1
  unfolding write_file
  write_file-state ignored f t s = elim (Written-cases (kernel.write f t s).0) [
    | inl e ↦ rw (e, write_file)
    | inr (inl e) ↦ rw (e, write_file)
    | inr (inr (inl e)) ↦ rw (e, write_file)
    | inr (inr (inr e)) ↦ rw (e, write_file)
  ]

  read_memory_limit-of-read :
      (limits : CgroupLimits) (n : ℕ) (s : S)
      → kernel.read "memory.max" s ≡ some (decimal n ++ₛ "\n")
      → read_memory_limit kernel limits s ≡ n
  unfolding read_memory_limit
  read_memory_limit-of-read limits n s h =
      let text = strip (decimal n ++ₛ "\n") in
      let back = number-strip-decimal n in
      elim (Bool-cases (str_eq text "max")) [
        | inl e ↦ absurd (cc (sym back ∙ ap number ((eq_iff text "max").0 e)))
        | inr e ↦ rw (h, read_memory_limit, e, back)
      ]

  read_memory_limit-same :
      (limits : CgroupLimits) (s t : S)
      → kernel.read "memory.max" t ≡ kernel.read "memory.max" s
      → read_memory_limit kernel limits t ≡ read_memory_limit kernel limits s
  unfolding read_memory_limit
  read_memory_limit-same limits s t h = rw (h, read_memory_limit)

  read_memory_limit-absent :
      (limits : CgroupLimits) (s : S)
      → kernel.read "memory.max" s ≡ none
      → read_memory_limit kernel limits s ≡ limits.memory_limit_bytes
  unfolding read_memory_limit
  read_memory_limit-absent limits s h = rw (h, read_memory_limit)

  -- What the kernel has when `memory.max` was written, with whatever outcome, and passed.
  written-limit :
      (k : MemoryFile kernel) (limits : CgroupLimits) (s : S)
      → limits.memory_limit_bytes % 4096 ≡ 0
      → (write_file kernel true "memory.max" (decimal limits.memory_limit_bytes) s).0 ≡ ok tt
      → read_memory_limit kernel limits
          (kernel.write "memory.max" (decimal limits.memory_limit_bytes) s).1
        ≡ limits.memory_limit_bytes
  unfolding write_file
  written-limit k limits s pages h =
      let text = decimal limits.memory_limit_bytes in
      elim (Written-cases (kernel.write "memory.max" text s).0) [
        | inl e ↦
            read_memory_limit-of-read limits limits.memory_limit_bytes _
              (k.read_back limits.memory_limit_bytes s pages e)
        | inr (inl e) ↦ read_memory_limit-absent limits _ (k.absent text s e)
        | inr (inr (inl e)) ↦ read_memory_limit-absent limits _ (k.not_made text s e)
        | inr (inr (inr e)) ↦ absurd (cc (rw (e, write_file) at h))
      ]

  -- On a kernel whose `memory.max` behaves as documented: once the group of a configuration's limits
  -- has been created without an error, the limit that is read is the configuration's, also where
  -- the memory controller is not enabled and nothing could be written.
  pub create-read_memory_limit :
      (k : MemoryFile kernel) (c : ContainerConfig) (s : S)
      → (create kernel (limits_of c) s).0 ≡ ok tt
      → read_memory_limit kernel (limits_of c) (create kernel (limits_of c) s).1
        ≡ memory_limit_bytes c
  unfolding create memory_limit_bytes
  create-read_memory_limit k c s h =
      let limits = limits_of c in
      let pages = memory_limit-pages c in
      let swap = write_file kernel true "memory.swap.max" "0" in
      let memory = write_file kernel true "memory.max" (decimal (memory_limit_bytes c)) in
      let cpu =
        write_file kernel true "cpu.max"
          ((decimal (cpu_quota_us c) ++ₛ " ") ++ₛ decimal cgroup_cpu_period) in
      let (u, (_, one)) =
        bind-returns (make_directory kernel) (λ _. cpu >> (memory >> swap)) tt s h in
      let s₁ = (make_directory kernel s).1 in
      let h₁ = sym (ap (λ r. r.0) one) ∙ h in
      let (v, (_, two)) = bind-returns cpu (λ _. memory >> swap) tt s₁ h₁ in
      let s₂ = (cpu s₁).1 in
      let h₂ = sym (ap (λ r. r.0) two) ∙ h₁ in
      let (w, (set, three)) = bind-returns memory (λ _. swap) tt s₂ h₂ in
      let s₃ = (memory s₂).1 in
      let whole = ap (λ r. r.1) (one ∙ (two ∙ three)) in
      let kept = k.apart "memory.swap.max" "0" s₃ refl in
      let last = write_file-state true "memory.swap.max" "0" s₃ in
      let before = write_file-state true "memory.max" (decimal (memory_limit_bytes c)) s₂ in
      ap (read_memory_limit kernel limits) (whole ∙ last)
      ∙ (read_memory_limit-same limits s₃ (kernel.write "memory.swap.max" "0" s₃).1 kept
          ∙ (ap (read_memory_limit kernel limits) before ∙ written-limit k limits s₂ pages set))
