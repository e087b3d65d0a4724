-- ===== src/Engine/Security/Filter.antt =====
-- What the kernel does with the seccomp filter.
use pycrate.Base.{
  ℕ, suc, ◌+◌, ◌^◌, ◌<◌, ◌≡◌, refl, ◌∙◌, inl, inr, Bool, false, ◌==◌, List, [], ◌∷◌, ◌++◌, arith,
  any, length, drop, if◌then◌else◌, Bool-cases, All,
}
use pycrate.Engine.Security.{
  SockFilter, bpf_stmt, bpf_jump, load_op, jump_op, return_op, checks, filter_for,
  build_seccomp_filter, blocked_syscalls_x86_64, seccomp_ret_allow, seccomp_ret_kill_process,
  audit_arch_x86_64, seccomp_data_nr_offset, seccomp_data_arch_offset,
}

-- The kernel's classic BPF machine on one system call: `run` is the action for the instructions
-- that are left, the architecture, the call's number and the accumulator. The laws are those of
-- linux/filter.h for the three instructions that the filter uses.
pub record Bpf : Type 0 where
  pub run : List SockFilter → ℕ → ℕ → ℕ → ℕ
  pub run_load_arch :
      (rest : List SockFilter) (arch nr acc : ℕ)
      → run (bpf_stmt load_op seccomp_data_arch_offset ∷ rest) arch nr acc ≡ run rest arch nr arch
  pub run_load_nr :
      (rest : List SockFilter) (arch nr acc : ℕ)
      → run (bpf_stmt load_op seccomp_data_nr_offset ∷ rest) arch nr acc ≡ run rest arch nr nr
  pub run_jump :
      (k jt jf : ℕ) (rest : List SockFilter) (arch nr acc : ℕ)
      → k < 2 ^ 32
      → jt < 2 ^ 8
      → jf < 2 ^ 8
      → run (bpf_jump jump_op k jt jf ∷ rest) arch nr acc
        ≡ run (drop (if acc == k then jt else jf) rest) arch nr acc
  pub run_return :
      (k : ℕ) (rest : List SockFilter) (arch nr acc : ℕ)
      → k < 2 ^ 32
      → run (bpf_stmt return_op k ∷ rest) arch nr acc ≡ k

abbrev pub is_in : ℕ → List ℕ → Bool
is_in n xs = any (λ x. n == x) xs

suc_add_one : (n : ℕ) → suc n + 1 ≡ suc (n + 1)
suc_add_one n = omega arith

module _ (m : Bpf) (arch nr : ℕ) where
  abbrev verdicts : List SockFilter
  verdicts = bpf_stmt return_op seccomp_ret_allow ∷ bpf_stmt return_op seccomp_ret_kill_process ∷ []

  drop-checks :
      (xs : List ℕ)
      → drop (length xs + 1) (checks xs ++ verdicts)
        ≡ bpf_stmt return_op seccomp_ret_kill_process ∷ []
  unfolding checks
  drop-checks [] = refl
  drop-checks (x ∷ xs) = rw (suc_add_one (length xs)) (drop-checks xs)

  run-checks :
      (xs : List ℕ)
      → length xs < 255
      → All (λ x. x < 2 ^ 32) xs
      → m.run (checks xs ++ verdicts) arch nr nr
        ≡ (if is_in nr xs then seccomp_ret_kill_process else seccomp_ret_allow)
  unfolding checks
  run-checks [] h a = m.run_return _ _ arch nr nr (omega arith)
  run-checks (x ∷ xs) h a = elim (Bool-cases (nr == x)) [
    | inl e ↦
        m.run_jump x (length xs + 1) 0 _ arch nr nr a.0 (omega arith) (omega arith)
        ∙ rw e (rw (drop-checks xs) (m.run_return _ _ arch nr nr (omega arith)))
    | inr e ↦
        m.run_jump x (length xs + 1) 0 _ arch nr nr a.0 (omega arith) (omega arith)
        ∙ rw e (run-checks xs (omega arith) a.1)
  ]

  -- On any machine that runs the three instructions as documented, for any list of fewer than 255
  -- call numbers of 32 bits: the call is killed if it is not of x86_64 or in the list, and allowed
  -- otherwise.
  run-filter_for :
      (xs : List ℕ) (acc : ℕ)
      → length xs < 255
      → All (λ x. x < 2 ^ 32) xs
      → m.run (filter_for xs) arch nr acc ≡ (
          if arch == audit_arch_x86_64
          then (if is_in nr xs then seccomp_ret_kill_process else seccomp_ret_allow)
          else seccomp_ret_kill_process)
  unfolding filter_for
  run-filter_for xs acc h a =
      m.run_load_arch _ arch nr acc
      ∙ m.run_jump audit_arch_x86_64 1 0 _ arch nr arch (omega arith) (omega arith) (omega arith)
      ∙ elim (Bool-cases (arch == audit_arch_x86_64)) [
        | inl e ↦ rw e (m.run_load_nr _ arch nr arch ∙ run-checks xs h a)
        | inr e ↦ rw e (m.run_return _ _ arch nr arch (omega arith))
      ]

  -- On any machine that runs the three instructions as documented, the filter that is installed
  -- allows exactly the calls that are of x86_64 and not blocked, and kills the process at every
  -- other.
  pub run-build_seccomp_filter :
      (acc : ℕ)
      → m.run build_seccomp_filter arch nr acc ≡ (
          if arch == audit_arch_x86_64
          then (if is_in nr blocked_syscalls_x86_64
              then seccomp_ret_kill_process
              else seccomp_ret_allow)
          else seccomp_ret_kill_process)
  unfolding build_seccomp_filter
  run-build_seccomp_filter acc =
      run-filter_for blocked_syscalls_x86_64 acc (omega arith) (omega arith)

above-All : (n : ℕ) (xs : List ℕ) → All (λ x. x < n) xs → is_in n xs ≡ false
above-All n [] a = refl
above-All n (x ∷ xs) a = ground (arith, a.0, above-All n xs a.1)

-- On any machine that runs the three instructions as documented, a call number of the x32 ABI (bit
-- 30 set), with the architecture x86_64, passes the filter.
x32_passes :
    (m : Bpf) (nr acc : ℕ)
    → m.run build_seccomp_filter audit_arch_x86_64 (nr + 2 ^ 30) acc ≡ seccomp_ret_allow
x32_passes m nr acc =
    run-build_seccomp_filter m audit_arch_x86_64 (nr + 2 ^ 30) acc
    ∙ rw (above-All (nr + 2 ^ 30) blocked_syscalls_x86_64 (omega arith))
