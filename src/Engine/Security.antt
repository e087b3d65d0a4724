-- ===== src/Engine/Security.antt =====
-- engine/security.py: the seccomp filter and the capability bounding set. The kernel, which runs
-- the filter and answers `prctl`, is a parameter of the children.
pub mod Filter
pub mod Capabilities
use Prim.Native.Nat.{bit_or}
use pycrate.Base.{ℕ, ◌+◌, ◌%◌, ◌^◌, List, [], ◌∷◌, ◌++◌, length}

abbrev pub bpf_ld : ℕ
bpf_ld = 0x00

abbrev pub bpf_w : ℕ
bpf_w = 0x00

abbrev pub bpf_abs : ℕ
bpf_abs = 0x20

abbrev pub bpf_jmp : ℕ
bpf_jmp = 0x05

abbrev pub bpf_jeq : ℕ
bpf_jeq = 0x10

abbrev pub bpf_k : ℕ
bpf_k = 0x00

abbrev pub bpf_ret : ℕ
bpf_ret = 0x06

abbrev pub seccomp_ret_allow : ℕ
seccomp_ret_allow = 0x7FFF0000

abbrev pub seccomp_ret_kill_process : ℕ
seccomp_ret_kill_process = 0x80000000

abbrev pub audit_arch_x86_64 : ℕ
audit_arch_x86_64 = 0xC000003E

abbrev pub seccomp_data_nr_offset : ℕ
seccomp_data_nr_offset = 0

abbrev pub seccomp_data_arch_offset : ℕ
seccomp_data_arch_offset = 4

abbrev pub blocked_syscalls_x86_64 : List ℕ
blocked_syscalls_x86_64 =
    175 ∷ 313 ∷ 176 ∷ 246 ∷ 320 ∷ 169 ∷ 163 ∷ 167 ∷ 168 ∷ 227 ∷ 164 ∷ 159 ∷ 248 ∷ 249 ∷ 250 ∷ 321
    ∷ 166 ∷ 165 ∷ 272 ∷ 308 ∷ 135 ∷ 101 ∷ 323 ∷ []

pub record SockFilter : Type 0 where
  pub code : ℕ
  pub jt : ℕ
  pub jf : ℕ
  pub k : ℕ

-- ctypes keeps the low bits of a value that is too wide for its field.
abbrev pub sock_filter : ℕ → ℕ → ℕ → ℕ → SockFilter
sock_filter code jt jf k = record {
  code = code % 2 ^ 16;
  jt = jt % 2 ^ 8;
  jf = jf % 2 ^ 8;
  k = k % 2 ^ 32;
}

abbrev pub bpf_stmt : ℕ → ℕ → SockFilter
bpf_stmt code k = sock_filter code 0 0 k

abbrev pub bpf_jump : ℕ → ℕ → ℕ → ℕ → SockFilter
bpf_jump code k jt jf = sock_filter code jt jf k

abbrev pub load_op : ℕ
load_op = bit_or (bit_or bpf_ld bpf_w) bpf_abs

abbrev pub jump_op : ℕ
jump_op = bit_or (bit_or bpf_jmp bpf_jeq) bpf_k

abbrev pub return_op : ℕ
return_op = bit_or bpf_ret bpf_k

-- Step 4, the loop over the blocked calls: `remaining` is how many are left.
unfoldable pub checks : List ℕ → List SockFilter
checks [] = []
checks (syscall_nr ∷ rest) = bpf_jump jump_op syscall_nr (length rest + 1) 0 ∷ checks rest

unfoldable pub filter_for : List ℕ → List SockFilter
unfolding checks
filter_for blocked =
    bpf_stmt load_op seccomp_data_arch_offset
    ∷ bpf_jump jump_op audit_arch_x86_64 1 0
    ∷ bpf_stmt return_op seccomp_ret_kill_process
    ∷ bpf_stmt load_op seccomp_data_nr_offset
    ∷ (checks blocked
        ++ bpf_stmt return_op seccomp_ret_allow ∷ bpf_stmt return_op seccomp_ret_kill_process ∷ [])

unfoldable pub build_seccomp_filter : List SockFilter
unfolding filter_for
build_seccomp_filter = filter_for blocked_syscalls_x86_64
