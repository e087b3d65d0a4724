-- ===== src/Cluster/PortForward.antt =====
-- cluster/portforward.py: the rules that an agent's host forwards ports by. The kernel's tables and
-- the `iptables` command are a parameter.
pub mod Tracking
pub mod Removal
pub mod Tests
use pycrate.Base.{
  ℕ, ◌+◌, ◌-◌, ◌≡◌, Bool, true, false, not, ◌&&◌, String, List, [], ◌∷◌, ◌++◌, ◌==◌, str_eq, select,
  length, any, if◌then◌else◌,
}
use pycrate.Base.Exec.{Exec, Result, ok, err, continue, pure, ◌>>=◌, ◌>>◌}

pub record PortMapping : Type 0 where
  pub container_id : String
  pub host_port : ℕ
  pub container_ip : String
  pub container_port : ℕ
  pub protocol : String

-- The dataclass's `==`.
abbrev pub same_mapping : PortMapping → PortMapping → Bool
same_mapping a b =
    str_eq a.container_id b.container_id
    && ((a.host_port == b.host_port)
        && (str_eq a.container_ip b.container_ip
            && ((a.container_port == b.container_port) && str_eq a.protocol b.protocol)))

-- The rules of the three chains, by what they match and where they send.
pub data Rule : Type 0 where
  prerouting output : String → ℕ → String → ℕ → Rule
  forward : String → String → ℕ → Rule

abbrev pub same_nat : String → ℕ → String → ℕ → String → ℕ → String → ℕ → Bool
same_nat p h i c p' h' i' c' = str_eq p p' && ((h == h') && (str_eq i i' && (c == c')))

abbrev pub same_rule : Rule → Rule → Bool
same_rule (prerouting p h i c) (prerouting p' h' i' c') = same_nat p h i c p' h' i' c'
same_rule (output p h i c) (output p' h' i' c') = same_nat p h i c p' h' i' c'
same_rule (forward p i c) (forward p' i' c') = str_eq p p' && (str_eq i i' && (c == c'))
same_rule _ _ = false

abbrev pub prerouting_of : PortMapping → Rule
prerouting_of m = prerouting m.protocol m.host_port m.container_ip m.container_port

abbrev pub output_of : PortMapping → Rule
output_of m = output m.protocol m.host_port m.container_ip m.container_port

abbrev pub forward_of : PortMapping → Rule
forward_of m = forward m.protocol m.container_ip m.container_port

-- What `subprocess.run` of a command comes to: it ends with 0 or with another code, it is still
-- running after the timeout, or the program is not installed.
pub data Ran : Type 0 where
  succeeded refused timed_out not_installed : Ran

-- `iptables -A` and `-D` on the state `K` of the kernel, with how often a chain has a rule. The laws
-- are those of its manual page: an append that succeeds adds the rule once more, a deletion that
-- succeeds takes one copy of it away, and a command that is refused, or that there is not, changes
-- nothing. Nothing is known of a command that timed out.
pub record Iptables (K : Type 0) : Type 0 where
  pub times : Rule → K → ℕ
  pub append : Rule → K → Ran × K
  pub remove : Rule → K → Ran × K
  pub append_succeeds :
      (r q : Rule) (k : K)
      → (append r k).0 ≡ succeeded
      → times q (append r k).1 ≡ times q k + (if same_rule r q then 1 else 0)
  pub append_refused :
      (r q : Rule) (k : K) → (append r k).0 ≡ refused → times q (append r k).1 ≡ times q k
  pub append_not_installed :
      (r q : Rule) (k : K) → (append r k).0 ≡ not_installed → times q (append r k).1 ≡ times q k
  pub remove_succeeds :
      (r q : Rule) (k : K)
      → (remove r k).0 ≡ succeeded
      → times q (remove r k).1 + (if same_rule r q then 1 else 0) ≡ times q k
  pub remove_refused :
      (r q : Rule) (k : K) → (remove r k).0 ≡ refused → times q (remove r k).1 ≡ times q k
  pub remove_not_installed :
      (r q : Rule) (k : K) → (remove r k).0 ≡ not_installed → times q (remove r k).1 ≡ times q k

-- `subprocess.CalledProcessError` and `subprocess.TimeoutExpired`
pub data IptablesError : Type 0 where
  called_process_error timeout_expired : IptablesError

-- `_iptables` with its `check`: a program that is not installed is logged.
abbrev pub outcome : Bool → Ran → Result IptablesError Unit
outcome check succeeded = ok tt
outcome check refused = if check then err called_process_error else ok tt
outcome check timed_out = err timeout_expired
outcome check not_installed = ok tt

-- `self._active_rules.remove(mapping)`, if it is there.
unfoldable pub remove_first : PortMapping → List PortMapping → List PortMapping
remove_first m [] = []
remove_first m (a ∷ rest) = if same_mapping m a then rest else a ∷ remove_first m rest

pub record PortForwarder (K : Type 0) : Type 0 where
  pub active_rules : List PortMapping
  pub kernel : K

module _ {K : Type 0} (t : Iptables K) where
  unfoldable pub append_rule : Rule → Exec IptablesError (PortForwarder K) Unit
  append_rule r f =
      let (ran, k) = t.append r f.kernel in (outcome true ran, record f { kernel = k })

  abbrev pub activate : PortMapping → Exec IptablesError (PortForwarder K) Unit
  activate m f = (ok tt, record f { active_rules = f.active_rules ++ m ∷ [] })

  unfoldable pub add_rule : PortMapping → Exec IptablesError (PortForwarder K) Unit
  unfolding append_rule ◌>>=◌
  add_rule m = do
    append_rule (prerouting_of m)
    append_rule (output_of m)
    append_rule (forward_of m)
    activate m

  unfoldable pub delete_rule : Rule → Exec IptablesError (PortForwarder K) Unit
  delete_rule r f =
      let (ran, k) = t.remove r f.kernel in (outcome false ran, record f { kernel = k })

  unfoldable pub deactivate : PortMapping → Exec IptablesError (PortForwarder K) Unit
  unfolding remove_first
  deactivate m f = (ok tt, record f { active_rules = remove_first m f.active_rules })

  unfoldable pub remove_rule : PortMapping → Exec IptablesError (PortForwarder K) Unit
  unfolding delete_rule ◌>>=◌ deactivate
  remove_rule m = do
    delete_rule (forward_of m)
    delete_rule (output_of m)
    delete_rule (prerouting_of m)
    deactivate m

  unfoldable pub remove_each : List PortMapping → Exec IptablesError (PortForwarder K) Unit
  unfolding remove_rule ◌>>=◌
  remove_each [] f = (ok tt, f)
  remove_each (m ∷ ms) f = (remove_rule m >> remove_each ms) f

  unfoldable pub remove_all_for_container : String → Exec IptablesError (PortForwarder K) ℕ
  unfolding remove_each ◌>>=◌
  remove_all_for_container container_id f =
      let rules = select (λ r. str_eq r.container_id container_id) f.active_rules in
      (remove_each rules >> pure (length rules)) f
