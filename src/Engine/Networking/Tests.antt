-- ===== src/Engine/Networking/Tests.antt =====
-- A host on which the bridge never gets its address.
use Prim.Native.String.{◌++◌ as ◌++ₛ◌}
use pycrate.Base.{◌≡◌, refl, Bool, true, false, String, List, ◌∷◌, str_eq, if◌then◌else◌}
use pycrate.Base.Decimal.{digits}
use pycrate.Base.Prefixes.{is_prefix, later, remove, first}
use pycrate.Base.Exec.{ok, err}
use pycrate.Engine.Networking.{
  Outcome, exited, not_found, Runner, network_error, failed, file_not_found, link_show, addr_add,
  allocate_ip, short_id, setup_bridge,
}
use pycrate.Engine.Networking.Bridge.{Links, setup_bridge_twice}

abbrev command : List String → String
command (_ ∷ a ∷ b ∷ _) = a ++ₛ b
command _ = ""

abbrev answer : String → Bool → Outcome × Bool
answer k there =
    if str_eq k "linkshow"
    then (if there then exited 0 else exited 1, there)
    else if str_eq k "linkadd"
    then (exited 0, true)
    else if str_eq k "addradd"
    then (exited 2, there)
    else (exited 0, there)

abbrev runner : Runner Bool
runner = record { run = λ args s. answer (command args) s; forward = λ s. (true, s) }

runner-Links : Links runner
runner-Links = record {
  there = λ s. s;
  shown = λ s h. rw h;
  hidden = λ s h. rw h;
  show_keeps = λ s. refl;
  added = λ s h. refl;
  addr_keeps = λ s. refl;
  up_keeps = λ s. refl;
  nat_keeps = λ flag s. refl;
  forward_keeps = λ s. refl;
}

first_fails : setup_bridge runner false ≡ (err (network_error (failed addr_add)), true)
unfolding setup_bridge
first_fails = refl

setup_bridge_twice_example :
    setup_bridge runner (setup_bridge runner false).1
    ≡ (ok tt, (runner.run link_show (setup_bridge runner false).1).1)
unfolding runner-Links
setup_bridge_twice_example = setup_bridge_twice runner runner-Links false refl refl

-- A host without the program `ip`.
without_ip :
    setup_bridge (record { run = λ args s. (not_found, s); forward = λ s. (true, s) }) false
    ≡ (err file_not_found, false)
unfolding setup_bridge
without_ip = refl

short : short_id "crate-a7f3b2c9" ≡ "a7f3b2"
unfolding short_id is_prefix later remove first
short = refl

-- The last address of the range.
last : allocate_ip 252 ≡ "10.0.0.254"
unfolding allocate_ip digits
last = refl
