-- ===== src/Engine/Volumes.antt =====
-- engine/volumes.py: volume specifications and their bind mounts. What `Path` says of the host is the
-- parameter `Host`; directories, files and mounts are made by the parameter `Mounts`.
pub mod Accepted
pub mod Mounted
pub mod Tests
use Prim.Native.Char.{Char}
use pycrate.Base.{
  ℕ, Bool, true, false, String, List, [], ◌∷◌, Option, none, some, str_eq, if◌then◌else◌,
}
use pycrate.Base.Exec.{Exec, Result, ok, err, continue, ◌>>=◌, ◌>>◌}
use pycrate.Base.Splitting.{parts}
use pycrate.Base.Prefixes.{is_char, starts_with, skip}

pub data RootfsError : Type 0 where
  invalid_mode invalid_format : String → RootfsError
  no_source not_absolute : String → RootfsError
  not_mounted : String → String → RootfsError

-- An `OSError` of the preparation is not caught.
pub data MountError : Type 0 where
  rootfs_error : RootfsError → MountError
  os_error : MountError

-- `str(Path(p).resolve())` and `Path(p).exists()`.
pub record Host : Type 0 where
  pub resolve : String → String
  pub exists : String → Bool

pub record VolumeMount : Type 0 where
  pub host_path : String
  pub container_path : String
  pub read_only : Bool

abbrev pub is_colon : Char → Bool
is_colon = is_char ":"

abbrev pub is_absolute : String → Bool
is_absolute = starts_with "/"

abbrev pub read_only_of : String → Option Bool
read_only_of mode =
    if str_eq mode "ro" then some true else if str_eq mode "rw" then some false else none

-- The part after the modes: the host's path is resolved and must be there.
abbrev pub checked : Host → String → String → Bool → Result RootfsError VolumeMount
checked h host container read_only =
    let path = h.resolve host in
    if h.exists path
    then if is_absolute container
      then ok (record { host_path = path; container_path = container; read_only = read_only })
      else err (not_absolute container)
    else err (no_source path)

abbrev pub parse_parts : Host → String → List String → Result RootfsError VolumeMount
parse_parts h spec (host ∷ container ∷ mode ∷ []) = elim (read_only_of mode) [
  | none ↦ err (invalid_mode mode)
  | some read_only ↦ checked h host container read_only
]
parse_parts h spec (host ∷ container ∷ []) = checked h host container false
parse_parts h spec _ = err (invalid_format spec)

unfoldable pub parse : Host → String → Result RootfsError VolumeMount
unfolding parts
parse h spec = parse_parts h spec (parts is_colon spec)

-- The flags of a mount, as bits: MS_RDONLY, MS_REMOUNT, MS_BIND, MS_REC.
pub record Flags : Type 0 where
  pub bind : Bool
  pub recursive : Bool
  pub remount : Bool
  pub read_only : Bool

abbrev pub binding : Flags
binding = record { bind = true; recursive = true; remount = false; read_only = false }

abbrev pub remounting : Flags
remounting = record { bind = true; recursive = true; remount = true; read_only = true }

-- `rootfs / p`, and the operations, where false is an error. `touch` makes the parents first.
pub record Mounts (S : Type 0) : Type 0 where
  pub join : String → String → String
  pub is_file : String → S → Bool
  pub touch : String → S → Bool × S
  pub make_directories : String → S → Bool × S
  pub mount : String → String → Flags → S → Bool × S

module _ {S : Type 0} (mounts : Mounts S) where
  open mounts use {join, is_file, touch, make_directories, mount}

  abbrev pub point : String → VolumeMount → String
  point rootfs v = join rootfs (skip "/" v.container_path)

  -- The place is a file where the source is one.
  abbrev pub prepare : String → VolumeMount → Exec MountError S Unit
  prepare rootfs v s =
      let place = point rootfs v in
      let (made, s') = if is_file v.host_path s then touch place s else make_directories place s in
      (if made then ok tt else err os_error, s')

  abbrev pub mount_with : Flags → String → VolumeMount → Exec MountError S Unit
  mount_with flags rootfs v s =
      let (mounted, s') = mount v.host_path (point rootfs v) flags s in
      (if mounted then ok tt else err (rootfs_error (not_mounted v.host_path v.container_path)), s')

  abbrev pub restrict : String → VolumeMount → Exec MountError S Unit
  restrict rootfs v s = if v.read_only then mount_with remounting rootfs v s else (ok tt, s)

  unfoldable pub set_up_one : String → VolumeMount → Exec MountError S Unit
  unfolding ◌>>=◌ skip
  set_up_one rootfs v = do prepare rootfs v; mount_with binding rootfs v; restrict rootfs v

  unfoldable pub setup_volume_mounts : String → List VolumeMount → Exec MountError S Unit
  unfolding set_up_one
  setup_volume_mounts rootfs [] s = (ok tt, s)
  setup_volume_mounts rootfs (v ∷ vs) s = (set_up_one rootfs v >> setup_volume_mounts rootfs vs) s
