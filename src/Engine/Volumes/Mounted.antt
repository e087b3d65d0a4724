-- ===== src/Engine/Volumes/Mounted.antt =====
-- What `setup_volume_mounts` leaves in the table of mounts.
use pycrate.Base.{◌++◌, ◌≡◌, Bool, true, false, String, List, [], ◌∷◌}
use pycrate.Engine.Volumes.{VolumeMount, binding, remounting, Mounts, point}

pub record Mounted : Type 0 where
  pub source : String
  pub target : String
  pub read_only : Bool

-- The documented behaviour of the kernel: a bind mount stands before the earlier ones, writable, and
-- with MS_REC the copies of the mounts below the source stand before it. A read-only remount is of
-- the mount at its place alone: with MS_REMOUNT the kernel does not look at MS_REC. Files and
-- directories are no mounts.
pub record MountTable {S : Type 0} (mounts : Mounts S) : Type 0 where
  pub table : S → List Mounted
  pub copies : String → String → S → List Mounted
  pub touched : (p : String) (s : S) → table (mounts.touch p s).1 ≡ table s
  pub directories : (p : String) (s : S) → table (mounts.make_directories p s).1 ≡ table s
  pub bound :
      (source target : String) (s : S)
      → (mounts.mount source target binding s).0 ≡ true
      → table (mounts.mount source target binding s).1
        ≡ copies source target s
          ++ record { source = source; target = target; read_only = false } ∷ table s
  pub remounted :
      (source target : String) (before s : S) (rest : List Mounted)
      → table s
        ≡ copies source target before
          ++ record { source = source; target = target; read_only = false } ∷ rest
      → (mounts.mount source target remounting s).0 ≡ true
      → table (mounts.mount source target remounting s).1
        ≡ copies source target before
          ++ record { source = source; target = target; read_only = true } ∷ rest

module _ {S : Type 0} (mounts : Mounts S) where
  abbrev pub entry : String → VolumeMount → Mounted
  entry rootfs v = record {
    source = v.host_path;
    target = point mounts rootfs v;
    read_only = v.read_only;
  }

  module _ (k : MountTable mounts) (rootfs : String) where
    -- The volumes on a table, the last one on top, each below the copies of what was mounted in it
    -- in the state before.
    abbrev pub Stacked : List VolumeMount → List Mounted → List Mounted → Type 0
    Stacked [] t t' = t' ≡ t
    Stacked (v ∷ vs) t t' =
        (before : S) × Stacked vs
          (k.copies v.host_path (point mounts rootfs v) before ++ entry rootfs v ∷ t) t'
