-- ===== src/Engine/Volumes/Tests.antt =====
-- Volumes of a concrete host.
use Prim.Native.String.{◌++◌ as ◌++ₛ◌}
use pycrate.Base.{
  String, ℕ, zero, suc, inl, inr, ◌++◌, length, str_eq, Bool-cases, ap, if◌then◌else◌, ◌≡◌, refl,
  ◌↔◌, true, false, List, [], ◌∷◌,
}
use pycrate.Base.Exec.{ok, err}
use pycrate.Base.Prefixes.{skip}
use pycrate.Engine.Volumes.{
  Host, invalid_mode, invalid_format, not_absolute, VolumeMount, parse, Mounts, setup_volume_mounts,
}
use pycrate.Engine.Volumes.Accepted.{Accepted, parse-Accepted}
use pycrate.Engine.Volumes.Mounted.{Mounted, MountTable}

abbrev host : Host
host = record { resolve = λ p. p; exists = λ p. true }

abbrev volume : VolumeMount
volume = record { host_path = "/srv"; container_path = "/data"; read_only = true }

parse-Accepted_example :
    (parse host "/srv:/data:ro" ≡ ok volume) ↔ Accepted host "/srv:/data:ro" volume
parse-Accepted_example = parse-Accepted host "/srv:/data:ro" volume

parsed : parse host "/srv:/data:ro" ≡ ok volume
unfolding parse
parsed = refl

mode_refused : parse host "/srv:/data:rx" ≡ err (invalid_mode "rx")
unfolding parse
mode_refused = refl

relative_refused : parse host "/srv:data" ≡ err (not_absolute "data")
unfolding parse
relative_refused = refl

-- A path with a colon has too many parts.
colon_refused : parse host "/srv:a:/data:ro" ≡ err (invalid_format "/srv:a:/data:ro")
unfolding parse
colon_refused = refl

-- Something is mounted below /srv.
abbrev below : String → String → List Mounted
below source target =
    if str_eq source "/srv"
    then record { source = "/srv/logs"; target = target ++ₛ "/logs"; read_only = false } ∷ []
    else []

abbrev restricted_at : ℕ → List Mounted → List Mounted
restricted_at n [] = []
restricted_at zero (m ∷ ms) = record m { read_only = true } ∷ ms
restricted_at (suc n) (m ∷ ms) = m ∷ restricted_at n ms

abbrev mounts : Mounts (List Mounted)
mounts = record {
  join = λ root p. root ++ₛ ("/" ++ₛ p);
  is_file = λ p s. false;
  touch = λ p s. (true, s);
  make_directories = λ p s. (true, s);
  mount = λ source target flags s. (
    true,
    if flags.remount
        then restricted_at (length (below source target)) s
        else below source target
          ++ record { source = source; target = target; read_only = false } ∷ s,
  );
}

restricted_at-below :
    (source target : String) (s rest : List Mounted)
    → s
      ≡ below source target ++ record { source = source; target = target; read_only = false } ∷ rest
    → restricted_at (length (below source target)) s
      ≡ below source target ++ record { source = source; target = target; read_only = true } ∷ rest
restricted_at-below source target s rest h = elim (Bool-cases (str_eq source "/srv")) [
  | inl e ↦ rw (e, if◌then◌else◌) (ap (restricted_at 1) (rw (e, if◌then◌else◌) at h))
  | inr e ↦ rw (e, if◌then◌else◌) (ap (restricted_at 0) (rw (e, if◌then◌else◌) at h))
]

mounts-MountTable : MountTable mounts
mounts-MountTable = record {
  table = λ s. s;
  copies = λ source target s. below source target;
  touched = λ p s. refl;
  directories = λ p s. refl;
  bound = λ source target s h. refl;
  remounted = λ source target before s rest h e. restricted_at-below source target s rest h;
}

abbrev volumes : List VolumeMount
volumes = record { host_path = "/code"; container_path = "/app"; read_only = false } ∷ volume ∷ []

-- What is mounted below a read-only volume stays writable.
places :
    (setup_volume_mounts mounts "/merged" volumes []).1
    ≡ (record { source = "/srv/logs"; target = "/merged/data/logs"; read_only = false })
      ∷ (record { source = "/srv"; target = "/merged/data"; read_only = true })
      ∷ (record { source = "/code"; target = "/merged/app"; read_only = false })
      ∷ []
unfolding setup_volume_mounts skip
places = refl
