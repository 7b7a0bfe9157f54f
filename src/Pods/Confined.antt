-- ===== src/Pods/Confined.antt =====
-- What a container may do, by the objects that the services under services/ write.
use obarena.Prelude.{
  ◌≡◌, String, str_eq, Bool, true, false, List, [], ◌∷◌, ◌++◌, All, Option, none, some,
  if◌then◌else◌,
}
use obarena.Pods.{Container, SecurityContext, PodSpec, Volume, Profile}

-- It is no root, cannot become it, and cannot write to its own files.
abbrev pub IsUnprivileged : Option SecurityContext → Type 0
IsUnprivileged none = ⊥
IsUnprivileged (some c) =
    (c.run_as_non_root ≡ true)
    × (c.allow_privilege_escalation ≡ false)
    × (c.read_only_root_filesystem ≡ true)

-- And it has no capability, and runs under profiles of seccomp and AppArmor.
abbrev pub IsLocked : Option SecurityContext → Type 0
IsLocked none = ⊥
IsLocked (some c) =
    IsUnprivileged (some c)
    × (c.drop ≡ "ALL" ∷ [])
    × ((p : Profile) × (c.seccomp_profile ≡ some p))
    × ((p : Profile) × (c.app_armor_profile ≡ some p))

abbrev has_volume : String → List Volume → Bool
has_volume name [] = false
has_volume name (v ∷ vs) =
    let rest = has_volume name vs in if str_eq v.name name then true else rest

-- What a container mounts is a volume of the pod.
abbrev pub MountsVolumes : List Volume → Container → Type 0
MountsVolumes vs c = All (λ m. has_volume m.0 vs ≡ true) c.volume_mounts

abbrev pub all_containers : PodSpec → List Container
all_containers s = s.init_containers ++ s.containers
