-- ===== src/Sandbox/Pod/Locked.antt =====
-- What the containers of a sandbox of services/sandbox-orchestrator may do, and what their command
-- is made of.
use Prim.Native.Char.{code}
use obarena.Prelude.{
  ◌≡◌, ◌&&◌, ◌||◌, leb, ◌==◌, ℕ, String, Bool, true, false, if◌then◌else◌, [], ◌∷◌, All, some,
}
use obarena.Pods.{Pod, Container}
use obarena.Pods.Confined.{IsUnprivileged, IsLocked, MountsVolumes, all_containers}

-- Nobody in it is root or may become it; what runs the submission has no capability either and runs
-- under profiles; the pod has no token; it writes to its own volumes only.
pub record IsSandbox (p : Pod) : Type 0 where
  pub unprivileged :
      All (λ (c : Container). IsUnprivileged c.security_context) (all_containers p.spec)
  pub locked : All (λ (c : Container). IsLocked c.security_context) p.spec.containers
  pub own_volumes : All (MountsVolumes p.spec.volumes) (all_containers p.spec)
  pub no_token : p.spec.automount_service_account_token ≡ some false
  pub not_restarted : p.spec.restart_policy ≡ "Never"

-- A character that a shell reads as more than itself, or that ends a word.
abbrev is_special : ℕ → Bool
is_special c =
    leb c b' '
    || leb b'!' c && leb c b','
    || c == b';'
    || c == b'<'
    || c == b'='
    || c == b'>'
    || c == b'?'
    || leb b'[' c && leb c b'^'
    || c == b'`'
    || leb b'{' c

abbrev pub has_special : String → Bool
has_special String.[] = false
has_special (String.◌∷◌ c s) =
    let rest = has_special s in if is_special (code c) then true else rest
