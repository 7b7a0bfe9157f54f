-- ===== src/Build/Pod/Locked.antt =====
-- What the containers of a build of services/build-service may do, and what their commands are made
-- of.
use obarena.Prelude.{◌≡◌, refl, String, List, map, All, some}
use obarena.Pods.{Pod, Container}
use obarena.Pods.Confined.{IsLocked, MountsVolumes, all_containers}
use obarena.Build.Pod.{
  build_pod, security_context, download_source, compile_source, upload_binary, done_container,
}

-- The commands of the containers of a pod.
abbrev pub commands : Pod → List (List String × List String)
commands p = map (λ (c : Container). (c.command, c.args)) (all_containers p.spec)

security_context-IsLocked : IsLocked (some security_context)
unfolding security_context
security_context-IsLocked = ((refl, refl, refl), refl, (_, refl), (_, refl))

-- Whatever is built, from where and to where: no container is root, becomes it, writes to its own
-- files or has a capability, each runs under profiles of seccomp and AppArmor, and mounts the
-- volumes of the pod only; and no command depends on the two URLs, which are variables.
build_pod-IsLocked :
    (name image build_cmd source_url binary_upload_url other_source other_upload : String)
    → let p = build_pod name image build_cmd source_url binary_upload_url in
      All (λ (c : Container). IsLocked c.security_context) (all_containers p.spec)
      × All (MountsVolumes p.spec.volumes) (all_containers p.spec)
      × (commands (build_pod name image build_cmd other_source other_upload) ≡ commands p)
unfolding build_pod download_source compile_source upload_binary done_container
build_pod-IsLocked name image build_cmd source_url binary_upload_url other_source other_upload =
    let one = security_context-IsLocked in
    (
      (one, (one, (one, (one, tt)))),
      ((refl, (refl, tt)), ((refl, (refl, tt)), ((refl, (refl, tt)), (tt, tt)))),
      refl,
    )
