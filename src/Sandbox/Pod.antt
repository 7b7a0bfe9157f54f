-- ===== src/Sandbox/Pod.antt =====
-- The pod of a sandbox: `createSandboxPod` and `sandboxSeccompProfile` of orchestrator.go of
-- services/sandbox-orchestrator.
pub mod Locked
use Prim.Native.String.{◌++◌}
use obarena.Prelude.{
  ℕ, String, str_eq, Bool, true, false, not, ◌&&◌, if◌then◌else◌, ℤ, List, [], ◌∷◌, Option, none,
  some,
}
use obarena.Pods.{
  Profile, runtime_default, localhost, SecurityContext, Container, Volume, Toleration, PodSpec, Pod,
  Named,
}
use obarena.Sandbox.{matches_binary_path}

-- Durations and sizes are not part of the pod.
pub record SandboxConfig : Type 0 where
  pub timeout_seconds : ℤ
  pub max_log_bytes : ℤ
  pub cpu_request : String
  pub cpu_limit : String
  pub memory_request : String
  pub memory_limit : String
  pub seccomp_profile : String
  pub run_as_user : ℤ
  pub node_selector_k : String
  pub node_selector_v : String
  pub toleration_k : String
  pub toleration_v : String

unfoldable pub sandbox_seccomp_profile : String → Profile
sandbox_seccomp_profile path = if str_eq path "" then runtime_default else localhost path

-- `seaweedfsEndpoint` and the bucket before the path.
abbrev pub binary_url : String → String → String
binary_url endpoint path = endpoint ++ ("/submissions/" ++ path)

abbrev pub download_command : String → String
download_command url = "wget -qO /sandbox/binary " ++ (url ++ " && chmod +x /sandbox/binary")

unfoldable pub init_container : SandboxConfig → String → Container
init_container cfg url = record {
  name = "init-download";
  image = "alpine:3.23";
  command = "sh" ∷ "-c" ∷ download_command url ∷ [];
  args = [];
  working_dir = "";
  env = [];
  ports = [];
  volume_mounts = ("sandbox", "/sandbox") ∷ [];
  security_context = some (record {
    run_as_user = cfg.run_as_user;
    run_as_non_root = true;
    allow_privilege_escalation = false;
    read_only_root_filesystem = true;
    drop = [];
    seccomp_profile = none;
    app_armor_profile = none;
  });
  readiness_probe = none;
  resources = none;
}

unfoldable pub sandbox_container : SandboxConfig → Container
unfolding sandbox_seccomp_profile
sandbox_container cfg = record {
  name = "sandbox";
  image = "alpine:3.23";
  command = "/sandbox/binary" ∷ [];
  args = [];
  working_dir = "/sandbox";
  env = [];
  ports = ("http", 8080) ∷ [];
  volume_mounts = ("sandbox", "/sandbox") ∷ ("tmp", "/tmp") ∷ [];
  security_context = some (record {
    run_as_user = cfg.run_as_user;
    run_as_non_root = true;
    allow_privilege_escalation = false;
    read_only_root_filesystem = true;
    drop = "ALL" ∷ [];
    seccomp_profile = some (sandbox_seccomp_profile cfg.seccomp_profile);
    app_armor_profile = some runtime_default;
  });
  readiness_probe = some (record {
    path = "/healthz";
    port = 8080;
    initial_delay_seconds = 1;
    period_seconds = 2;
    failure_threshold = 3;
  });
  resources = some (record {
    cpu_request = cfg.cpu_request;
    cpu_limit = cfg.cpu_limit;
    memory_request = cfg.memory_request;
    memory_limit = cfg.memory_limit;
  });
}

-- Both the key and the value are set.
abbrev pub both_set : String → String → Bool
both_set k v = not (str_eq k "") && not (str_eq v "")

unfoldable pub node_selector : SandboxConfig → Named
node_selector cfg =
    if both_set cfg.node_selector_k cfg.node_selector_v
    then (cfg.node_selector_k, cfg.node_selector_v) ∷ []
    else []

unfoldable pub tolerations : SandboxConfig → List Toleration
tolerations cfg =
    if both_set cfg.toleration_k cfg.toleration_v
    then record {
      key = cfg.toleration_k;
      operator = "Equal";
      value = cfg.toleration_v;
      effect = "NoSchedule";
    }
      ∷ []
    else []

unfoldable pub sandbox_spec : SandboxConfig → String → PodSpec
unfolding init_container sandbox_container node_selector tolerations
sandbox_spec cfg url = record {
  automount_service_account_token = some false;
  restart_policy = "Never";
  init_containers = init_container cfg url ∷ [];
  containers = sandbox_container cfg ∷ [];
  volumes =
      record { name = "sandbox"; size_limit = some "256Mi" }
      ∷ record { name = "tmp"; size_limit = none }
      ∷ [];
  node_selector = node_selector cfg;
  tolerations = tolerations cfg;
}

unfoldable pub sandbox_pod : SandboxConfig → String → String → String → Pod
unfolding sandbox_spec
sandbox_pod cfg endpoint name path = record {
  name = name;
  namespace = "sandboxes";
  labels =
      ("app", "sandbox")
      ∷ ("app.kubernetes.io/name", "sandbox")
      ∷ ("role", "contestant-submission")
      ∷ [];
  spec = sandbox_spec cfg (binary_url endpoint path);
}

-- The pod that is asked for; `none` is the error for the path.
unfoldable pub create_sandbox_pod : SandboxConfig → String → String → String → Option Pod
unfolding sandbox_pod
create_sandbox_pod cfg endpoint name path =
    if not (matches_binary_path path) then none else some (sandbox_pod cfg endpoint name path)
