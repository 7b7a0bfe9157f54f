-- ===== src/Sandbox/Tests.antt =====
-- Deployments at concrete input.
use obarena.Prelude.{
  str_eq, take, holds, ◌≡◌, ◌⊎◌, refl, String, Bool, true, false, if◌then◌else◌, List, [], ◌∷◌, pos,
  none, some, eq_iff, arith,
}
use obarena.Sandbox.{
  BuildComplete, CreateAnswer, created, already_exists, Answers, pod, running, pending, deploy,
  State, handle_record, matches_binary_path,
}
use obarena.Pods.{Pod}
use obarena.Pods.{runtime_default, localhost}
use obarena.Config.{getenv, env_int, env_str_set}
use obarena.Sandbox.Settings.{read_settings}
use obarena.Sandbox.Logs.{stream, limited, collect_pod_logs, cut, failure_reason}
use obarena.Sandbox.Pod.{sandbox_seccomp_profile, SandboxConfig, sandbox_pod, create_sandbox_pod}
use obarena.Sandbox.Deploys.{Fails, Stays, deploy-pods, handle_record-redelivered}

-- Kubernetes refuses a name that is in use.
abbrev create : String → List String → CreateAnswer
create name pods = if holds name pods then already_exists else created

abbrev answers : Bool → Answers
answers publish = record {
  create = create;
  watch = some (pod pending false ∷ pod running false ∷ pod running true ∷ []);
  get = some "10.0.0.1";
  delete = true;
  publish = publish;
}

abbrev event : BuildComplete
event = record { submission_id = "s1"; binary_path = "builds/s1/binary"; team_name = "red" }

deploy-pods_example :
    let d = deploy (answers true) event [] in
    Fails [] d
    ⊎ (Stays (answers true) "sandbox-s1" [] d × (matches_binary_path "builds/s1/binary" ≡ true))
unfolding holds
deploy-pods_example = deploy-pods (answers true) event [] refl refl

create-exists : (name : String) (pods : List String) → create name (name ∷ pods) ≡ already_exists
unfolding holds
create-exists name pods = ground (arith, eq_iff name name)

abbrev idle : State
idle = record { pods = []; topic = [] }

handle_record-redelivered_example :
    let (ok, s') = handle_record (answers false) event idle in
    let (ok', s'') = handle_record (answers true) event s' in
    (ok ≡ false) × (ok' ≡ true) × (s''.topic ≡ [])
unfolding deploy matches_binary_path holds
handle_record-redelivered_example =
    handle_record-redelivered (answers false) (answers true) event idle
      (record { pod_name = "sandbox-s1"; pod_ip = "10.0.0.1" }) refl refl create-exists

abbrev config : SandboxConfig
config = record {
  timeout_seconds = pos 120;
  max_log_bytes = pos 65536;
  cpu_request = "500m";
  cpu_limit = "2";
  memory_request = "256Mi";
  memory_limit = "1Gi";
  seccomp_profile = "profiles/sandbox.json";
  run_as_user = pos 65534;
  node_selector_k = "pool";
  node_selector_v = "sandbox";
  toleration_k = "";
  toleration_v = "";
}

abbrev sandbox : Pod
sandbox = sandbox_pod config "http://seaweedfs:8333" "sandbox-s1" "builds/s1/binary"

-- A path that would be a second command makes no pod.
quoted_path : create_sandbox_pod config "http://seaweedfs:8333" "sandbox-s1" "x; reboot" ≡ none
unfolding create_sandbox_pod matches_binary_path
quoted_path = refl

-- Where no variable is set, the pod runs as nobody under the profile of the repository.
abbrev by_default : SandboxConfig
by_default = (read_settings (λ key. none)).cfg

default_user : by_default.run_as_user ≡ pos 65534
unfolding read_settings env_int getenv
default_user = refl

default_profile :
    sandbox_seccomp_profile by_default.seccomp_profile ≡ localhost "sandbox-seccomp.json"
unfolding read_settings env_str_set sandbox_seccomp_profile
default_profile = refl

-- An empty variable chooses the profile of the runtime.
abbrev profile_off : SandboxConfig
profile_off =
    (read_settings (λ key. if str_eq key "SANDBOX_SECCOMP_PROFILE_PATH" then some "" else none)).cfg

empty_profile : sandbox_seccomp_profile profile_off.seccomp_profile ≡ runtime_default
unfolding read_settings env_str_set getenv sandbox_seccomp_profile
empty_profile = refl

long_reason :
    failure_reason (λ e. e) (λ e. e) (pos 4) (1 ∷ 2 ∷ []) (stream (3 ∷ 4 ∷ 5 ∷ []))
    ≡ some (1 ∷ 2 ∷ 3 ∷ 4 ∷ [])
unfolding failure_reason collect_pod_logs limited cut take
long_reason = refl
