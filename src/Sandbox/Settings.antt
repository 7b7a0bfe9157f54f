-- ===== src/Sandbox/Settings.antt =====
-- The settings of services/sandbox-orchestrator: what `run` of main.go reads.
use obarena.Prelude.{String, pos, List}
use obarena.Config.{Env, env_str, env_str_set, env_int}
use obarena.Config.Brokers.{broker_list}
use obarena.Sandbox.Pod.{SandboxConfig}

pub record Settings : Type 0 where
  pub seaweedfs_endpoint : String
  pub redpanda_brokers : List String
  pub topic : String
  pub schema_registry_url : String
  pub cfg : SandboxConfig

unfoldable pub read_settings : Env → Settings
unfolding env_str env_str_set env_int broker_list
read_settings env = record {
  seaweedfs_endpoint =
      env_str env "SEAWEEDFS_ENDPOINT" "http://seaweedfs.platform.svc.cluster.local:8333";
  redpanda_brokers =
      broker_list (env_str env "REDPANDA_BROKERS" "redpanda.platform.svc.cluster.local:9092");
  topic = env_str env "KAFKA_TOPIC" "submission.lifecycle";
  schema_registry_url =
      env_str env "SCHEMA_REGISTRY_URL" "http://redpanda.platform.svc.cluster.local:8081";
  cfg = record {
    timeout_seconds = env_int env "SANDBOX_TIMEOUT_SECONDS" (pos 60);
    max_log_bytes = env_int env "MAX_LOG_BYTES" (pos 4096);
    cpu_request = env_str env "SANDBOX_CPU_REQUEST" "2";
    cpu_limit = env_str env "SANDBOX_CPU_LIMIT" "2";
    memory_request = env_str env "SANDBOX_MEMORY_REQUEST" "512Mi";
    memory_limit = env_str env "SANDBOX_MEMORY_LIMIT" "512Mi";
    seccomp_profile = env_str_set env "SANDBOX_SECCOMP_PROFILE_PATH" "sandbox-seccomp.json";
    run_as_user = env_int env "SANDBOX_RUN_AS_USER" (pos 65534);
    node_selector_k = env_str_set env "SANDBOX_NODE_SELECTOR_KEY" "workload";
    node_selector_v = env_str_set env "SANDBOX_NODE_SELECTOR_VALUE" "sandbox";
    toleration_k = env_str_set env "SANDBOX_TOLERATION_KEY" "workload";
    toleration_v = env_str_set env "SANDBOX_TOLERATION_VALUE" "sandbox";
  };
}
