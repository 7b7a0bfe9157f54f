-- ===== src/Orchestrator/Settings.antt =====
-- The settings of services/bot-orchestrator and the job that it makes of them: `run` of main.go,
-- `Config` and the job of `runTest` of orchestrator.go.
pub mod Handover
use Prim.Native.String.{◌++◌}
use obarena.Prelude.{String, ℤ, pos, List, [], ◌∷◌, none, some}
use obarena.Config.{Env, env_str, env_int}
use obarena.Config.Numbers.{format_int}
use obarena.Config.Texts.{join}
use obarena.Config.Brokers.{broker_list}
use obarena.Pods.{Named, Container, PodSpec, Job}
use obarena.Orchestrator.Jobs.{SandboxReadyEvent, job_name}

pub record Config : Type 0 where
  pub num_bots : ℤ
  pub duration_seconds : ℤ
  pub job_timeout_sec : ℤ
  pub warmup_seconds : ℤ
  pub redpanda_brokers : String
  pub schema_registry_url : String
  pub bot_runner_image : String
  pub sandbox_namespace : String

-- What `run` reads; the topic and the brokers go to the publisher and the consumer.
pub record Settings : Type 0 where
  pub brokers : List String
  pub topic : String
  pub cfg : Config

unfoldable pub read_settings : Env → Settings
unfolding env_str env_int broker_list join
read_settings env =
    let brokers =
      broker_list (env_str env "REDPANDA_BROKERS" "redpanda.platform.svc.cluster.local:9092") in
    record {
      brokers = brokers;
      topic = env_str env "KAFKA_TOPIC" "submission.lifecycle";
      cfg = record {
        num_bots = env_int env "NUM_BOTS" (pos 50);
        duration_seconds = env_int env "DURATION_SECONDS" (pos 60);
        job_timeout_sec = env_int env "JOB_TIMEOUT_SECONDS" (pos 120);
        warmup_seconds = env_int env "WARMUP_SECONDS" (pos 15);
        redpanda_brokers = join brokers;
        schema_registry_url =
            env_str env "SCHEMA_REGISTRY_URL" "http://redpanda.platform.svc.cluster.local:8081";
        bot_runner_image = env_str env "BOT_RUNNER_IMAGE" "bot-runner:dev";
        sandbox_namespace = env_str env "SANDBOX_NAMESPACE" "sandboxes";
      };
    }

-- `ws://%s:%d/stream`
unfoldable pub target_endpoint : SandboxReadyEvent → String
unfolding format_int
target_endpoint event =
    "ws://" ++ (event.pod_ip ++ (":" ++ (format_int event.ws_port ++ "/stream")))

unfoldable pub job_env : Config → SandboxReadyEvent → Named
unfolding format_int target_endpoint
job_env cfg event =
    ("TARGET_ENDPOINT", target_endpoint event)
    ∷ ("NUM_BOTS", format_int cfg.num_bots)
    ∷ ("DURATION_SECONDS", format_int cfg.duration_seconds)
    ∷ ("TEAM_NAME", event.team_name)
    ∷ ("TEST_RUN_ID", event.submission_id)
    ∷ ("REDPANDA_BROKERS", cfg.redpanda_brokers)
    ∷ ("SCHEMA_REGISTRY_URL", cfg.schema_registry_url)
    ∷ []

unfoldable pub bot_runner_job : Config → SandboxReadyEvent → Job
unfolding job_env
bot_runner_job cfg event = record {
  name = job_name event;
  namespace = "bots";
  ttl_seconds_after_finished = 300;
  backoff_limit = 0;
  completions = 1;
  parallelism = 1;
  labels = ("app.kubernetes.io/name", "bot-runner") ∷ [];
  template = record {
    automount_service_account_token = none;
    restart_policy = "Never";
    init_containers = [];
    containers =
        record {
          name = "bot-runner";
          image = cfg.bot_runner_image;
          command = [];
          args = [];
          working_dir = "";
          env = job_env cfg event;
          ports = [];
          volume_mounts = [];
          security_context = none;
          readiness_probe = none;
          resources = some (record {
            cpu_request = "100m";
            cpu_limit = "2";
            memory_request = "512Mi";
            memory_limit = "1Gi";
          });
        }
        ∷ [];
    volumes = [];
    node_selector = [];
    tolerations = [];
  };
}
