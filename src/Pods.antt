-- ===== src/Pods.antt =====
-- The objects of Kubernetes that builder.go, sandbox-orchestrator/orchestrator.go and
-- bot-orchestrator/orchestrator.go under services/ write out: the fields that they set. A field that
-- is left out is `none` or an empty list.
pub mod Confined
use obarena.Prelude.{ℕ, String, Bool, ℤ, List, Option}

-- A secret, a variable, a label or the place of a volume, by its name.
abbrev pub Named : Type 0
Named = List (String × String)

pub data Profile : Type 0 where
  runtime_default : Profile
  localhost : String → Profile

pub record SecurityContext : Type 0 where
  pub run_as_user : ℤ
  pub run_as_non_root : Bool
  pub allow_privilege_escalation : Bool
  pub read_only_root_filesystem : Bool
  pub drop : List String
  pub seccomp_profile : Option Profile
  pub app_armor_profile : Option Profile

pub record Resources : Type 0 where
  pub cpu_request : String
  pub cpu_limit : String
  pub memory_request : String
  pub memory_limit : String

pub record Probe : Type 0 where
  pub path : String
  pub port : ℕ
  pub initial_delay_seconds : ℕ
  pub period_seconds : ℕ
  pub failure_threshold : ℕ

pub record Container : Type 0 where
  pub name : String
  pub image : String
  pub command : List String
  pub args : List String
  pub working_dir : String
  pub env : Named
  pub ports : List (String × ℕ)
  pub volume_mounts : Named
  pub security_context : Option SecurityContext
  pub readiness_probe : Option Probe
  pub resources : Option Resources

-- An `EmptyDir`.
pub record Volume : Type 0 where
  pub name : String
  pub size_limit : Option String

pub record Toleration : Type 0 where
  pub key : String
  pub operator : String
  pub value : String
  pub effect : String

pub record PodSpec : Type 0 where
  pub automount_service_account_token : Option Bool
  pub restart_policy : String
  pub init_containers : List Container
  pub containers : List Container
  pub volumes : List Volume
  pub node_selector : Named
  pub tolerations : List Toleration

pub record Pod : Type 0 where
  pub name : String
  pub namespace : String
  pub labels : Named
  pub spec : PodSpec

pub record Job : Type 0 where
  pub name : String
  pub namespace : String
  pub ttl_seconds_after_finished : ℕ
  pub backoff_limit : ℕ
  pub completions : ℕ
  pub parallelism : ℕ
  pub labels : Named
  pub template : PodSpec
