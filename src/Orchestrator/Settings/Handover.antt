-- ===== src/Orchestrator/Settings/Handover.antt =====
-- What the job of services/bot-orchestrator hands to services/bot-runner.
use Prim.Native.String.{◌++◌}
use text.Mathlib.TextLemmas.{cons-append, cons≢nil}
use obarena.Prelude.{
  ◌≡◌, ◌≢◌, refl, sym, ◌∙◌, ap, inl, inr, String, str_eq, eq_iff, Bool-cases, true, false, lookup,
  pos, some, arith,
}
use obarena.Config.{Env, env_str}
use obarena.Config.Numbers.{format_int}
use obarena.Config.Brokers.{broker_list, broker_list-join_again}
use obarena.Config.Defaults.{getenv-set, env_str-some, env_str-set, env_int-IsInt, env_int-set}
use obarena.Orchestrator.Jobs.{SandboxReadyEvent}
use obarena.Orchestrator.Settings.{Config, read_settings, job_env, target_endpoint}
use obarena.Runner.Main

target_endpoint-some : (event : SandboxReadyEvent) → str_eq (target_endpoint event) "" ≡ false
unfolding target_endpoint
target_endpoint-some event =
    let rest = event.pod_ip ++ (":" ++ (format_int event.ws_port ++ "/stream")) in
    let ne : (str_eq ("ws://" ++ rest) "" ≡ true) → ⊥ =
      λ h. cons≢nil (sym (cons-append "w" "s://" rest) ∙ (eq_iff ("ws://" ++ rest) "").0 h) in
    ground (arith, ne)

-- The environment of the container.
abbrev pub runner_env : Config → SandboxReadyEvent → Env
runner_env cfg event key = lookup key (job_env cfg event)

-- Without a default to fall back on, a variable is read as it is set.
env_str-empty_default : (env : Env) (key v : String) → env key ≡ some v → env_str env key "" ≡ v
unfolding env_str
env_str-empty_default env key v set = elim (Bool-cases (str_eq v "")) [
  | inl empty ↦ rw (getenv-set env key v set, empty) (sym ((eq_iff v "").0 empty))
  | inr some_value ↦ rw (getenv-set env key v set, some_value) refl
]

-- However the orchestrator is configured: the bot runner of an event with a team name goes for the
-- address of the sandbox, with the number of bots, the seconds, the brokers and the registry of the
-- orchestrator, for the team and the submission of the event.
pub read_settings-runner_env :
    (env : Env) (event : SandboxReadyEvent)
    → event.team_name ≢ ""
    → let o = read_settings env in
      let r = Main.read_settings (runner_env o.cfg event) in
      (r.endpoint ≡ target_endpoint event)
      × (r.num_bots ≡ o.cfg.num_bots)
      × (r.duration_sec ≡ o.cfg.duration_seconds)
      × (r.team_name ≡ event.team_name)
      × (r.submission_id ≡ event.submission_id)
      × (r.test_run_id ≡ event.submission_id)
      × (r.brokers ≡ o.brokers)
      × (r.schema_registry_url ≡ o.cfg.schema_registry_url)
unfolding read_settings Main.read_settings job_env lookup
read_settings-runner_env env event named =
    let o = read_settings env in
    let inner = runner_env o.cfg event in
    let team : str_eq event.team_name "" ≡ false =
      ground (arith, named, eq_iff event.team_name "") in
    (
      env_str-set inner "TARGET_ENDPOINT" "ws://localhost:8080/stream" (target_endpoint event) refl
          (target_endpoint-some event),
      env_int-set inner "NUM_BOTS" (pos 10) o.cfg.num_bots refl
          (env_int-IsInt env "NUM_BOTS" (pos 50) (omega arith)),
      env_int-set inner "DURATION_SECONDS" (pos 30) o.cfg.duration_seconds refl
          (env_int-IsInt env "DURATION_SECONDS" (pos 60) (omega arith)),
      env_str-set inner "TEAM_NAME" "unknown" event.team_name refl team,
      env_str-empty_default inner "TEST_RUN_ID" event.submission_id refl,
      env_str-empty_default inner "TEST_RUN_ID" event.submission_id refl,
      ap broker_list (env_str-empty_default inner "REDPANDA_BROKERS" o.cfg.redpanda_brokers refl)
          ∙ broker_list-join_again
              (env_str env "REDPANDA_BROKERS" "redpanda.platform.svc.cluster.local:9092"),
      env_str-set inner "SCHEMA_REGISTRY_URL" "http://redpanda.platform.svc.cluster.local:8081"
          o.cfg.schema_registry_url refl
          (env_str-some env "SCHEMA_REGISTRY_URL" "http://redpanda.platform.svc.cluster.local:8081"
            refl),
    )
