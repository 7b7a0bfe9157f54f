-- ===== src/Orchestrator/Tests.antt =====
-- The bot orchestrator at concrete input.
use obarena.Prelude.{
  ◌≤◌, ◌≡◌, pos, Bool, true, false, if◌then◌else◌, List, [], ◌∷◌, some, none, str_eq, eq_iff,
  false≢true,
}
use obarena.Orchestrator.Jobs.{SandboxReadyEvent, modified, Answers, Cluster}
use obarena.Config.{Env}
use obarena.Orchestrator.Settings.{read_settings, target_endpoint}
use obarena.Orchestrator.Settings.Handover.{runner_env, read_settings-runner_env}
use obarena.Runner.Main
use obarena.Orchestrator.Server.{
  Event, requests, delivers, finishes, no_body, run, new_server, is_active,
}
use obarena.Orchestrator.Server.Exclusive.{run-running}

abbrev ready : SandboxReadyEvent
ready = record {
  submission_id = "s1";
  pod_name = "sandbox-s1";
  pod_ip = "10.0.0.1";
  http_port = pos 8081;
  ws_port = pos 8080;
  team_name = "red";
}

abbrev answers : Bool → Answers
answers warmed_up = record {
  create = true;
  warmed_up = warmed_up;
  watch = some (modified (pos 0) (pos 0) ∷ modified (pos 1) (pos 0) ∷ []);
  is_cancelled = false;
  delete_job = true;
  delete_pod = true;
  publish = true;
}

abbrev cluster : Cluster
cluster = record { jobs = []; pods = "sandbox-s1" ∷ []; topic = [] }

-- Two requests for the manual run, a record, and the end of the manual run.
abbrev schedule : List Event
schedule =
    requests (record { method = "POST"; body = no_body })
    ∷ requests (record { method = "POST"; body = no_body })
    ∷ delivers ready
    ∷ finishes "manual-run"
    ∷ []

run-running_example :
    ((run schedule new_server).running "s1" ≤ 1)
    × ((run schedule new_server).running "s1"
        ≡ (if is_active "s1" (run schedule new_server) then 1 else 0))
run-running_example = run-running schedule "s1"

-- Two variables are set, one of them not to a number.
abbrev env : Env
env = λ key.
    if str_eq key "NUM_BOTS"
    then some "20"
    else if str_eq key "DURATION_SECONDS"
    then some "1m"
    else none

read_settings-runner_env_example :
    let o = read_settings env in
    let r = Main.read_settings (runner_env o.cfg ready) in
    (r.endpoint ≡ target_endpoint ready)
    × (r.num_bots ≡ o.cfg.num_bots)
    × (r.duration_sec ≡ o.cfg.duration_seconds)
    × (r.team_name ≡ "red")
    × (r.submission_id ≡ "s1")
    × (r.test_run_id ≡ "s1")
    × (r.brokers ≡ o.brokers)
    × (r.schema_registry_url ≡ o.cfg.schema_registry_url)
read_settings-runner_env_example =
    read_settings-runner_env env ready (λ e. false≢true ((eq_iff "red" "").1 e))
