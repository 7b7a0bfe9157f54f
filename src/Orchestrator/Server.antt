-- ===== src/Orchestrator/Server.antt =====
-- The tests that run at once: `Server` of main.go of services/bot-orchestrator, and what `Run` of
-- consumer.go calls for a record.
pub mod Exclusive
use obarena.Prelude.{
  ℕ, ◌+◌, ◌-◌, ◌==◌, String, str_eq, Bool, true, false, not, ltb, if◌then◌else◌, ℤ, pos, negsuc,
  Dict, lookup, insert, delete, List, [], ◌∷◌, Option, none, some,
}
use obarena.Orchestrator.Jobs.{SandboxReadyEvent}

-- `active_tests` is under the lock; `running` is how many calls of `Handle` a submission has.
pub record Server : Type 0 where
  pub active_tests : Dict Bool
  pub running : String → ℕ

unfoldable pub new_server : Server
new_server = record { active_tests = []; running = λ _. 0 }

-- A missing key of a Go map is false.
unfoldable pub is_active : String → Server → Bool
is_active id s = elim (lookup id s.active_tests) [ none ↦ false | some b ↦ b ]

abbrev pub start : String → Server → Server
start id s = record {
  active_tests = insert id true s.active_tests;
  running = λ k. if str_eq id k then s.running k + 1 else s.running k;
}

-- A call of `Handle` returns, and its `defer` runs.
unfoldable pub finish : String → Server → Server
finish id s =
    if ltb 0 (s.running id)
    then record {
      active_tests = delete id s.active_tests;
      running = λ k. if str_eq id k then s.running k - 1 else s.running k;
    }
    else s

pub data Response : Type 0 where
  method_not_allowed bad_request conflict accepted : Response

-- The body: there may be none, and it may not decode.
pub data Body : Type 0 where
  no_body broken : Body
  decoded : SandboxReadyEvent → Body

pub record Request : Type 0 where
  pub method : String
  pub body : Body

abbrev pub or_default : String → String → String
or_default s default = if str_eq s "" then default else s

abbrev pub or_port : ℤ → ℤ
or_port (pos n) = if n == 0 then pos 8080 else pos n
or_port (negsuc n) = negsuc n

unfoldable pub with_defaults : SandboxReadyEvent → SandboxReadyEvent
with_defaults e = record e {
  submission_id = or_default e.submission_id "manual-run";
  pod_ip = or_default e.pod_ip "submission-api.platform.svc.cluster.local";
  ws_port = or_port e.ws_port;
  team_name = or_default e.team_name "manual-team";
}

abbrev pub empty_event : SandboxReadyEvent
empty_event = record {
  submission_id = "";
  pod_name = "";
  pod_ip = "";
  http_port = pos 0;
  ws_port = pos 0;
  team_name = "";
}

-- The section under the lock: what is active is refused.
unfoldable pub try_start : String → Server → Bool × Server
unfolding is_active
try_start id s = if is_active id s then (false, s) else (true, start id s)

abbrev pub answer_start : Bool × Server → Response × Server
answer_start (ok, s) = (if ok then accepted else conflict, s)

unfoldable pub handle_body : Body → Server → Response × Server
unfolding with_defaults try_start
handle_body broken s = (bad_request, s)
handle_body no_body s = answer_start (try_start (with_defaults empty_event).submission_id s)
handle_body (decoded e) s = answer_start (try_start (with_defaults e).submission_id s)

unfoldable pub run_handler : Request → Server → Response × Server
unfolding handle_body
run_handler r s =
    if not (str_eq r.method "POST") then (method_not_allowed, s) else handle_body r.body s

-- `statusHandler`
unfoldable pub status : Server → String
status s = elim s.active_tests [ [] ↦ "idle" | _ ∷ _ ↦ "running" ]

pub data Event : Type 0 where
  requests : Request → Event
  delivers : SandboxReadyEvent → Event
  finishes : String → Event

unfoldable pub step : Event → Server → Server
unfolding run_handler finish
step (requests r) s = (run_handler r s).1
step (delivers e) s = (try_start e.submission_id s).1
step (finishes id) s = finish id s

unfoldable pub run : List Event → Server → Server
unfolding step
run [] s = s
run (e ∷ es) s = run es (step e s)
