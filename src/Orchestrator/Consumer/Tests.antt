-- ===== src/Orchestrator/Consumer/Tests.antt =====
-- The consumer of services/bot-orchestrator at concrete input.
use obarena.Prelude.{is_among, ◌≡◌, refl, arith, pos, true, false, List, [], ◌∷◌}
use obarena.Orchestrator.Jobs.{SandboxReadyEvent}
use obarena.Orchestrator.Consumer.{
  Payload, other_event, sandbox_ready, Consumer, Move, polls, returns, restarts, payload_at, leaves,
  take_record, finish_record, step, run, new_consumer,
}
use obarena.Orchestrator.Consumer.Passed.{run-handles_passed}
use obarena.Orchestrator.Consumer.Lost.{overtaken_for_good}

abbrev ready : SandboxReadyEvent
ready = record {
  submission_id = "s1";
  pod_name = "sandbox-s1";
  pod_ip = "10.0.0.1";
  http_port = pos 8081;
  ws_port = pos 8080;
  team_name = "red";
}

-- Two tests with another event between them.
abbrev log : List Payload
log = sandbox_ready ready ∷ other_event ∷ sandbox_ready (record ready { submission_id = "s2" }) ∷ []

-- Both run at once, the older one returns first, and the commit of the later one fails.
abbrev moves : List Move
moves = polls ∷ polls ∷ polls ∷ returns 0 true ∷ returns 2 false ∷ restarts ∷ polls ∷ []

run-handles_passed_example : is_among 0 (run log moves new_consumer).handled ≡ true
unfolding run step new_consumer payload_at leaves take_record finish_record
run-handles_passed_example =
    run-handles_passed log moves 0
      (tt, (tt, (tt, ((omega arith, (omega arith, tt)), ((omega arith, tt), (tt, (tt, tt)))))))
      (omega arith) refl

abbrev both : Consumer
both = run log (polls ∷ polls ∷ polls ∷ []) new_consumer

overtaken_for_good_example :
    is_among 0
      (run log (polls ∷ polls ∷ []) (run log (returns 2 true ∷ restarts ∷ []) both)).handled
    ≡ false
unfolding run step new_consumer payload_at leaves take_record finish_record
overtaken_for_good_example =
    overtaken_for_good log 0 2 (polls ∷ polls ∷ []) both (omega arith) refl refl
