-- ===== src/Runner/Tests.antt =====
-- The bots at concrete input.
use obarena.Prelude.{
  ℕ, ◌+◌, ◌*◌, ◌≤◌, ◌<◌, ◌≡◌, ◌⊎◌, refl, arith, pos, Bool, true, false, List, [], ◌∷◌, ◌/◌, ◌≢◌,
  insert, ◌==◌, not,
}
use obarena.Engine.Clock.{Clock}
use obarena.Runner.Sequence.{Step, order_id, order_step}
use obarena.Runner.Bot.{
  BotMetrics, Bot, dialing, writing, Event, dials, begins, writes, receives, clears, run,
  IncomingMessage,
}
use obarena.Runner.Bot.InFlight.{IsHeld, none-IsHeld, run-Grows}
use obarena.Runner.Bot.Resend.{resend, run-resend}
use obarena.Runner.Main.{Settings}
use obarena.Runner.Main.Publish.{
  Answers, Elapsed, KafkaRecord, publish_metrics, has_brokers, run as run_test, run-published,
  finish_run, event_of,
}
use obarena.Runner.Metrics.{merge}
use obarena.Runner.Correctness.{run_correctness}
use obarena.Runner.Correctness.Score.{run_correctness-counts}
use obarena.Runner.Correctness.Stub.{stub_service}
use obarena.Runner.Correctness.Stub.Passes.{fresh_stub, run_correctness-stub_service}

-- A histogram is the list of its values.
abbrev note_value : ℕ → List ℕ → List ℕ
note_value us h = us ∷ h

abbrev no_counters : BotMetrics (List ℕ)
no_counters = record {
  ack_latency = [];
  fill_latency = [];
  orders_sent = 0;
  acks_recv = 0;
  fills_recv = 0;
  rejects_recv = 0;
  stale_orders = 0;
}

abbrev one_step : Step
one_step = order_step "bid1" "buy" "limit" 9 10

abbrev bot : Bot (List ℕ)
bot = record {
  id = 0;
  steps = one_step ∷ [];
  metrics = no_counters;
  pending = [];
  in_flight = pos 0;
  iteration = 0;
  tag_to_id = [];
  phase = dialing;
  written = [];
}

abbrev acked : IncomingMessage
acked = record {
  type = "ack";
  order_id = "b0-i0-bid1";
  reason = "";
  filled_qty = pos 0;
  fill_price = 0;
  remaining = pos 0;
  timestamp = 7;
}

abbrev schedule : List Event
schedule = dials true ∷ begins false ∷ writes 5 true ∷ receives 6 acked ∷ clears 7 ∷ []

run-Grows_example :
    let b' = run note_value schedule bot in (k' : ℕ) × (0 ≤ k') × IsHeld k' b'.pending b'.in_flight
run-Grows_example = run-Grows note_value schedule 0 bot (none-IsHeld 0 (omega arith))

abbrev at_first : Bot (List ℕ)
at_first = record bot { phase = writing (one_step ∷ []) }

run-resend_example :
    let b' = run note_value (resend 5 6) at_first in
    (b'.pending ≡ insert (order_id 0 0 "bid1") 6 [])
    × (b'.in_flight ≡ pos 2)
    × (b'.metrics.orders_sent ≡ 2)
run-resend_example =
    run-resend note_value 5 6 0 one_step [] at_first refl refl refl refl (omega arith)

-- Histograms that count their values.
abbrev counted : BotMetrics ℕ
counted = record {
  ack_latency = 3;
  fill_latency = 4;
  orders_sent = 5;
  acks_recv = 6;
  fills_recv = 8;
  rejects_recv = 0;
  stale_orders = 1;
}

abbrev clock : Clock
clock = record { last = 0; wall = λ n. 100 * n; ticks = 1 }

abbrev differs : ℕ → ℕ → Bool
differs p q = not (p == q)

differs_not : (p : ℕ) → differs p p ≡ false
differs_not p = ground arith

run_correctness-stub_service_example :
    let r = run_correctness differs (stub_service 9) (fresh_stub clock) in
    (r.passed ≡ 33) × (r.failure_details ≡ [])
run_correctness-stub_service_example = run_correctness-stub_service differs clock 7 differs_not

run_correctness-counts_example :
    let r = run_correctness differs (stub_service 9) (fresh_stub clock) in
    (r.total_assertions ≤ 33) × ((r.passed ≡ 33) ⊎ (0 < r.failed))
run_correctness-counts_example = run_correctness-counts differs (stub_service 9) (fresh_stub clock)

abbrev settings : Settings
settings = record {
  endpoint = "ws://10.0.0.1:8080/stream";
  num_bots = pos 2;
  duration_sec = pos 60;
  team_name = "red";
  submission_id = "s1";
  test_run_id = "s1";
  brokers = "redpanda:9092" ∷ [];
  topic = "bot.metrics";
  schema_registry_url = "http://redpanda:8081";
}

abbrev all_well : Answers
all_well = record {
  client = true;
  registry = true;
  schema = true;
  test_cancelled = false;
  produced = true;
}

abbrev minute : Elapsed ℕ
minute = record { seconds = 60; milliseconds = pos 60000; emitted_at = pos 1 }

abbrev published : KafkaRecord ℕ
published = record {
  topic = "bot.metrics";
  key = "s1";
  value =
      event_of (λ n. n) (λ a b. a / b) (λ h q. pos h) (λ h. pos h) settings
        (merge 0 (λ g h. (g + h, 0)) (counted ∷ counted ∷ [])) 20 minute;
}

run-published_example :
    (has_brokers settings ≡ true)
    × (all_well.client ≡ true)
    × (all_well.schema ≡ true)
    × (all_well.test_cancelled ≡ false)
    × (all_well.produced ≡ true)
    × (settings.submission_id ≢ "")
    × (published.key ≡ "s1")
    × (published.value.submission_id ≡ "s1")
    × (published.value.correctness_score ≡ 20)
    × (published.value.orders_sent ≡ 10)
unfolding run_test finish_run publish_metrics event_of
run-published_example =
    run-published (λ n. n) (λ a b. a / b) (λ h q. pos h) (λ h. pos h) 0 (λ g h. (g + h, 0)) (λ h. h)
      all_well settings (counted ∷ counted ∷ []) 20 minute published (λ g h. omega arith) refl refl
