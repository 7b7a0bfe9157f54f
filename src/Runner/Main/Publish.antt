-- ===== src/Runner/Main/Publish.antt =====
-- The end of a test of services/bot-runner: the phases of `run` of main.go, and `publishMetrics` of
-- publisher.go.
--
-- A float64 is of a type `F`; a histogram is of a type `H`, with its quantiles (in thousandths) and
-- its maximum.
use obarena.Prelude.{
  ℕ, ◌+◌, ◌≡◌, ◌≢◌, sum_of, eq_iff, String, str_eq, Bool, true, false, if◌then◌else◌, not, ◌&&◌, ℤ,
  pos, negsuc, List, [], ◌∷◌, Option, none, some, arith,
}
use obarena.Runner.Bot.{BotMetrics}
use obarena.Runner.Metrics.{AggregateMetrics, merge}
use obarena.Runner.Metrics.Sums.{merge-counts}
use obarena.Runner.Main.{Settings}

-- What `run` has at its end besides the metrics: the time it took, and the score.
pub record Elapsed (F : Type 0) : Type 0 where
  pub seconds : F
  pub milliseconds : ℤ
  pub emitted_at : ℤ

-- `metricsv1.BotMetrics`
pub record Event (F : Type 0) : Type 0 where
  pub team_name : String
  pub submission_id : String
  pub test_run_id : String
  pub duration_ms : ℤ
  pub orders_sent : ℕ
  pub acks_recv : ℕ
  pub fills_recv : ℕ
  pub rejects_recv : ℕ
  pub stale_orders : ℕ
  pub ack_p50_us : ℤ
  pub ack_p90_us : ℤ
  pub ack_p99_us : ℤ
  pub ack_p999_us : ℤ
  pub ack_max_us : ℤ
  pub fill_p50_us : ℤ
  pub fill_p90_us : ℤ
  pub fill_p99_us : ℤ
  pub fill_p999_us : ℤ
  pub fill_max_us : ℤ
  pub tps : F
  pub correctness_score : F
  pub emitted_at : ℤ

-- A record of Kafka: topic, key and value.
pub record KafkaRecord (F : Type 0) : Type 0 where
  pub topic : String
  pub key : String
  pub value : Event F

-- The steps of `run` that may fail, in their order.
pub data RunError : Type 0 where
  no_client no_registry no_schema : RunError
  test_cancelled : RunError

pub data RunResult (F : Type 0) : Type 0 where
  failed : RunError → RunResult F
  -- `make` with a negative length
  panics : RunResult F
  -- whether a record has gone out
  finished : Option (KafkaRecord F) → RunResult F

-- What the outside answers: Kafka, the registry, the context of the test, the broker.
pub record Answers : Type 0 where
  pub client : Bool
  pub registry : Bool
  pub schema : Bool
  pub test_cancelled : Bool
  pub produced : Bool

module _ {F H : Type 0} (of_nat : ℕ → F) (div : F → F → F) (quantile : H → ℕ → ℤ)
    (max : H → ℤ) where
  unfoldable pub event_of : Settings → AggregateMetrics H → F → Elapsed F → Event F
  event_of s agg score t = record {
    team_name = s.team_name;
    submission_id = s.submission_id;
    test_run_id = s.test_run_id;
    duration_ms = t.milliseconds;
    orders_sent = agg.orders_sent;
    acks_recv = agg.acks_recv;
    fills_recv = agg.fills_recv;
    rejects_recv = agg.rejects_recv;
    stale_orders = agg.stale_orders;
    ack_p50_us = quantile agg.ack_latency 500;
    ack_p90_us = quantile agg.ack_latency 900;
    ack_p99_us = quantile agg.ack_latency 990;
    ack_p999_us = quantile agg.ack_latency 999;
    ack_max_us = max agg.ack_latency;
    fill_p50_us = quantile agg.fill_latency 500;
    fill_p90_us = quantile agg.fill_latency 900;
    fill_p99_us = quantile agg.fill_latency 990;
    fill_p999_us = quantile agg.fill_latency 999;
    fill_max_us = max agg.fill_latency;
    tps = div (of_nat agg.orders_sent) t.seconds;
    correctness_score = score;
    emitted_at = t.emitted_at;
  }

  -- Without a client nothing is published, and that is no error.
  unfoldable pub publish_metrics :
      Bool → Bool → Settings → AggregateMetrics H → F → Elapsed F → Option (KafkaRecord F)
  unfolding event_of
  publish_metrics has_client produced s agg score t =
      if has_client && produced
      then some (record { topic = s.topic; key = s.submission_id; value = event_of s agg score t })
      else none

abbrev pub has_brokers : Settings → Bool
has_brokers s = elim s.brokers [ [] ↦ false | _ ∷ _ ↦ true ]

-- `make([]*Bot, numBots)`
abbrev pub is_negative : ℤ → Bool
is_negative (pos n) = false
is_negative (negsuc n) = true

module _ {F H : Type 0} (of_nat : ℕ → F) (div : F → F → F) (quantile : H → ℕ → ℤ) (max : H → ℤ)
    (new_histogram : H) (merge_histogram : H → H → H × ℕ) where
  -- From the two phases on: `bots` are the metrics after the load, `score` is of the correctness bot.
  unfoldable pub finish_run : Answers → Settings → List (BotMetrics H) → F → Elapsed F → RunResult F
  unfolding publish_metrics merge
  finish_run a s bots score t =
      if is_negative s.num_bots
      then panics
      else if a.test_cancelled
      then failed test_cancelled
      else if str_eq s.submission_id ""
      then finished none
      else finished (
          publish_metrics of_nat div quantile max (has_brokers s) a.produced s
            (merge new_histogram merge_histogram bots) score t)

  unfoldable pub run : Answers → Settings → List (BotMetrics H) → F → Elapsed F → RunResult F
  unfolding finish_run
  run a s bots score t =
      if has_brokers s && not a.client
      then failed no_client
      else if has_brokers s && not a.registry
      then failed no_registry
      else if has_brokers s && not a.schema
      then failed no_schema
      else finish_run a s bots score t

module _ {F H : Type 0} (of_nat : ℕ → F) (div : F → F → F) (quantile : H → ℕ → ℤ) (max : H → ℤ)
    (new_histogram : H) (merge_histogram : H → H → H × ℕ) (count : H → ℕ) where
  -- If merging two histograms keeps or drops each value, and a new one is empty: what a run puts on
  -- the topic has the submission as its key and in its value, the score that it was given, and the
  -- orders of all bots; and it puts that there only if it has a client that the broker answers and
  -- a schema, a submission, and a test that was not cancelled.
  pub run-published :
      (a : Answers) (s : Settings) (bots : List (BotMetrics H)) (score : F) (t : Elapsed F)
      (out : KafkaRecord F)
      → ((g h : H) → count (merge_histogram g h).0 + (merge_histogram g h).1 ≡ count g + count h)
      → count new_histogram ≡ 0
      → run of_nat div quantile max new_histogram merge_histogram a s bots score t
        ≡ finished (some out)
      → (has_brokers s ≡ true)
        × (a.client ≡ true)
        × (a.schema ≡ true)
        × (a.test_cancelled ≡ false)
        × (a.produced ≡ true)
        × (s.submission_id ≢ "")
        × (out.key ≡ s.submission_id)
        × (out.value.submission_id ≡ s.submission_id)
        × (out.value.correctness_score ≡ score)
        × (out.value.orders_sent ≡ sum_of (λ b. b.orders_sent) bots)
  unfolding run finish_run publish_metrics event_of
  run-published a s bots score t out law empty h =
      let m = merge-counts new_histogram merge_histogram count bots law empty in
      ground (arith, h, eq_iff s.submission_id "", m.0)
