-- ===== src/Runner/Main.antt =====
-- `run` of main.go of services/bot-runner: the settings, the bots, the quorum that it waits for, and
-- the phases of a test.
pub mod Quorum
pub mod Publish
use obarena.Prelude.{
  ℕ, zero, suc, ◌+◌, ◌*◌, ◌/◌, ◌%◌, ◌^◌, String, str_eq, Bool, true, false, leb, if◌then◌else◌, ℤ,
  pos, negsuc, length, List, [], ◌∷◌, Option, none, some, ◌&&◌, not,
}
use obarena.Config.{Env, env_str, env_int}
use obarena.Config.Brokers.{broker_list}
use obarena.Runner.Sequence.{Sequence, sequences}

pub record Settings : Type 0 where
  pub endpoint : String
  pub num_bots : ℤ
  pub duration_sec : ℤ
  pub team_name : String
  pub submission_id : String
  pub test_run_id : String
  pub brokers : List String
  pub topic : String
  pub schema_registry_url : String

unfoldable pub read_settings : Env → Settings
unfolding env_str env_int broker_list
read_settings env = record {
  endpoint = env_str env "TARGET_ENDPOINT" "ws://localhost:8080/stream";
  num_bots = env_int env "NUM_BOTS" (pos 10);
  duration_sec = env_int env "DURATION_SECONDS" (pos 30);
  team_name = env_str env "TEAM_NAME" "unknown";
  submission_id = env_str env "TEST_RUN_ID" "";
  test_run_id = env_str env "TEST_RUN_ID" "";
  brokers = broker_list (env_str env "REDPANDA_BROKERS" "");
  topic = env_str env "KAFKA_TOPIC" "bot.metrics";
  schema_registry_url =
      env_str env "SCHEMA_REGISTRY_URL" "http://redpanda.platform.svc.cluster.local:8081";
}

-- `seqs[i%len(seqs)]`
unfoldable pub nth_sequence : ℕ → List Sequence → Option Sequence
nth_sequence i [] = none
nth_sequence zero (s ∷ ss) = some s
nth_sequence (suc i) (s ∷ ss) = nth_sequence i ss

unfoldable pub sequence_of : ℕ → Option Sequence
unfolding nth_sequence
sequence_of i = nth_sequence (i % length (sequences i)) (sequences i)

-- What the `select` of the warm-up loop meets: a bot is ready, the 15 seconds are over, or the test
-- is cancelled.
pub data Select : Type 0 where
  ready warmup_timeout test_done : Select

-- `int(float64(numBots) * 0.8)`: for fewer than 2^50 bots the product is rounded to a number with
-- this integer part.
abbrev pub quorum_of : ℕ → ℕ
quorum_of num_bots = 4 * num_bots / 5

-- The loop with its `i` counted down: the bots that were ready when it is left. The schedule may
-- end in it.
unfoldable pub warmup_loop : ℕ → ℕ → ℕ → List Select → ℕ
warmup_loop zero quorum ready_count es = ready_count
warmup_loop (suc n) quorum ready_count [] = ready_count
warmup_loop (suc n) quorum ready_count (ready ∷ es) =
    let rest = warmup_loop n quorum (ready_count + 1) es in
    if leb quorum (ready_count + 1) then ready_count + 1 else rest
warmup_loop (suc n) quorum ready_count (_ ∷ es) = ready_count

unfoldable pub warm_up : ℕ → List Select → ℕ
unfolding warmup_loop
warm_up num_bots es = warmup_loop num_bots (quorum_of num_bots) 0 es
