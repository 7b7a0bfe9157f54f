-- ===== src/Telemetry/Ingester.antt =====
-- The ingester of services/telemetry-ingester: `Handle`, `updateLeaderboard`, `flush` and the script
-- that writes to Redis, in ingester.go. What PostgreSQL, Redis and the context answer is an argument.
pub mod Batches
pub mod Listed
use obarena.Prelude.{
  ℕ, zero, suc, ◌+◌, String, Bool, true, false, if◌then◌else◌, ℤ, Dict, insert, List, [], ◌∷◌, ◌++◌,
  Option, none, some,
}
use obarena.Telemetry.Score.{Float64, BotMetrics, Limits, clamp, compute_score}

pub record EventScorePair (F : Type 0) : Type 0 where
  pub event : BotMetrics F
  pub score : F

pub record LeaderboardEntry (F : Type 0) : Type 0 where
  pub submission_id : String
  pub team_name : String
  pub score : F
  pub tps : F
  pub ack_p50_us : ℤ
  pub ack_p90_us : ℤ
  pub ack_p99_us : ℤ
  pub orders_sent : ℤ
  pub rejects_recv : ℤ
  pub correctness : F
  pub duration_ms : ℤ
  pub timestamp : String

-- The three keys of the script, the newest update first.
pub record Redis (F : Type 0) : Type 0 where
  pub leaderboard : Dict F
  pub leaderboard_details : Dict (LeaderboardEntry F)
  pub leaderboard_updates : List (LeaderboardEntry F)

-- A batch that a flush took off the buffer, and whether it was written or dropped.
pub record Batch (F : Type 0) : Type 0 where
  pub pairs : List (EventScorePair F)
  pub written : Bool

-- `batches` is what has been flushed, the newest last.
pub record Ingester (F : Type 0) : Type 0 where
  pub event_buffer : List (EventScorePair F)
  pub batches : List (Batch F)
  pub redis : Redis F

-- What an attempt of a flush meets: whether the context has ended before it, and whether
-- `writeBatch` returns no error.
pub record Attempt : Type 0 where
  pub is_cancelled : Bool
  pub succeeds : Bool

-- The attempts from the second on, `n` of them at most: the first does not wait.
unfoldable pub retry : ℕ → List Attempt → Bool
retry zero tries = false
retry (suc n) [] = false
retry (suc n) (a ∷ tries) =
    let rest = retry n tries in if a.is_cancelled then false else if a.succeeds then true else rest

-- Whether the batch gets written: three attempts.
unfoldable pub write_attempts : List Attempt → Bool
unfolding retry
write_attempts [] = false
write_attempts (a ∷ tries) = let rest = retry 2 tries in if a.succeeds then true else rest

module _ {F : Type 0} where
  unfoldable pub flush_buffer : List Attempt → List (EventScorePair F) → Ingester F → Ingester F
  unfolding write_attempts
  flush_buffer tries [] i = i
  flush_buffer tries (p ∷ ps) i = record i {
    event_buffer = [];
    batches = i.batches ++ record { pairs = p ∷ ps; written = write_attempts tries } ∷ [];
  }

  unfoldable pub flush : List Attempt → Ingester F → Ingester F
  unfolding flush_buffer
  flush tries i = flush_buffer tries i.event_buffer i

  -- `updateLeaderboardScript`
  unfoldable pub run_script : F → String → LeaderboardEntry F → Redis F → Redis F
  run_script score member entry r = record {
    leaderboard = insert member score r.leaderboard;
    leaderboard_details = insert member entry r.leaderboard_details;
    leaderboard_updates = entry ∷ r.leaderboard_updates;
  }

module _ {F : Type 0} (f : Float64 F) where
  abbrev pub entry_of : String → BotMetrics F → F → LeaderboardEntry F
  entry_of timestamp e score = record {
    submission_id = e.submission_id;
    team_name = e.team_name;
    score = score;
    tps = e.tps;
    ack_p50_us = e.ack_p50_us;
    ack_p90_us = e.ack_p90_us;
    ack_p99_us = e.ack_p99_us;
    orders_sent = e.orders_sent;
    rejects_recv = e.rejects_recv;
    correctness = clamp f e.correctness_score;
    duration_ms = e.duration_ms;
    timestamp = timestamp;
  }

  -- `ok` is whether Redis runs the script.
  unfoldable pub update_leaderboard : Bool → String → BotMetrics F → F → Redis F → Redis F
  unfolding run_script
  update_leaderboard ok timestamp e score r =
      if ok
      then run_script (f.mul score f.thousand) e.submission_id (entry_of timestamp e score) r
      else r

  unfoldable pub handle : Limits F → Bool → String → BotMetrics F → Ingester F → Ingester F
  unfolding compute_score update_leaderboard
  handle l ok timestamp e i =
      let score = compute_score f l e in
      record i {
        event_buffer = i.event_buffer ++ record { event = e; score = score } ∷ [];
        redis = update_leaderboard ok timestamp e score i.redis;
      }

pub data Step (F : Type 0) : Type 0 where
  handles : Bool → String → BotMetrics F → Step F
  flushes : List Attempt → Step F

module _ {F : Type 0} (f : Float64 F) where
  unfoldable pub step : Limits F → Step F → Ingester F → Ingester F
  unfolding handle flush
  step l (handles ok timestamp e) i = handle f l ok timestamp e i
  step l (flushes tries) i = flush tries i

  unfoldable pub run : Limits F → List (Step F) → Ingester F → Ingester F
  unfolding step
  run l [] i = i
  run l (s ∷ ss) i = run l ss (step l s i)
