-- ===== src/Telemetry/Table.antt =====
-- What `writeBatch` of ingester.go of services/telemetry-ingester leaves in PostgreSQL. The
-- statements of a batch are one transaction: a batch that fails writes nothing.
pub mod Agree
use obarena.Prelude.{
  ℕ, ◌+◌, String, true, false, if◌then◌else◌, ℤ, Dict, lookup, insert, List, [], ◌∷◌, ◌++◌, Option,
  none, some,
}
use obarena.Telemetry.Ingester.{EventScorePair, Batch}

-- A row of `telemetry_events`; its order_id is NULL.
pub record TelemetryEvent : Type 0 where
  pub time : ℤ
  pub submission_id : String
  pub bot_id : String
  pub event_type : String
  pub latency_us : ℤ

-- A row of `submission_scores`, whose key is submission_id.
pub record SubmissionScore (F : Type 0) : Type 0 where
  pub team_name : String
  pub p50_us : ℤ
  pub p90_us : ℤ
  pub p99_us : ℤ
  pub tps : F
  pub correctness : F
  pub composite : F
  pub scored_at : ℤ

-- `readings` is how often `time.Now` has been read.
pub record Database (F : Type 0) : Type 0 where
  pub telemetry_events : List TelemetryEvent
  pub submission_scores : Dict (SubmissionScore F)
  pub readings : ℕ

module _ {F : Type 0} where
  abbrev pub event_row : EventScorePair F → TelemetryEvent
  event_row p = record {
    time = p.event.emitted_at;
    submission_id = p.event.submission_id;
    bot_id = p.event.test_run_id;
    event_type = "bot.metrics";
    latency_us = p.event.ack_p90_us;
  }

  abbrev pub score_row : ℤ → EventScorePair F → SubmissionScore F
  score_row now p = record {
    team_name = p.event.team_name;
    p50_us = p.event.ack_p50_us;
    p90_us = p.event.ack_p90_us;
    p99_us = p.event.ack_p99_us;
    tps = p.event.tps;
    correctness = p.event.correctness_score;
    composite = p.score;
    scored_at = now;
  }

  -- `ON CONFLICT (submission_id) DO UPDATE`: all but the name of the team.
  unfoldable pub on_conflict : SubmissionScore F → Option (SubmissionScore F) → SubmissionScore F
  on_conflict row none = row
  on_conflict row (some old) = record row { team_name = old.team_name }

  -- The two statements of a pair.
  unfoldable pub write_pair : (ℕ → ℤ) → EventScorePair F → Database F → Database F
  unfolding on_conflict
  write_pair now p db =
      let id : String = p.event.submission_id in
      record {
        telemetry_events = db.telemetry_events ++ event_row p ∷ [];
        submission_scores =
            insert id (on_conflict (score_row (now db.readings) p) (lookup id db.submission_scores))
              db.submission_scores;
        readings = db.readings + 1;
      }

  unfoldable pub write_batch : (ℕ → ℤ) → List (EventScorePair F) → Database F → Database F
  unfolding write_pair
  write_batch now [] db = db
  write_batch now (p ∷ ps) db = write_batch now ps (write_pair now p db)

  -- What the flushes have written.
  unfoldable pub write_batches : (ℕ → ℤ) → List (Batch F) → Database F → Database F
  unfolding write_batch
  write_batches now [] db = db
  write_batches now (b ∷ bs) db =
      write_batches now bs (if b.written then write_batch now b.pairs db else db)
