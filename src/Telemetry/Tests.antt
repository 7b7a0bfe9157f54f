-- ===== src/Telemetry/Tests.antt =====
-- The ingester at concrete input: a number is a count of twentieths.
use obarena.Prelude.{
  ℕ, ◌+◌, ◌-◌, ◌*◌, ◌/◌, ◌≡◌, refl, leb, ℤ, pos, negsuc, true, false, List, [], ◌∷◌, lookup, some,
  insert, delete,
}
use obarena.Telemetry.Score.{Float64, BotMetrics, Limits}
use obarena.Telemetry.Ingester.{
  Ingester, Step, handles, flushes, run, step, handle, flush, flush_buffer, write_attempts, retry,
}
use obarena.Telemetry.Ingester.Batches.{arrived}
use obarena.Telemetry.Ingester.Listed.{IsListed, run-IsListed}
use obarena.Telemetry.Table.{Database, write_batches, write_batch, write_pair, on_conflict}
use obarena.Telemetry.Table.Agree.{
  composite, score_shown, team, first_team, all_accepted, all_written, run_writes,
}

abbrev natural : ℤ → ℕ
natural (pos n) = n
natural (negsuc _) = 0

abbrev pub twentieths : Float64 ℕ
twentieths = record {
  of_int = natural;
  add = λ x y. x + y;
  sub = λ x y. x - y;
  mul = λ x y. x * y / 20;
  div = λ x y. x;
  leb = leb;
  zero = 0;
  one = 20;
  w20 = 4;
  w30 = 6;
  w35 = 7;
  w50 = 10;
  thousand = 20000;
}

abbrev pub metrics : BotMetrics ℕ
metrics = record {
  submission_id = "s1";
  test_run_id = "s1";
  team_name = "red";
  ack_p50_us = pos 5;
  ack_p90_us = pos 6;
  ack_p99_us = pos 7;
  tps = 30;
  orders_sent = pos 9;
  rejects_recv = pos 0;
  correctness_score = 20;
  duration_ms = pos 60;
  emitted_at = pos 1;
}

abbrev pub limits : Limits ℕ
limits = record { max_acceptable_latency_us = 50; max_acceptable_tps = 1 }

abbrev pub empty : Ingester ℕ
empty = record {
  event_buffer = [];
  batches = [];
  redis = record { leaderboard = []; leaderboard_details = []; leaderboard_updates = [] };
}

-- Two events, with a flush between them of which the second attempt is written.
abbrev schedule : List (Step ℕ)
schedule =
    handles true "now" metrics
    ∷ flushes (
        record { is_cancelled = false; succeeds = false }
        ∷ record { is_cancelled = false; succeeds = true }
        ∷ [])
    ∷ handles false "later" metrics
    ∷ []

empty-IsListed : IsListed twentieths empty.redis
unfolding lookup
empty-IsListed = record { listed = λ id z there. absurd (cc) }

run-IsListed_example : IsListed twentieths (run twentieths limits schedule empty).redis
run-IsListed_example = run-IsListed twentieths limits schedule empty empty-IsListed

-- Two events of two teams under one id, and a flush whose second attempt is written.
abbrev renamed : List (Step ℕ)
renamed =
    handles true "now" metrics
    ∷ handles true "later" (record metrics { team_name = "blue" })
    ∷ flushes (
        record { is_cancelled = false; succeeds = false }
        ∷ record { is_cancelled = false; succeeds = true }
        ∷ [])
    ∷ []

abbrev no_tables : Database ℕ
no_tables = record { telemetry_events = []; submission_scores = []; readings = 0 }

abbrev ran : Ingester ℕ
ran = run twentieths limits renamed empty

run_writes_example :
    (composite (lookup "s1" (write_batches pos ran.batches no_tables).submission_scores)
      ≡ score_shown (lookup "s1" ran.redis.leaderboard_details))
    × (team (lookup "s1" (write_batches pos ran.batches no_tables).submission_scores)
        ≡ first_team "s1"
            (arrived twentieths limits renamed)
            (team (lookup "s1" no_tables.submission_scores)))
unfolding run step handle flush flush_buffer write_attempts retry lookup composite score_shown
    all_accepted all_written
run_writes_example =
    run_writes twentieths limits pos renamed empty no_tables "s1" refl refl refl refl refl refl

team_stays :
    team (lookup "s1" (write_batches pos ran.batches no_tables).submission_scores) ≡ some "red"
unfolding run step handle flush flush_buffer write_attempts retry lookup team write_batches
    write_batch write_pair on_conflict insert delete
team_stays = refl
