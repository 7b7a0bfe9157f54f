-- ===== src/Telemetry/Shutdown/Tests.antt =====
-- The end of services/telemetry-ingester at concrete input: a number is a count of twentieths.
use mathlib.Core.List.{cons≢nil}
use obarena.Prelude.{ℕ, ◌≡◌, refl, Bool, true, false, not, List, [], ◌∷◌}
use obarena.Telemetry.Score.{compute_score}
use obarena.Telemetry.Ingester.{Attempt, EventScorePair}
use obarena.Telemetry.Tests.{twentieths, limits, metrics, empty}
use obarena.Telemetry.Shutdown.{Process, shut_down}
use obarena.Telemetry.Shutdown.Final.{shut_down_drops}

abbrev waiting : EventScorePair ℕ
waiting = record { event = metrics; score = compute_score twentieths limits metrics }

-- An event has come, and then the signal.
abbrev stopped : Process ℕ
stopped = record {
  consumer = record {
    ingester = record empty { event_buffer = waiting ∷ [] };
    position = 1;
    committed = 1;
    has_ended = true;
  };
  loop_runs = true;
  database_open = true;
  redis_open = true;
}

-- PostgreSQL answers, but not in a context that has ended.
abbrev tries : Bool → List Attempt
tries has_ended = record { is_cancelled = has_ended; succeeds = not has_ended } ∷ []

shut_down_drops_example :
    let q = shut_down tries stopped in
    (q.consumer.ingester.batches ≡ record { pairs = waiting ∷ []; written = false } ∷ [])
    × (q.consumer.ingester.event_buffer ≡ [])
    × (q.database_open ≡ false)
    × (q.redis_open ≡ false)
shut_down_drops_example = shut_down_drops tries stopped ((refl, refl), tt) refl cons≢nil
