-- ===== src/Telemetry/Consumer/Tests.antt =====
-- The consumer of services/telemetry-ingester at concrete input: a number is a count of twentieths.
use obarena.Prelude.{ℕ, ◌≡◌, refl, true, false, List, [], ◌∷◌, ◌++◌}
use obarena.Telemetry.Ingester.Batches.{kept}
use obarena.Telemetry.Tests.{twentieths, limits, metrics, empty}
use obarena.Telemetry.Consumer.{bot_metrics, Consumer, Move, takes, commits, ends, flushes, run}
use obarena.Telemetry.Consumer.Ingests.{events, run_keeps_events}

abbrev idle_consumer : Consumer ℕ
idle_consumer = record { ingester = empty; position = 0; committed = 0; has_ended = false }

-- A record, one without a header, a commit, a flush that is written, and the end.
abbrev moves : List Move
moves =
    takes (0 ∷ 0 ∷ 0 ∷ 0 ∷ 1 ∷ 9 ∷ []) true "now"
    ∷ takes (1 ∷ 0 ∷ 0 ∷ 0 ∷ 1 ∷ 9 ∷ []) true "now"
    ∷ commits true
    ∷ flushes (record { is_cancelled = false; succeeds = true } ∷ [])
    ∷ ends
    ∷ []

run_keeps_events_example :
    kept (run twentieths (λ value. bot_metrics metrics) limits moves idle_consumer).ingester
    ≡ kept empty ++ events twentieths (λ value. bot_metrics metrics) limits moves
run_keeps_events_example =
    run_keeps_events twentieths (λ value. bot_metrics metrics) limits moves idle_consumer refl
