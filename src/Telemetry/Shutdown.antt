-- ===== src/Telemetry/Shutdown.antt =====
-- How services/telemetry-ingester stops: `run` of main.go from the end of the consumer on, `Close`
-- and the last case of `flushLoop` in ingester.go.
pub mod Final
mod Tests
use obarena.Prelude.{ℕ, Bool, true, false, if◌then◌else◌, List}
use obarena.Telemetry.Score.{Float64, Limits}
use obarena.Telemetry.Ingester.{Ingester, Attempt, flush}
use obarena.Telemetry.Consumer.{Consumer, Decoded, Move, run}

-- What is open while the process runs.
pub record Process (F : Type 0) : Type 0 where
  pub consumer : Consumer F
  pub loop_runs : Bool
  pub database_open : Bool
  pub redis_open : Bool

module _ {F : Type 0} where
  -- `<-i.closeCh` in `flushLoop`: a last flush in a context under that of the process, of which
  -- the argument says whether it has ended; `tries` is what its attempts meet.
  unfoldable pub close_loop : (Bool → List Attempt) → Process F → Process F
  close_loop tries p = record p {
    consumer = record p.consumer {
      ingester = flush (tries p.consumer.has_ended) p.consumer.ingester;
    };
    loop_runs = false;
  }

  -- `Close` waits for the loop and then closes the connections.
  unfoldable pub close : (Bool → List Attempt) → Process F → Process F
  unfolding close_loop
  close tries p = record (close_loop tries p) { database_open = false; redis_open = false }

  -- `Close` is deferred in `run`, which returns when the loop of the consumer has.
  unfoldable pub shut_down : (Bool → List Attempt) → Process F → Process F
  unfolding close
  shut_down tries p = if p.consumer.has_ended then close tries p else p
