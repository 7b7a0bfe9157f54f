-- ===== src/Telemetry/Consumer.antt =====
-- `Run` of consumer.go of services/telemetry-ingester on one partition, beside the flushes of the
-- ingester. What the bytes of a record decode to is an argument.
pub mod Ingests
mod Tests
use obarena.Prelude.{
  ℕ, ◌+◌, ◌==◌, ◌||◌, ◌&&◌, String, Bool, true, false, not, ltb, length, if◌then◌else◌, List, [],
  ◌∷◌,
}
use obarena.Telemetry.Score.{Float64, BotMetrics, Limits}
use obarena.Telemetry.Ingester.{Ingester, Attempt, handle, flush}

pub data Decoded (F : Type 0) : Type 0 where
  broken other_type : Decoded F
  bot_metrics : BotMetrics F → Decoded F

-- `position` is the offset to poll next, `committed` the one of the group; `has_ended` is whether
-- the loop has returned.
pub record Consumer (F : Type 0) : Type 0 where
  pub ingester : Ingester F
  pub position : ℕ
  pub committed : ℕ
  pub has_ended : Bool

pub data Move : Type 0 where
  -- the callback takes a record; whether Redis runs the script, and the time
  takes : List ℕ → Bool → String → Move
  -- `CommitUncommittedOffsets` after a poll, and whether it succeeds
  commits : Bool → Move
  -- `PollFetches` returns after the context has ended
  ends : Move
  -- the ticker of the ingester
  flushes : List Attempt → Move

abbrev first_is_zero : List ℕ → Bool
first_is_zero [] = false
first_is_zero (b ∷ bs) = b == 0

-- The check of the confluent header, and its opposite.
unfoldable pub is_malformed : List ℕ → Bool
is_malformed value = ltb (length value) 5 || not (first_is_zero value)

module _ {F : Type 0} (f : Float64 F) (decode : List ℕ → Decoded F) where
  unfoldable pub handle_decoded : Limits F → Bool → String → Decoded F → Ingester F → Ingester F
  handle_decoded l ok timestamp (bot_metrics e) i = handle f l ok timestamp e i
  handle_decoded l ok timestamp _ i = i

  unfoldable pub take_record : Limits F → List ℕ → Bool → String → Consumer F → Consumer F
  unfolding is_malformed handle_decoded
  take_record l value ok timestamp c = record c {
    ingester =
        if is_malformed value
        then c.ingester
        else handle_decoded l ok timestamp (decode value) c.ingester;
    position = c.position + 1;
  }

  unfoldable pub step : Limits F → Move → Consumer F → Consumer F
  unfolding take_record
  step l (takes value ok timestamp) c =
      if c.has_ended then c else take_record l value ok timestamp c
  step l (commits ok) c = if ok && not c.has_ended then record c { committed = c.position } else c
  step l ends c = record c { has_ended = true }
  step l (flushes tries) c = record c { ingester = flush tries c.ingester }

  unfoldable pub run : Limits F → List Move → Consumer F → Consumer F
  unfolding step
  run l [] c = c
  run l (m ∷ ms) c = run l ms (step l m c)
