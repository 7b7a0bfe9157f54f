-- ===== src/Orchestrator/Consumer.antt =====
-- `Run` of consumer.go of services/bot-orchestrator on one partition of the topic: the polling loop,
-- a goroutine for each sandbox.ready, and the offset of the group.
--
-- Kafka keeps the offset after the record that was committed last, and a consumer that starts
-- goes on from there.
pub mod Passed
pub mod Lost
mod Tests
use obarena.Prelude.{
  ℕ, is_among, zero, suc, ◌+◌, ◌==◌, ◌||◌, Bool, true, false, if◌then◌else◌, List, [], ◌∷◌, Option,
  none, some,
}
use obarena.Orchestrator.Jobs.{SandboxReadyEvent}

-- What a record decodes to, if it does.
pub data Payload : Type 0 where
  broken other_type other_event : Payload
  sandbox_ready : SandboxReadyEvent → Payload

-- `position` is the offset to poll next and `committed` the offset of the group; `running` has the
-- offsets whose goroutine has not returned, `handled` those whose handler has.
pub record Consumer : Type 0 where
  pub position : ℕ
  pub committed : ℕ
  pub running : List ℕ
  pub handled : List ℕ

pub data Move : Type 0 where
  polls : Move
  -- the handler of an offset returns, and whether the commit succeeds
  returns : ℕ → Bool → Move
  -- it panics, and is recovered
  panics : ℕ → Move
  -- the process ends and starts again
  restarts : Move

unfoldable pub new_consumer : Consumer
new_consumer = record { position = 0; committed = 0; running = []; handled = [] }

unfoldable pub payload_at : ℕ → List Payload → Option Payload
payload_at o [] = none
payload_at zero (p ∷ ps) = some p
payload_at (suc o) (p ∷ ps) = payload_at o ps

unfoldable pub leaves : ℕ → List ℕ → List ℕ
leaves o [] = []
leaves o (p ∷ ps) = let rest = leaves o ps in if o == p then rest else p ∷ rest

-- The callback for a record: a goroutine for a sandbox.ready, nothing for another one.
unfoldable pub take_record : Option Payload → Consumer → Consumer
take_record none c = c
take_record (some (sandbox_ready e)) c = record c {
  position = c.position + 1;
  running = c.position ∷ c.running;
}
take_record (some _) c = record c { position = c.position + 1 }

-- `CommitRecords` after the handler
unfoldable pub finish_record : ℕ → Bool → Consumer → Consumer
finish_record o ok c = record c {
  committed = if ok then o + 1 else c.committed;
  running = leaves o c.running;
  handled = o ∷ c.handled;
}

unfoldable pub step : List Payload → Move → Consumer → Consumer
unfolding payload_at leaves take_record finish_record
step log polls c = take_record (payload_at c.position log) c
step log (returns o ok) c = if is_among o c.running then finish_record o ok c else c
step log (panics o) c = record c { running = leaves o c.running }
step log restarts c = record c { position = c.committed; running = [] }

unfoldable pub run : List Payload → List Move → Consumer → Consumer
unfolding step
run log [] c = c
run log (m ∷ ms) c = run log ms (step log m c)
