-- ===== src/Sandbox/Consumer.antt =====
-- `Run` of consumer.go of services/sandbox-orchestrator on one partition of the topic: the polls, the
-- records of each, and the offset of the group. What Kafka and Kubernetes answer is an argument.
pub mod Passed
pub mod Skipped
mod Tests
use obarena.Prelude.{ℕ, ◌+◌, Bool, true, false, not, if◌then◌else◌, length, List, [], ◌∷◌, ◌++◌}
use obarena.Sandbox.{BuildComplete, Answers, State, handle_record}

-- What a record decodes to, if it does.
pub data Payload : Type 0 where
  broken other_type other_event : Payload
  build_complete : BuildComplete → Payload

-- A record, with what is answered while it is handled, and whether its commit succeeds.
pub record Delivery : Type 0 where
  pub payload : Payload
  pub answers : Answers
  pub commits : Bool

-- A poll: the context has ended; or some partition, perhaps another one, has an error, and the
-- context ends in the second that follows, or not; or there is none. It brings the records of this
-- partition.
pub data Poll : Type 0 where
  cancelled : Poll
  fails : Bool → List Delivery → Poll
  brings : List Delivery → Poll

-- `position` is the offset that the client polls next; `handled` are the offsets whose
-- `handleRecord` has returned no error, in their order.
pub record Consumer : Type 0 where
  pub state : State
  pub position : ℕ
  pub committed : ℕ
  pub handled : List ℕ

pub data Ending : Type 0 where
  -- the polls are used up
  polling : Ending
  context_ended record_failed commit_failed : Ending

-- A record that is no build.complete is done with.
unfoldable pub handle_payload : Answers → Payload → State → Bool × State
handle_payload a (build_complete e) s = handle_record a e s
handle_payload a _ s = (true, s)

abbrev pub done : ℕ → State → Consumer → Consumer
done offset s c = record c { state = s; handled = c.handled ++ offset ∷ [] }

unfoldable pub take_records : ℕ → List Delivery → Consumer → Ending × Consumer
unfolding handle_payload
take_records offset [] c = (polling, c)
take_records offset (d ∷ ds) c =
    let (ok, s) = handle_payload d.answers d.payload c.state in
    let rest = take_records (offset + 1) ds (record (done offset s c) { committed = offset + 1 }) in
    if not ok
    then (record_failed, record c { state = s })
    else if d.commits
    then rest
    else (commit_failed, done offset s c)

abbrev pub goes_on : Ending → Bool
goes_on polling = true
goes_on _ = false

abbrev pub polled : List Delivery → Consumer → Consumer
polled ds c = record c { position = c.position + length ds }

-- The loop: a poll with an error is not looked at further.
unfoldable pub poll_loop : List Poll → Consumer → Ending × Consumer
unfolding take_records
poll_loop [] c = (polling, c)
poll_loop (cancelled ∷ ps) c = (context_ended, c)
poll_loop (fails ends ds ∷ ps) c =
    let rest = poll_loop ps (polled ds c) in if ends then (context_ended, polled ds c) else rest
poll_loop (brings ds ∷ ps) c =
    let (ending, c') = take_records c.position ds (polled ds c) in
    let rest = poll_loop ps c' in if goes_on ending then rest else (ending, c')
