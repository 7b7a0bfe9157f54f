-- ===== src/Runner/Bot.antt =====
-- The load bot of services/bot-runner: `Bot.Run` of bot.go with the counters of metrics.go.
--
-- The writer, the reader and the goroutine that clears old orders share the map and the counters
-- under a lock, so they are one schedule of events. What the network answers is part of an event.
-- A histogram is of a type `H`. The deadline and a cancelled context only end the schedule.
pub mod InFlight
pub mod Resend
use obarena.Prelude.{
  ℕ, zero, suc, ◌+◌, ◌-◌, ◌*◌, ◌/◌, ◌^◌, ℤ, pos, negsuc, String, str_eq, Bool, true, false, ltb,
  ◌==◌, if◌then◌else◌, Dict, lookup, insert, delete, List, [], ◌∷◌, Option, none, some,
}
use obarena.Engine.Message
use obarena.Engine.Message.{zero_price}
use obarena.Runner.Sequence.{StepKind, step_order, step_cancel, Step, order_id}

pub record IncomingMessage : Type 0 where
  pub type : String
  pub order_id : String
  pub reason : String
  pub filled_qty : ℤ
  pub fill_price : ℕ
  pub remaining : ℤ
  pub timestamp : ℕ

pub record BotMetrics (H : Type 0) : Type 0 where
  pub ack_latency : H
  pub fill_latency : H
  pub orders_sent : ℕ
  pub acks_recv : ℕ
  pub fills_recv : ℕ
  pub rejects_recv : ℕ
  pub stale_orders : ℕ

-- Where the writer is: before a connection, before a round of the sequence, in a round.
pub data Phase : Type 0 where
  dialing : Phase
  between : Phase
  writing : List Step → Phase

-- `pending` has the time at which an order was sent. `written` is what has gone out, the newest first.
pub record Bot (H : Type 0) : Type 0 where
  pub id : ℕ
  pub steps : List Step
  pub metrics : BotMetrics H
  pub pending : Dict ℕ
  pub in_flight : ℤ
  pub iteration : ℕ
  pub tag_to_id : Dict String
  pub phase : Phase
  pub written : List Message.IncomingMessage

abbrev pub succ_int : ℤ → ℤ
succ_int (pos n) = pos (n + 1)
succ_int (negsuc zero) = pos 0
succ_int (negsuc (suc n)) = negsuc n

abbrev pub pred_int : ℤ → ℤ
pred_int (pos zero) = negsuc 0
pred_int (pos (suc n)) = pos n
pred_int (negsuc n) = negsuc (n + 1)

-- `inFlight.Load() > 20`
abbrev pub is_full : ℤ → Bool
is_full (pos n) = ltb 20 n
is_full (negsuc _) = false

-- `Remaining == 0`
abbrev pub is_zero : ℤ → Bool
is_zero (pos n) = n == 0
is_zero (negsuc _) = false

-- The messages that the two templates make, as the engine reads them.
abbrev pub order_message : String → Step → Message.IncomingMessage
order_message oid s = record {
  type = "order";
  order_id = oid;
  side = s.side;
  order_type = s.order_type;
  price = s.price;
  quantity = s.quantity;
}

abbrev pub cancel_message : String → Message.IncomingMessage
cancel_message oid = record {
  type = "cancel";
  order_id = oid;
  side = "";
  order_type = "";
  price = zero_price;
  quantity = pos 0;
}

module _ {H : Type 0} where
  abbrev pub stale : Bot H → Bot H
  stale b = record b { metrics = record b.metrics { stale_orders = b.metrics.stale_orders + 1 } }

  -- `delete(pending, id)` and `inFlight.Add(-1)`
  abbrev pub settle : String → Bot H → Bot H
  settle oid b = record b { pending = delete oid b.pending; in_flight = pred_int b.in_flight }

  -- The loop over `pending` of the goroutine that clears it, in nanoseconds.
  unfoldable pub clear_loop : ℕ → Dict ℕ → Bot H → Bot H
  clear_loop now [] b = b
  clear_loop now ((oid, sent_at) ∷ m) b =
      clear_loop now m (if ltb (5 * 10 ^ 9) (now - sent_at) then stale (settle oid b) else b)

  unfoldable pub clear : ℕ → Bot H → Bot H
  unfolding clear_loop
  clear now b = clear_loop now b.pending b

  -- `conn.Write`, and what the writer does after it.
  unfoldable pub write : Bool → Message.IncomingMessage → List Step → Bot H → Bot H
  write ok msg todo b =
      if ok
      then record b { written = msg ∷ b.written; phase = writing todo }
      else record (stale b) { phase = dialing }

  -- The order is pending before it is written.
  abbrev pub register : ℕ → String → Bot H → Bot H
  register now oid b = record b {
    pending = insert oid now b.pending;
    in_flight = succ_int b.in_flight;
    metrics = record b.metrics { orders_sent = b.metrics.orders_sent + 1 };
  }

  -- While the bot is full the writer stays where it is.
  unfoldable pub send_order : ℕ → Bool → Step → List Step → Bot H → Bot H
  unfolding write order_id
  send_order now ok s todo b =
      let oid = order_id b.id b.iteration s.tag in
      let named = record b { tag_to_id = insert s.tag oid b.tag_to_id } in
      if is_full b.in_flight
      then named
      else write ok (order_message oid s) todo (register now oid named)

  unfoldable pub send_cancel : Bool → Step → List Step → Bot H → Bot H
  unfolding write
  send_cancel ok s todo b = elim (lookup s.cancel_tag b.tag_to_id) [
    | none ↦ record b { phase = writing todo }
    | some oid ↦ write ok (cancel_message oid) todo b
  ]

  unfoldable pub send_step : ℕ → Bool → StepKind → Step → List Step → Bot H → Bot H
  unfolding send_order send_cancel
  send_step now ok step_order s todo b = send_order now ok s todo b
  send_step now ok step_cancel s todo b = send_cancel ok s todo b

pub data Event : Type 0 where
  dials : Bool → Event
  begins : Bool → Event
  writes : ℕ → Bool → Event
  receives : ℕ → IncomingMessage → Event
  clears : ℕ → Event

module _ {H : Type 0} (record_value : ℕ → H → H) where
  abbrev pub record_ack : ℕ → BotMetrics H → BotMetrics H
  record_ack us m = record m {
    ack_latency = record_value us m.ack_latency;
    acks_recv = m.acks_recv + 1;
  }

  abbrev pub record_fill : ℕ → BotMetrics H → BotMetrics H
  record_fill us m = record m {
    fill_latency = record_value us m.fill_latency;
    fills_recv = m.fills_recv + 1;
  }

  -- The `switch` on the type of a message for an order that is pending.
  unfoldable pub answer : ℕ → IncomingMessage → ℕ → Bot H → Bot H
  answer now msg sent_at b =
      let us = (now - sent_at) / 1000 in
      let acked = record_ack us b.metrics in
      let filled = record_fill us b.metrics in
      let counted = record b { metrics = record filled { fills_recv = filled.fills_recv + 1 } } in
      if str_eq msg.type "ack"
      then record b { metrics = record acked { acks_recv = acked.acks_recv + 1 } }
      else if str_eq msg.type "fill"
      then (if is_zero msg.remaining then settle msg.order_id counted else counted)
      else if str_eq msg.type "reject"
      then settle msg.order_id
          (record b { metrics = record b.metrics { rejects_recv = b.metrics.rejects_recv + 1 } })
      else if str_eq msg.type "cancel_ack"
      then settle msg.order_id b
      else b

  unfoldable pub receive : ℕ → IncomingMessage → Bot H → Bot H
  unfolding answer
  receive now msg b = elim (lookup msg.order_id b.pending) [
    | none ↦ b
    | some sent_at ↦ answer now msg sent_at b
  ]

  -- The writer acts by where it is; out of turn an event does nothing.
  unfoldable pub act : Event → Phase → Bot H → Bot H
  unfolding receive clear send_step
  act (dials ok) dialing b = if ok then record b { phase = between } else b
  act (begins failed) between b =
      if failed then record (stale b) { phase = dialing } else record b { phase = writing b.steps }
  act (writes now ok) (writing []) b = record b { iteration = b.iteration + 1; phase = between }
  act (writes now ok) (writing (s ∷ todo)) b = send_step now ok s.kind s todo b
  act (receives now msg) _ b = receive now msg b
  act (clears now) _ b = clear now b
  act _ _ b = b

  unfoldable pub step : Event → Bot H → Bot H
  unfolding act
  step e b = act e b.phase b

  unfoldable pub run : List Event → Bot H → Bot H
  unfolding step
  run [] b = b
  run (e ∷ es) b = run es (step e b)
