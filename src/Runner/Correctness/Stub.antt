-- ===== src/Runner/Correctness/Stub.antt =====
-- The correctness bot against the reference engine.
pub mod Passes
use obarena.Prelude.{
  ℕ, ℤ, pos, String, Bool, true, false, List, [], ◌∷◌, ◌++◌, map, length, Option, none, some,
}
use obarena.Engine.Message
use obarena.Engine.Message.{Message, ack, fill, cancel_ack, reject, zero_price}
use obarena.Engine.Book.{Orderbook, cancel_session}
use obarena.Engine.Session.{handle_message}
use obarena.Engine.Levels.{handle_orderbook}
use obarena.Runner.Bot.{IncomingMessage}
use obarena.Runner.Correctness.{Service}

-- The engine with the session of the bot, and the messages that it has sent and the bot not read.
pub record Stub : Type 0 where
  pub book : Orderbook
  pub session : String
  pub sent : List IncomingMessage

-- A message as the bot decodes it: a field that the message has not is zero.
abbrev pub decode : Message → IncomingMessage
decode (ack id ts) = record {
  type = "ack";
  order_id = id;
  reason = "";
  filled_qty = pos 0;
  fill_price = zero_price;
  remaining = pos 0;
  timestamp = ts;
}
decode (fill f) = record {
  type = "fill";
  order_id = f.order_id;
  reason = "";
  filled_qty = pos f.filled_qty;
  fill_price = f.fill_price;
  remaining = pos f.remaining;
  timestamp = f.timestamp;
}
decode (cancel_ack id ts) = record {
  type = "cancel_ack";
  order_id = id;
  reason = "";
  filled_qty = pos 0;
  fill_price = zero_price;
  remaining = pos 0;
  timestamp = ts;
}
decode (reject id reason ts) = record {
  type = "reject";
  order_id = id;
  reason = reason;
  filled_qty = pos 0;
  fill_price = zero_price;
  remaining = pos 0;
  timestamp = ts;
}

abbrev pub dial : Stub → Bool × Stub
dial s = (true, record s { sent = [] })

unfoldable pub write : Message.IncomingMessage → Stub → Bool × Stub
write msg s =
    let (replies, book) = handle_message s.session msg s.book in
    (true, record s { book = book; sent = s.sent ++ map decode replies })

-- Without a message the deadline of the step ends the read.
unfoldable pub read_sent : List IncomingMessage → Stub → Option (Option IncomingMessage) × Stub
read_sent [] s = (none, s)
read_sent (m ∷ ms) s = (some (some m), record s { sent = ms })

unfoldable pub query : Stub → Option (ℕ × ℕ) × Stub
query s =
    let (snapshot, book) = handle_orderbook s.book in
    (some (length snapshot.bids, length snapshot.asks), record s { book = book })

-- The end of the connection is the end of the session.
abbrev pub close : Stub → Stub
close s = record s { book = cancel_session s.session s.book; sent = [] }

unfoldable pub stub_service : ℕ → Service Stub
unfolding write read_sent query
stub_service reads = record {
  dial = dial;
  write = write;
  read = λ s. read_sent s.sent s;
  query = query;
  close = close;
  is_cancelled = λ _. false;
  reads = reads;
}
