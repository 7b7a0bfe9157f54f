-- ===== src/Engine/Stream/Tests.antt =====
-- A session of services/stub/main.go on concrete moves.
use obarena.Prelude.{ℕ, zero, suc, ◌*◌, ◌≡◌, refl, pos, false, true, List, [], ◌∷◌}
use obarena.Engine.Clock.{now}
use obarena.Engine.Message.{IncomingMessage, Message, ack, reject}
use obarena.Engine.Book.{Orderbook, new_order_book, cancel_session, remove}
use obarena.Engine.Session.{handle_message}
use obarena.Engine.Stream.{
  Stream, Move, reads, read_fails, sends, writes, waits, ended, reading, run, open_stream,
}
use obarena.Engine.Stream.Delivery.{IsDelivering, open_stream-IsDelivering}

abbrev book : Orderbook
unfolding new_order_book
book = new_order_book (record { last = 0; wall = λ n. 100 * n; ticks = 1 })

abbrev ping : IncomingMessage
ping = record {
  type = "ping";
  order_id = "a";
  side = "";
  order_type = "";
  price = 0;
  quantity = pos 0;
}

abbrev moves : List Move
moves =
    reads ping
    ∷ sends
    ∷ reads ping
    ∷ writes true
    ∷ sends
    ∷ read_fails
    ∷ writes true
    ∷ writes true
    ∷ waits
    ∷ []

abbrev last_stream : Stream
unfolding run open_stream handle_message now cancel_session remove new_order_book
last_stream = run "s" moves (open_stream book)

both_written :
    last_stream.written ≡ reject "a" "unknown_type" 100 ∷ reject "a" "unknown_type" 200 ∷ []
unfolding last_stream
both_written = refl

closed_and_left : last_stream.phase ≡ ended
unfolding last_stream
closed_and_left = refl

open_stream-IsDelivering_example : IsDelivering (run "s" moves (open_stream book))
open_stream-IsDelivering_example = open_stream-IsDelivering "s" book moves

abbrev acks : ℕ → List Message
acks zero = []
acks (suc n) = ack "a" n ∷ acks n

-- The writer has failed at the first of 258 answers.
abbrev stuck : Stream
stuck = record {
  book = book;
  phase = reading;
  pending = acks 1;
  buffer = acks 256;
  is_closed = false;
  writer_runs = false;
  context_done = false;
  written = [];
  lost = ack "a" 300 ∷ [];
  answered = ack "a" 300 ∷ acks 256;
}
