-- ===== src/Engine/Stream.antt =====
-- One session of services/stub/main.go between its reader and its writer: the loop and the deferred
-- calls of `streamHandler`, `writeLoop`, and the channel `send`.
--
-- A schedule says which goroutine moves, and what the connection answers. A move that the code
-- cannot make at that point does nothing.
pub mod Delivery
pub mod Blocked
mod Tests
use obarena.Prelude.{
  ℕ, ◌&&◌, String, Bool, true, false, not, ltb, if◌then◌else◌, List, [], ◌∷◌, ◌++◌, length,
}
use obarena.Engine.Message.{IncomingMessage, Message}
use obarena.Engine.Book.{Orderbook, cancel_session}
use obarena.Engine.Session.{handle_message}

-- `make(chan any, 256)`
abbrev pub capacity : ℕ
capacity = 256

-- The reader: in its loop, or in the deferred function, or done.
pub data Phase : Type 0 where
  reading ending ended : Phase

-- `buffer` is what the channel holds, `pending` what the handler still has to send, `written` what
-- has gone over the connection and `lost` the message whose write failed. `answered` is all that
-- the handlers have returned, for reference: no step reads it.
pub record Stream : Type 0 where
  pub book : Orderbook
  pub phase : Phase
  pub pending : List Message
  pub buffer : List Message
  pub is_closed : Bool
  pub writer_runs : Bool
  pub context_done : Bool
  pub written : List Message
  pub lost : List Message
  pub answered : List Message

pub data Move : Type 0 where
  -- `wsjson.Read` gives a message, or fails
  reads : IncomingMessage → Move
  read_fails : Move
  -- `s.send <- m`
  sends : Move
  -- `<-s.send`, and whether `wsjson.Write` succeeds
  writes : Bool → Move
  -- the ticker, and whether `Ping` succeeds
  pings : Bool → Move
  -- the context of the request ends, and the writer sees it
  context_ends sees_done : Move
  -- `s.wg.Wait()` returns
  waits : Move

unfoldable pub open_stream : Orderbook → Stream
open_stream ob = record {
  book = ob;
  phase = reading;
  pending = [];
  buffer = [];
  is_closed = false;
  writer_runs = true;
  context_done = false;
  written = [];
  lost = [];
  answered = [];
}

abbrev pub is_idle : Stream → Bool
is_idle t = elim t.phase [
  | reading ↦ elim t.pending [ [] ↦ true | _ ∷ _ ↦ false ]
  | ending ↦ false
  | ended ↦ false
]

-- The switch on the message: the handler's answers are to be sent.
unfoldable pub read_message : String → IncomingMessage → Stream → Stream
read_message id msg t =
    let (replies, ob) = handle_message id msg t.book in
    if is_idle t
    then record t { book = ob; pending = replies; answered = t.answered ++ replies }
    else t

-- The deferred function up to its wait: `cancelSession`, then `close(s.send)`.
unfoldable pub end_reading : String → Stream → Stream
end_reading id t =
    if is_idle t
    then record t { book = cancel_session id t.book; phase = ending; is_closed = true }
    else t

-- A send blocks while the channel is full.
unfoldable pub send_pending : List Message → Stream → Stream
send_pending [] t = t
send_pending (m ∷ ms) t =
    if ltb (length t.buffer) capacity
    then record t { buffer = t.buffer ++ m ∷ []; pending = ms }
    else t

-- `msg, ok := <-s.send` in the writer: of a closed channel it gives what is left first.
unfoldable pub write_buffer : Bool → List Message → Stream → Stream
write_buffer ok [] t = if t.is_closed then record t { writer_runs = false } else t
write_buffer ok (m ∷ ms) t =
    if ok
    then record t { buffer = ms; written = t.written ++ m ∷ [] }
    else record t { buffer = ms; lost = t.lost ++ m ∷ []; writer_runs = false }

abbrev pub in_writer : (Stream → Stream) → Stream → Stream
in_writer act t = if t.writer_runs then act t else t

unfoldable pub wait_for_writer : Phase → Stream → Stream
wait_for_writer ending t = if t.writer_runs then t else record t { phase = ended }
wait_for_writer _ t = t

unfoldable pub step : String → Move → Stream → Stream
unfolding read_message end_reading send_pending write_buffer wait_for_writer
step id (reads msg) t = read_message id msg t
step id read_fails t = end_reading id t
step id sends t = send_pending t.pending t
step id (writes ok) t = in_writer (λ u. write_buffer ok u.buffer u) t
step id (pings ok) t = if ok then t else record t { writer_runs = false }
step id context_ends t = record t { context_done = true }
step id sees_done t = if t.context_done then record t { writer_runs = false } else t
step id waits t = wait_for_writer t.phase t

unfoldable pub run : String → List Move → Stream → Stream
unfolding step
run id [] t = t
run id (m ∷ ms) t = run id ms (step id m t)
