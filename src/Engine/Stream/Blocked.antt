-- ===== src/Engine/Stream/Blocked.antt =====
-- A session of services/stub/main.go whose writer has returned while its reader still has much to
-- send.
use obarena.Prelude.{◌+◌, ◌<◌, ◌≤◌, ◌≡◌, refl, String, false, arith, List, [], ◌∷◌, length}
use obarena.Engine.Message.{IncomingMessage, Message}
use obarena.Engine.Book.{Orderbook}
use obarena.Engine.Stream.{
  Stream, reading, reads, sends, writes, step, run, capacity, read_message, send_pending,
  write_buffer, open_stream,
}
use obarena.Engine.Session.{handle_message}

-- The writer is gone, and there is more to send than the channel has room for.
pub record IsBlocked (ob : Orderbook) (t : Stream) : Type 0 where
  pub same_book : t.book ≡ ob
  pub in_loop : t.phase ≡ reading
  pub no_writer : t.writer_runs ≡ false
  pub too_much : capacity < length t.buffer + length t.pending
  pub within : length t.buffer ≤ capacity

-- More than 257 answers to one message, the first of which is not written.
reaches-IsBlocked :
    (id : String) (msg : IncomingMessage) (ob : Orderbook) (m : Message) (ms : List Message)
    → (handle_message id msg ob).0 ≡ m ∷ ms
    → capacity < length ms
    → IsBlocked
        (handle_message id msg ob).1
        (run id (reads msg ∷ sends ∷ writes false ∷ []) (open_stream ob))
unfolding run step open_stream read_message send_pending write_buffer
reaches-IsBlocked id msg ob m ms e many = rw e (record {
  same_book = refl;
  in_loop = refl;
  no_writer = refl;
  too_much = omega (arith, many);
  within = omega arith;
})
