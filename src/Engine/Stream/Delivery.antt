-- ===== src/Engine/Stream/Delivery.antt =====
-- What a session of services/stub/main.go is sent, and in which order.
use mathlib.Core.Path.{subst, ap₂}
use obarena.Prelude.{
  ◌≤◌, ◌≡◌, refl, sym, ◌∙◌, ap, inl, inr, String, Bool, true, false, Bool-cases, if-intro, ltb,
  ltb→lt, arith, List, [], ◌∷◌, ◌++◌, length, length-append, append_assoc, append-nil,
}
use obarena.Engine.Message.{IncomingMessage, Message}
use obarena.Engine.Book.{Orderbook}
use obarena.Engine.Session.{handle_message}
use obarena.Engine.Stream.{
  Stream, Phase, reading, ending, ended, Move, reads, read_fails, sends, writes, pings,
  context_ends, sees_done, waits, step, run, open_stream, capacity, is_idle, read_message,
  end_reading, send_pending, write_buffer, wait_for_writer, in_writer,
}

-- What has been written, then what was lost, what the channel holds, and what is to be sent.
abbrev pub on_the_way : Stream → List Message
on_the_way t = t.written ++ (t.lost ++ (t.buffer ++ t.pending))

-- Nothing is out of order, dropped or doubled, the channel is within its capacity, one message at
-- most is lost and none while the writer runs, and nothing is sent on the closed channel.
pub record IsDelivering (t : Stream) : Type 0 where
  pub in_order : on_the_way t ≡ t.answered
  pub within : length t.buffer ≤ capacity
  pub lost_once : length t.lost ≤ 1
  pub lost_last : t.writer_runs ≡ true → t.lost ≡ []
  pub no_late_send : t.is_closed ≡ true → t.pending ≡ []
  pub open_reading : t.phase ≡ reading → t.is_closed ≡ false

pub idle-cases :
    (p : Phase) (ms : List Message)
    → (elim p [ reading ↦ elim ms [ [] ↦ true | _ ∷ _ ↦ false ] | ending ↦ false | ended ↦ false ])
      ≡ true
    → (p ≡ reading) × (ms ≡ [])
idle-cases reading [] h = (refl, refl)
idle-cases reading (m ∷ ms) h = absurd (ground arith)
idle-cases ending ms h = absurd (ground arith)
idle-cases ended ms h = absurd (ground arith)

all_answered :
    (t : Stream) (replies : List Message)
    → on_the_way t ≡ t.answered
    → t.pending ≡ []
    → t.written ++ (t.lost ++ (t.buffer ++ replies)) ≡ t.answered ++ replies
all_answered t replies ordered none_left =
    let sent : t.answered ≡ t.written ++ (t.lost ++ t.buffer) =
      sym ordered
      ∙ ap (λ q. t.written ++ (t.lost ++ (t.buffer ++ q))) none_left
      ∙ ap (λ q. t.written ++ (t.lost ++ q)) (append-nil t.buffer) in
    sym (
      ap (λ q. q ++ replies) sent
      ∙ append_assoc t.written (t.lost ++ t.buffer) replies
      ∙ ap (λ q. t.written ++ q) (append_assoc t.lost t.buffer replies))

module _ (id : String) (t : Stream) (d : IsDelivering t) where
  read_message-IsDelivering : (msg : IncomingMessage) → IsDelivering (read_message id msg t)
  unfolding read_message
  read_message-IsDelivering msg = elim (Bool-cases (is_idle t)) [
    | inr busy ↦ rw busy d
    | inl idle ↦
        let (is_reading, none_left) = idle-cases t.phase t.pending idle in
        rw idle (record {
          in_order = all_answered t (handle_message id msg t.book).0 d.in_order none_left;
          within = d.within;
          lost_once = d.lost_once;
          lost_last = d.lost_last;
          no_late_send = λ closed. absurd (ground (arith, d.open_reading is_reading, closed));
          open_reading = d.open_reading;
        })
  ]

  end_reading-IsDelivering : IsDelivering (end_reading id t)
  unfolding end_reading
  end_reading-IsDelivering = elim (Bool-cases (is_idle t)) [
    | inr busy ↦ rw busy d
    | inl idle ↦
        let (is_reading, none_left) = idle-cases t.phase t.pending idle in
        rw idle (record {
          in_order = d.in_order;
          within = d.within;
          lost_once = d.lost_once;
          lost_last = d.lost_last;
          no_late_send = λ closed. none_left;
          open_reading = λ e. cc;
        })
  ]

  sends-IsDelivering : (ms : List Message) → t.pending ≡ ms → IsDelivering (send_pending ms t)
  unfolding send_pending
  sends-IsDelivering [] e = d
  sends-IsDelivering (m ∷ ms) e = elim (Bool-cases (ltb (length t.buffer) capacity)) [
    | inr full ↦ rw full d
    | inl room ↦ rw room (record {
      in_order =
          ap (λ q. t.written ++ (t.lost ++ q))
            (append_assoc t.buffer (m ∷ []) ms ∙ ap (λ q. t.buffer ++ q) (sym e))
          ∙ d.in_order;
      within =
          omega (arith, length-append t.buffer (m ∷ []), ltb→lt (length t.buffer) capacity room);
      lost_once = d.lost_once;
      lost_last = d.lost_last;
      no_late_send = λ closed. let none_left = sym e ∙ d.no_late_send closed in cc;
      open_reading = d.open_reading;
    })
  ]

  first_to_write :
      (m : Message) (ms : List Message)
      → t.writer_runs ≡ true
      → t.buffer ≡ m ∷ ms
      → t.written ++ (m ∷ (ms ++ t.pending)) ≡ t.answered
  first_to_write m ms runs e =
      ap₂ (λ l b. t.written ++ (l ++ (b ++ t.pending))) (sym (d.lost_last runs)) (sym e)
      ∙ d.in_order

  rest_within : (m : Message) (ms : List Message) → t.buffer ≡ m ∷ ms → length ms ≤ capacity
  rest_within m ms e =
      let within = subst (λ b. length b ≤ capacity) e d.within in omega (arith, within)

  writes-IsDelivering :
      (ok : Bool) (ms : List Message)
      → t.writer_runs ≡ true
      → t.buffer ≡ ms
      → IsDelivering (write_buffer ok ms t)
  unfolding write_buffer
  writes-IsDelivering ok [] runs e =
      if-intro IsDelivering t.is_closed (record t { writer_runs = false }) t
        (λ closed. record {
          in_order = d.in_order;
          within = d.within;
          lost_once = d.lost_once;
          lost_last = λ stopped. cc;
          no_late_send = λ _. d.no_late_send closed;
          open_reading = λ is_reading. absurd (ground (arith, closed, d.open_reading is_reading));
        })
        (λ _. d)
  writes-IsDelivering true (m ∷ ms) runs e = record {
    in_order =
        append_assoc t.written (m ∷ []) (t.lost ++ (ms ++ t.pending))
        ∙ ap (λ q. t.written ++ (m ∷ (q ++ (ms ++ t.pending)))) (d.lost_last runs)
        ∙ first_to_write m ms runs e;
    within = rest_within m ms e;
    lost_once = d.lost_once;
    lost_last = d.lost_last;
    no_late_send = d.no_late_send;
    open_reading = d.open_reading;
  }
  writes-IsDelivering false (m ∷ ms) runs e = record {
    in_order =
        ap (λ q. t.written ++ ((q ++ m ∷ []) ++ (ms ++ t.pending))) (d.lost_last runs)
        ∙ first_to_write m ms runs e;
    within = rest_within m ms e;
    lost_once = rw (d.lost_last runs) (omega arith);
    lost_last = λ stopped. cc;
    no_late_send = d.no_late_send;
    open_reading = d.open_reading;
  }

  writer-IsDelivering :
      (act : Stream → Stream)
      → (t.writer_runs ≡ true → IsDelivering (act t))
      → IsDelivering (in_writer act t)
  writer-IsDelivering act f = if-intro IsDelivering t.writer_runs (act t) t f (λ _. d)

  stops-IsDelivering : IsDelivering (record t { writer_runs = false })
  stops-IsDelivering = record {
    in_order = d.in_order;
    within = d.within;
    lost_once = d.lost_once;
    lost_last = λ runs. cc;
    no_late_send = d.no_late_send;
    open_reading = d.open_reading;
  }

  waits-IsDelivering : (p : Phase) → IsDelivering (wait_for_writer p t)
  unfolding wait_for_writer
  waits-IsDelivering reading = d
  waits-IsDelivering ended = d
  waits-IsDelivering ending =
      if-intro IsDelivering t.writer_runs t (record t { phase = ended }) (λ _. d)
        (λ stopped. record {
          in_order = d.in_order;
          within = d.within;
          lost_once = d.lost_once;
          lost_last = d.lost_last;
          no_late_send = d.no_late_send;
          open_reading = λ q. cc;
        })

  step-IsDelivering : (m : Move) → IsDelivering (step id m t)
  unfolding step
  step-IsDelivering (reads msg) = read_message-IsDelivering msg
  step-IsDelivering read_fails = end_reading-IsDelivering
  step-IsDelivering sends = sends-IsDelivering t.pending refl
  step-IsDelivering (writes ok) =
      writer-IsDelivering (λ u. write_buffer ok u.buffer u)
        (λ runs. writes-IsDelivering ok t.buffer runs refl)
  step-IsDelivering (pings true) = d
  step-IsDelivering (pings false) = stops-IsDelivering
  step-IsDelivering context_ends = record {
    in_order = d.in_order;
    within = d.within;
    lost_once = d.lost_once;
    lost_last = d.lost_last;
    no_late_send = d.no_late_send;
    open_reading = d.open_reading;
  }
  step-IsDelivering sees_done =
      if-intro IsDelivering t.context_done (record t { writer_runs = false }) t
        (λ _. stops-IsDelivering) (λ _. d)
  step-IsDelivering waits = waits-IsDelivering t.phase

run-IsDelivering :
    (id : String) (ms : List Move) (t : Stream) → IsDelivering t → IsDelivering (run id ms t)
unfolding run
run-IsDelivering id [] t d = d
run-IsDelivering id (m ∷ ms) t d = run-IsDelivering id ms (step id m t) (step-IsDelivering id t d m)

-- However the reader and the writer of a session take turns, and whatever fails: what has been
-- written, the one message at most whose write failed, what the channel holds (256 at most), and
-- what is still to be sent are together all the answers of the handlers, in their order. While the
-- writer runs no message is lost, and after the channel is closed nothing is left to be sent on it.
pub open_stream-IsDelivering :
    (id : String) (ob : Orderbook) (ms : List Move) → IsDelivering (run id ms (open_stream ob))
open_stream-IsDelivering id ob ms = run-IsDelivering id ms (open_stream ob) (
    unfold open_stream in
    record {
      in_order = refl;
      within = omega arith;
      lost_once = omega arith;
      lost_last = λ _. refl;
      no_late_send = λ _. refl;
      open_reading = λ _. refl;
    })
