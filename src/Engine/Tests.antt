-- ===== src/Engine/Tests.antt =====
-- The engine on concrete messages, and its theorems at them.
use obarena.Prelude.{
  ◌%◌, ℕ, ◌+◌, ◌*◌, ◌^◌, ◌≡◌, refl, pos, String, lookup, none, List, [], ◌∷◌, map, if◌then◌else◌,
  str_eq, ◌&&◌, insert, delete,
}
use obarena.Engine.Heap
use obarena.Engine.Clock.{Clock, now}
use obarena.Engine.Message.{IncomingMessage, Message, ack, fill}
use obarena.Engine.Book.{
  Order, Orderbook, buy, new_order_book, allocate, cancel_session, match_order, rest, remove, less,
  bid_less, ask_less, side_of,
}
use obarena.Engine.Book.Rest.{allocate-IsValid, allocate-IsEntering}
use obarena.Engine.Book.Shrinks.{IsEntering}
use obarena.Engine.Book.Match.{IsMatched, taken_side, match_order-IsMatched}
use obarena.Engine.Book.Cancel.{is_of_session}
use obarena.Engine.Session.{
  handle_order, handle_cancel, handle_message, message, Event, serve_all, is_valid_order,
}
use obarena.Engine.Levels.{levels}
use obarena.Engine.Levels.Sums.{quantity_at, resting_at, quantity_at-levels}
use obarena.Engine.Session.Sound.{IsSound, new_order_book-IsSound, serve_all-IsSound}
use obarena.Engine.Queues.{Queues, no_orders, react, react_all, reply, acked, filled}
use obarena.Engine.Queues.Refines.{Refines}
use obarena.Engine.Queues.Serve.{answers, serve_all-Refines}
use obarena.Engine.Session.Replies.{Outcome, handle_order-Outcome, orders-handle_cancel}

abbrev clock : Clock
clock = record { last = 0; wall = λ n. 100 * n; ticks = 1 }

abbrev price : ℕ → ℕ
price n = 2 ^ 63 + n

abbrev order : String → String → String → ℕ → ℕ → IncomingMessage
order k side type p qty = record {
  type = "order";
  order_id = k;
  side = side;
  order_type = type;
  price = price p;
  quantity = pos qty;
}

abbrev cancel : String → IncomingMessage
cancel k = record {
  type = "cancel";
  order_id = k;
  side = "";
  order_type = "";
  price = 0;
  quantity = pos 0;
}

-- Two bids of one session and one of another.
abbrev script : List Event
script =
    message "s1" (order "lo" "buy" "limit" 500 5)
    ∷ message "s1" (order "hi" "buy" "limit" 501 5)
    ∷ message "s2" (order "own" "buy" "limit" 499 4)
    ∷ []

abbrev book : Orderbook
book = serve_all script (new_order_book clock)

book-IsSound : IsSound book
book-IsSound = serve_all-IsSound script (new_order_book clock) (new_order_book-IsSound clock)

-- Opening this opens the engine.
replies : String → IncomingMessage → Orderbook → List Message
unfolding serve_all new_order_book handle_message lookup insert delete now allocate match_order rest
    remove cancel_session less bid_less ask_less Heap.push Heap.pop Heap.fix Heap.remove
replies id msg ob = (handle_message id msg ob).0

-- A sale of 7 takes the higher bid whole, then part of the lower.
sale :
    replies "s3" (order "ask" "sell" "limit" 500 7) book
    ≡ ack "ask" 400
      ∷ fill (record {
        order_id = "ask";
        filled_qty = 5;
        fill_price = price 501;
        remaining = 2;
        timestamp = 500;
      })
      ∷ fill (record {
        order_id = "ask";
        filled_qty = 2;
        fill_price = price 500;
        remaining = 0;
        timestamp = 600;
      })
      ∷ []
unfolding replies
sale = refl

-- The queues of the script, and what they give to the sale.
abbrev queues : Queues
queues = (react_all script no_orders).1

sale_on_queues :
    (react (message "s3" (order "ask" "sell" "limit" 500 7)) queues).0
    ≡ acked "ask" ∷ filled "ask" 5 (price 501) 2 ∷ filled "ask" 2 (price 500) 0 ∷ []
unfolding react_all react is_valid_order side_of
sale_on_queues = refl

queues_after_sale :
    (react (message "s3" (order "ask" "sell" "limit" 500 7)) queues).1.bids
    ≡ record { order_id = "lo"; price = price 500; left = 3; session_id = "s1" }
      ∷ record { order_id = "own"; price = price 499; left = 4; session_id = "s2" }
      ∷ []
unfolding react_all react is_valid_order side_of
queues_after_sale = refl

serve_all-Refines_example :
    (map (map reply) (answers script (new_order_book clock)) ≡ (react_all script no_orders).0)
    × Refines (serve_all script (new_order_book clock)) (react_all script no_orders).1
serve_all-Refines_example = serve_all-Refines clock script

serve_all-IsSound_example : IsSound (serve_all script (new_order_book clock))
serve_all-IsSound_example =
    serve_all-IsSound script (new_order_book clock) (new_order_book-IsSound clock)

abbrev ask : Order
ask = record {
  order_id = "ask";
  side = "sell";
  order_type = "limit";
  price = price 500;
  quantity = 7;
  entered_at = 400;
  session_id = "s3";
}

ask_unknown : lookup "ask" book.orders ≡ none
unfolding replies
ask_unknown = refl

abbrev entered : Orderbook
entered = allocate ask book

ask-IsEntering : IsEntering entered book.next
ask-IsEntering = allocate-IsEntering ask book book-IsSound.valid ask_unknown

match_order-IsMatched_example :
    IsMatched
      (taken_side book.next entered)
      book.next
      entered
      (match_order book.next entered).0
      (match_order book.next entered).1
match_order-IsMatched_example =
    match_order-IsMatched book.next entered (allocate-IsValid ask book book-IsSound.valid)
      ask-IsEntering

handle_order-Outcome_example :
    Outcome "ask" "limit" 7
      (handle_order "s3" (order "ask" "sell" "limit" 500 7) book).0
      (handle_order "s3" (order "ask" "sell" "limit" 500 7) book).1
unfolding is_valid_order
handle_order-Outcome_example =
    handle_order-Outcome "s3" (order "ask" "sell" "limit" 500 7) book book-IsSound
      (refl, refl, refl) ask_unknown

orders-handle_cancel_example : lookup "hi" (handle_cancel "s2" (cancel "hi") book).1.orders ≡ (
    if is_of_session "s2" book.objs (lookup "hi" book.orders) && str_eq "hi" "hi"
    then none
    else lookup "hi" book.orders)
orders-handle_cancel_example = orders-handle_cancel "s2" (cancel "hi") book "hi" book-IsSound

quantity_at-levels_example :
    quantity_at (price 500) (levels buy book) % 2 ^ 64
    ≡ resting_at book.objs book.remaining book.bids.at (price 500) book.bids.len % 2 ^ 64
quantity_at-levels_example = quantity_at-levels buy book (price 500)
