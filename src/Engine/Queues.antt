-- ===== src/Engine/Queues.antt =====
-- The order book of services/stub/main.go as its clients see it: for each side the list of the
-- resting orders, in the order in which they trade. There is no heap, index, map or time in it.
pub mod Listing
pub mod Drop
pub mod Join
pub mod Take
pub mod Round
pub mod Loop
pub mod Enter
pub mod Find
pub mod Leave
pub mod Stamps
pub mod Refines
pub mod Serve
use obarena.Prelude.{
  ℕ, ◌-◌, String, str_eq, Bool, true, false, not, ◌&&◌, ◌||◌, ltb, leb, if◌then◌else◌, List, [],
  ◌∷◌, ◌++◌, map, Option, none, some,
}
use obarena.Engine.Message.{
  IncomingMessage, FillMessage, Message, ack, fill, cancel_ack, reject, zero_price,
}
use obarena.Engine.Book.{Side, buy, sell, opposite, side_of}
use obarena.Engine.Session.{is_valid_order, positive, quantity_of, Event, message, disconnect}

pub record Entry : Type 0 where
  pub order_id : String
  pub price : ℕ
  pub left : ℕ
  pub session_id : String

pub record Queues : Type 0 where
  pub bids : List Entry
  pub asks : List Entry

abbrev pub no_orders : Queues
no_orders = record { bids = []; asks = [] }

abbrev pub queue : Side → Queues → List Entry
queue buy m = m.bids
queue sell m = m.asks

abbrev pub with_queue : Side → List Entry → Queues → Queues
with_queue buy es m = record m { bids = es }
with_queue sell es m = record m { asks = es }

-- An answer, without the time.
pub data Reply : Type 0 where
  acked : String → Reply
  filled : String → ℕ → ℕ → ℕ → Reply
  cancelled : String → Reply
  rejected : String → String → Reply

-- An order that comes in.
pub record Taker : Type 0 where
  pub order_id : String
  pub order_type : String
  pub price : ℕ

-- The order trades with a price of side `s`.
unfoldable pub meets : Side → Taker → ℕ → Bool
meets sell t p = not (str_eq t.order_type "limit") || leb p t.price
meets buy t p = not (str_eq t.order_type "limit") || leb t.price p

-- The fills of an order for `left` on side `s`, what is left of it, and what is left of the side.
unfoldable pub take : Side → Taker → ℕ → List Entry → List Reply × ℕ × List Entry
unfolding meets
take s t left [] = ([], left, [])
take s t left (e ∷ es) = elim (ltb 0 left && meets s t e.price) [
  | false ↦ ([], left, e ∷ es)
  | true ↦ elim (ltb left e.left) [
    | true ↦ (filled t.order_id left e.price 0 ∷ [], 0, record e { left = e.left - left } ∷ es)
    | false ↦
        let (fills, none_or_more, rest) = take s t (left - e.left) es in
        (filled t.order_id e.left e.price (left - e.left) ∷ fills, none_or_more, rest)
  ]
]

-- A price of side `s` that comes before another.
unfoldable pub better : Side → ℕ → ℕ → Bool
better buy p q = ltb q p
better sell p q = ltb p q

-- Behind the orders with the same price or a better one.
unfoldable pub join : Side → Entry → List Entry → List Entry
unfolding better
join s e [] = e ∷ []
join s e (f ∷ es) =
    let rest = join s e es in if better s e.price f.price then e ∷ f ∷ es else f ∷ rest

-- Without the entries that the test is true of.
unfoldable pub drop_if : (Entry → Bool) → List Entry → List Entry
drop_if p [] = []
drop_if p (e ∷ es) = let rest = drop_if p es in if p e then rest else e ∷ rest

abbrev pub drop : (Entry → Bool) → Queues → Queues
drop p m = record { bids = drop_if p m.bids; asks = drop_if p m.asks }

abbrev pub is_named : String → Entry → Bool
is_named k e = str_eq e.order_id k

abbrev pub is_from : String → Entry → Bool
is_from id e = str_eq e.session_id id

unfoldable pub find : String → List Entry → Option Entry
find k [] = none
find k (e ∷ es) = if is_named k e then some e else find k es

abbrev pub find_order : String → Queues → Option Entry
find_order k m = find k (m.bids ++ m.asks)

-- What is left of an order rests if it is a limit order.
unfoldable pub settle : Side → Taker → String → ℕ → Queues → List Reply × Queues
unfolding join
settle s t id left m =
    if not (ltb 0 left)
    then ([], m)
    else if str_eq t.order_type "market"
    then (rejected t.order_id "no_liquidity" ∷ [], m)
    else (
      [],
      with_queue s
          (join s (record { order_id = t.order_id; price = t.price; left = left; session_id = id })
            (queue s m))
          m,
    )

abbrev pub taker : IncomingMessage → Taker
taker msg = record { order_id = msg.order_id; order_type = msg.order_type; price = msg.price }

unfoldable pub submit_on : Side → String → IncomingMessage → Queues → List Reply × Queues
unfolding take settle
submit_on s id msg m =
    let (fills, left, rest) =
      take (opposite s) (taker msg) (quantity_of msg.quantity) (queue (opposite s) m) in
    let (last, m') = settle s (taker msg) id left (with_queue (opposite s) rest m) in
    (acked msg.order_id ∷ fills ++ last, m')

unfoldable pub submit : String → IncomingMessage → Queues → List Reply × Queues
unfolding submit_on
submit id msg m = submit_on (side_of msg.side) id msg m

unfoldable pub order : String → IncomingMessage → Queues → List Reply × Queues
unfolding submit find
order id msg m =
    if not (is_valid_order msg)
    then (rejected msg.order_id "invalid_order" ∷ [], m)
    else if not (positive msg.quantity)
    then (rejected msg.order_id "invalid_quantity" ∷ [], m)
    else if str_eq msg.order_type "limit" && leb msg.price zero_price
    then (rejected msg.order_id "invalid_price" ∷ [], m)
    else elim (find_order msg.order_id m) [
      | some _ ↦ (rejected msg.order_id "duplicate_order_id" ∷ [], m)
      | none ↦ submit id msg m
    ]

unfoldable pub cancel : String → IncomingMessage → Queues → List Reply × Queues
unfolding find drop_if
cancel id msg m = elim (find_order msg.order_id m) [
  | none ↦ (rejected msg.order_id "unknown_order" ∷ [], m)
  | some e ↦
      if is_from id e
      then (cancelled msg.order_id ∷ [], drop (is_named msg.order_id) m)
      else (rejected msg.order_id "unauthorized" ∷ [], m)
]

unfoldable pub react : Event → Queues → List Reply × Queues
unfolding order cancel
react (message id msg) m =
    if str_eq msg.type "order"
    then order id msg m
    else if str_eq msg.type "cancel"
    then cancel id msg m
    else (rejected msg.order_id "unknown_type" ∷ [], m)
react (disconnect id) m = ([], drop (is_from id) m)

-- The answers to each event, and the queues after the last.
unfoldable pub react_all : List Event → Queues → List (List Reply) × Queues
unfolding react
react_all [] m = ([], m)
react_all (e ∷ es) m =
    let (replies, m') = react e m in let (more, m'') = react_all es m' in (replies ∷ more, m'')

-- A message of the engine, without the time.
unfoldable pub reply : Message → Reply
reply (ack k ts) = acked k
reply (fill f) = filled f.order_id f.filled_qty f.fill_price f.remaining
reply (cancel_ack k ts) = cancelled k
reply (reject k reason ts) = rejected k reason
