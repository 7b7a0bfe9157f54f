-- ===== src/Engine/Session.antt =====
-- The sessions of services/stub/main.go: `handleOrder`, `handleCancel` and the switch of the read
-- loop. A handler returns what it sends, in order; the sections under the lock run one at a time.
pub mod Sound
pub mod Replies
use Prim.Native.Char.{code}
use Prim.Native.String.{len}
use obarena.Prelude.{
  ℕ, ℤ, pos, negsuc, String, str_eq, Bool, true, false, ◌&&◌, ◌||◌, ltb, leb, ◌==◌, not,
  if◌then◌else◌, lookup, List, [], ◌∷◌, ◌++◌, map, none, some,
}
use obarena.Engine.Clock.{now}
use obarena.Engine.Message.{IncomingMessage, Message, ack, fill, cancel_ack, reject, zero_price}
use obarena.Engine.Book.{Order, Orderbook, allocate, cancel_session, match_order, rest, remove}

is_order_id_char : ℕ → Bool
is_order_id_char c =
    leb b'A' c && leb c b'Z'
    || leb b'a' c && leb c b'z'
    || leb b'0' c && leb c b'9'
    || c == b'/'
    || c == b'-'

all_order_id_chars : String → Bool
all_order_id_chars String.[] = true
all_order_id_chars (String.◌∷◌ c s) = is_order_id_char (code c) && all_order_id_chars s

-- `orderIDRegex`, ^[A-Za-z0-9/-]+$
unfoldable pub matches_order_id : String → Bool
unfolding is_order_id_char all_order_id_chars
matches_order_id s = not (str_eq s "") && all_order_id_chars s

unfoldable pub is_valid_order : IncomingMessage → Bool
unfolding matches_order_id
is_valid_order msg =
    not (len msg.order_id == 0)
    && leb (len msg.order_id) 64
    && matches_order_id msg.order_id
    && (str_eq msg.side "buy" || str_eq msg.side "sell")
    && (str_eq msg.order_type "limit" || str_eq msg.order_type "market")

-- An `int64` that is not 0 or less.
abbrev pub positive : ℤ → Bool
positive (pos n) = ltb 0 n
positive (negsuc _) = false

abbrev pub quantity_of : ℤ → ℕ
quantity_of (pos n) = n
quantity_of (negsuc _) = 0

-- A message with a timestamp of its own.
abbrev pub send_now : (ℕ → Message) → Orderbook → List Message × Orderbook
send_now m ob = let (ts, clock) = now ob.clock in (m ts ∷ [], record ob { clock = clock })

abbrev pub order_of : String → IncomingMessage → ℕ → Order
order_of id msg ts = record {
  order_id = msg.order_id;
  side = msg.side;
  order_type = msg.order_type;
  price = msg.price;
  quantity = quantity_of msg.quantity;
  entered_at = ts;
  session_id = id;
}

-- After the fills: the rest of a market order is rejected, that of a limit order rests.
unfoldable pub finish_order : ℕ → Orderbook → List Message × Orderbook
finish_order r ob =
    if str_eq (ob.objs r).order_type "market" && ltb 0 (ob.remaining r)
    then send_now (reject (ob.objs r).order_id "no_liquidity") ob
    else if ltb 0 (ob.remaining r)
    then ([], rest r ob)
    else ([], ob)

-- The section under the lock for an order whose id is new.
unfoldable pub accept_order : String → IncomingMessage → Orderbook → List Message × Orderbook
unfolding finish_order
accept_order id msg ob =
    let (ts, clock) = now ob.clock in
    let r = ob.next in
    let entered = allocate (order_of id msg ts) (record ob { clock = clock }) in
    let (fills, matched) = match_order r entered in
    let (last, finished) = finish_order r matched in
    (ack msg.order_id ts ∷ map fill fills ++ last, finished)

unfoldable pub handle_order : String → IncomingMessage → Orderbook → List Message × Orderbook
unfolding is_valid_order accept_order
handle_order id msg ob =
    if not (is_valid_order msg)
    then send_now (reject msg.order_id "invalid_order") ob
    else if not (positive msg.quantity)
    then send_now (reject msg.order_id "invalid_quantity") ob
    else if str_eq msg.order_type "limit" && leb msg.price zero_price
    then send_now (reject msg.order_id "invalid_price") ob
    else elim (lookup msg.order_id ob.orders) [
      | some _ ↦ send_now (reject msg.order_id "duplicate_order_id") ob
      | none ↦ accept_order id msg ob
    ]

unfoldable pub handle_cancel : String → IncomingMessage → Orderbook → List Message × Orderbook
handle_cancel id msg ob = elim (lookup msg.order_id ob.orders) [
  | none ↦ send_now (reject msg.order_id "unknown_order") ob
  | some r ↦
      if not (str_eq (ob.objs r).session_id id)
      then send_now (reject msg.order_id "unauthorized") ob
      else send_now (cancel_ack msg.order_id) (remove msg.order_id ob)
]

-- The `switch` on `msg.Type`.
unfoldable pub handle_message : String → IncomingMessage → Orderbook → List Message × Orderbook
unfolding handle_order handle_cancel
handle_message id msg ob =
    if str_eq msg.type "order"
    then handle_order id msg ob
    else if str_eq msg.type "cancel"
    then handle_cancel id msg ob
    else send_now (reject msg.order_id "unknown_type") ob

-- What the engine does: a message of a session, or the end of one.
pub data Event : Type 0 where
  message : String → IncomingMessage → Event
  disconnect : String → Event

unfoldable pub serve : Event → Orderbook → Orderbook
unfolding handle_message
serve (message id msg) ob = (handle_message id msg ob).1
serve (disconnect id) ob = cancel_session id ob

unfoldable pub serve_all : List Event → Orderbook → Orderbook
unfolding serve
serve_all [] ob = ob
serve_all (e ∷ es) ob = serve_all es (serve e ob)
