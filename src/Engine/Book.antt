-- ===== src/Engine/Book.antt =====
-- The order book of services/stub/main.go: `Orderbook` and its methods.
--
-- Orders are shared between the two heaps and the map, so they are addresses in a memory: the
-- fields that are never written after the order is made are in `objs`, `Remaining` and `index`
-- in memories of their own.
pub mod Less
pub mod Valid
pub mod Changes
pub mod Shrinks
pub mod Uncrossed
pub mod Trade
pub mod Match
pub mod Rest
pub mod Remove
pub mod Cancel
use obarena.Prelude.{
  ℕ, zero, suc, ◌+◌, ◌-◌, ℤ, pos, negsuc, String, str_eq, Bool, true, false, ◌&&◌, ltb, leb, ◌==◌,
  not, if◌then◌else◌, update, Dict, lookup, insert, delete, List, [], ◌∷◌, Option, none, some,
}
use obarena.Engine.Clock.{Clock, now}
use obarena.Engine.Message.{FillMessage}
use obarena.Engine.Heap
use obarena.Engine.Heap.{Heap}

pub record Order : Type 0 where
  pub order_id : String
  pub side : String
  pub order_type : String
  pub price : ℕ
  pub quantity : ℕ
  pub entered_at : ℕ
  pub session_id : String

pub record Slice : Type 0 where
  pub at : ℕ → ℕ
  pub len : ℕ

-- The book, with the clock of the package. Addresses below `next` are in use.
pub record Orderbook : Type 0 where
  pub objs : ℕ → Order
  pub remaining : ℕ → ℕ
  pub index : ℕ → ℤ
  pub next : ℕ
  pub bids : Slice
  pub asks : Slice
  pub orders : Dict ℕ
  pub clock : Clock

pub data Side : Type 0 where
  buy sell : Side

abbrev pub name : Side → String
name buy = "buy"
name sell = "sell"

-- The branch `order.Side == "buy"`, and its `else`.
unfoldable pub side_of : String → Side
side_of s = if str_eq s "buy" then buy else sell

abbrev pub opposite : Side → Side
opposite buy = sell
opposite sell = buy

unfoldable pub bid_less : Order → Order → Bool
bid_less a b =
    if not (a.price == b.price) then ltb b.price a.price else ltb a.entered_at b.entered_at

unfoldable pub ask_less : Order → Order → Bool
ask_less a b =
    if not (a.price == b.price) then ltb a.price b.price else ltb a.entered_at b.entered_at

unfoldable pub less : Side → (ℕ → Order) → ℕ → ℕ → Bool
less buy objs a b = bid_less (objs a) (objs b)
less sell objs a b = ask_less (objs a) (objs b)

abbrev pub slice : Side → Orderbook → Slice
slice s ob = elim s [ buy ↦ ob.bids | sell ↦ ob.asks ]

abbrev pub heap : Side → Orderbook → Heap
heap s ob = record { at = (slice s ob).at; len = (slice s ob).len; index = ob.index }

abbrev pub with_heap : Side → Heap → Orderbook → Orderbook
with_heap s h ob = record ob {
  bids = elim s [ buy ↦ record { at = h.at; len = h.len } | sell ↦ ob.bids ];
  asks = elim s [ buy ↦ ob.asks | sell ↦ record { at = h.at; len = h.len } ];
  index = h.index;
}

unfoldable pub new_order_book : Clock → Orderbook
new_order_book clock = record {
  objs = λ _. record {
    order_id = "";
    side = "";
    order_type = "";
    price = 0;
    quantity = 0;
    entered_at = 0;
    session_id = "";
  };
  remaining = λ _. 0;
  index = λ _. negsuc 0;
  next = 0;
  bids = record { at = λ _. 0; len = 0 };
  asks = record { at = λ _. 0; len = 0 };
  orders = [];
  clock = clock;
}

-- `&Order{…, Remaining: msg.Quantity, index: -1}`
unfoldable pub allocate : Order → Orderbook → Orderbook
allocate o ob = record ob {
  objs = update ob.objs ob.next o;
  remaining = update ob.remaining ob.next o.quantity;
  index = update ob.index ob.next (negsuc 0);
  next = ob.next + 1;
}

unfoldable pub min64 : ℕ → ℕ → ℕ
min64 a b = if ltb a b then a else b

-- A limit order that the best order of side `s` does not satisfy.
unfoldable pub too_far : Side → Order → Order → Bool
too_far sell o best = str_eq o.order_type "limit" && ltb o.price best.price
too_far buy o best = str_eq o.order_type "limit" && ltb best.price o.price

-- `o.Remaining -= qty`
abbrev pub take_from : ℕ → ℕ → Orderbook → Orderbook
take_from r qty ob = record ob { remaining = update ob.remaining r (ob.remaining r - qty) }

-- What happens to the best order of side `s` after a fill.
unfoldable pub after_fill : Side → ℕ → Orderbook → Orderbook
after_fill s best ob =
    if ob.remaining best == 0
    then with_heap s (Heap.pop (less s ob.objs) (heap s ob))
        (record ob { orders = delete (ob.objs best).order_id ob.orders })
    else with_heap s (Heap.fix (less s ob.objs) (heap s ob) 0) ob

-- One round of `match`: the order `r` against the best of side `s`.
unfoldable pub trade : Side → ℕ → Orderbook → FillMessage × Orderbook
unfolding min64 after_fill
trade s r ob =
    let best = (slice s ob).at 0 in
    let qty = min64 (ob.remaining r) (ob.remaining best) in
    let traded = take_from best qty (take_from r qty ob) in
    let (ts, clock) = now ob.clock in
    (
      record {
        order_id = (ob.objs r).order_id;
        filled_qty = qty;
        fill_price = (ob.objs best).price;
        remaining = traded.remaining r;
        timestamp = ts;
      },
      after_fill s best (record traded { clock = clock }),
    )

-- The loop stops: the order is filled, side `s` is empty, or its best order is too far.
unfoldable pub is_done : Side → ℕ → Orderbook → Bool
unfolding too_far
is_done s r ob =
    if ltb 0 (ob.remaining r) && ltb 0 (slice s ob).len
    then too_far s (ob.objs r) (ob.objs ((slice s ob).at 0))
    else true

unfoldable pub match_loop : ℕ → Side → ℕ → Orderbook → List FillMessage × Orderbook
match_loop zero s r ob = ([], ob)
match_loop (suc fuel) s r ob = elim (is_done s r ob) [
  | true ↦ ([], ob)
  | false ↦
      let (fill, ob') = trade s r ob in
      let (fills, ob'') = match_loop fuel s r ob' in (fill ∷ fills, ob'')
]

-- Every round but the last takes an order off the book.
unfoldable pub match_order : ℕ → Orderbook → List FillMessage × Orderbook
unfolding match_loop is_done trade side_of
match_order r ob =
    let s = opposite (side_of (ob.objs r).side) in match_loop ((slice s ob).len + 1) s r ob

unfoldable pub rest : ℕ → Orderbook → Orderbook
unfolding side_of
rest r ob =
    let s = side_of (ob.objs r).side in
    let ob' = record ob { orders = insert (ob.objs r).order_id r ob.orders } in
    with_heap s (Heap.push (less s ob.objs) (heap s ob') r) ob'

-- `order.index >= 0 && order.index < len(…)`, then `heap.Remove`
unfoldable pub remove_at : Side → ℤ → Orderbook → Orderbook
remove_at s (pos i) ob =
    if ltb i (slice s ob).len
    then with_heap s (Heap.remove (less s ob.objs) (heap s ob) i) ob
    else ob
remove_at s (negsuc _) ob = ob

unfoldable pub remove_found : String → Option ℕ → Orderbook → Orderbook
unfolding remove_at
remove_found order_id none ob = ob
remove_found order_id (some r) ob =
    let ob' = record ob { orders = delete order_id ob.orders } in
    if str_eq (ob.objs r).side "buy"
    then remove_at buy (ob.index r) ob'
    else if str_eq (ob.objs r).side "sell"
    then remove_at sell (ob.index r) ob'
    else ob'

unfoldable pub remove : String → Orderbook → Orderbook
unfolding remove_found
remove order_id ob = remove_found order_id (lookup order_id ob.orders) ob

-- The ids of the session's orders, in some order of the map.
unfoldable pub session_orders : String → (ℕ → Order) → Dict ℕ → List String
session_orders id objs [] = []
session_orders id objs ((k, r) ∷ m) =
    let more = session_orders id objs m in
    if str_eq (objs r).session_id id then (objs r).order_id ∷ more else more

unfoldable pub remove_all : List String → Orderbook → Orderbook
remove_all [] ob = ob
remove_all (id ∷ ids) ob = remove_all ids (remove id ob)

unfoldable pub cancel_session : String → Orderbook → Orderbook
unfolding session_orders remove_all
cancel_session id ob = remove_all (session_orders id ob.objs ob.orders) ob
