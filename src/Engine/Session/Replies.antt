-- ===== src/Engine/Session/Replies.antt =====
-- What a session is sent, and what becomes of its order.
use obarena.Prelude.{
  ℕ, ◌+◌, ◌<◌, ◌≡◌, ◌≢◌, inl, inr, refl, sym, ◌∙◌, ap, arith, String, str_eq, eq_iff, ltb, lookup,
  none, some, true, false, Bool-cases, some-cases, ◌&&◌, leb, List, [], ◌∷◌, ◌++◌, map, sum_of,
  lookup-insert, if◌then◌else◌, append-nil,
}
use obarena.Engine.Clock.{now}
use obarena.Engine.Message.{IncomingMessage, Message, FillMessage, ack, fill, reject, zero_price}
use obarena.Engine.Book.{Order, Orderbook, allocate, rest, match_order}
use obarena.Engine.Book.Remove.{orders-remove}
use obarena.Engine.Book.Cancel.{is_of_session}
use obarena.Engine.Session.{
  handle_order, handle_cancel, accept_order, finish_order, order_of, positive, quantity_of,
  is_valid_order,
}
use obarena.Engine.Session.Sound.{
  IsSound, entered, entered-IsMatched, entered_order, valid_order_side,
}

abbrev pub filled_qty : List FillMessage → ℕ
filled_qty = sum_of (λ f. f.filled_qty)

-- What becomes of an order for `qty` that is accepted under the id `k`.
pub data Outcome (k order_type : String) (qty : ℕ) (sent : List Message) (ob : Orderbook)
    : Type 0 where
  filled :
      (ts : ℕ) (fills : List FillMessage)
      → sent ≡ ack k ts ∷ map fill fills
      → filled_qty fills ≡ qty
      → lookup k ob.orders ≡ none
      → Outcome k order_type qty sent ob
  rests :
      (ts r : ℕ) (fills : List FillMessage)
      → order_type ≢ "market"
      → sent ≡ ack k ts ∷ map fill fills
      → 0 < ob.remaining r
      → filled_qty fills + ob.remaining r ≡ qty
      → lookup k ob.orders ≡ some r
      → Outcome k order_type qty sent ob
  cut_off :
      (ts ts' : ℕ) (fills : List FillMessage)
      → order_type ≡ "market"
      → sent ≡ ack k ts ∷ map fill fills ++ reject k "no_liquidity" ts' ∷ []
      → filled_qty fills < qty
      → lookup k ob.orders ≡ none
      → Outcome k order_type qty sent ob

orders-rest :
    (r : ℕ) (ob : Orderbook) (k : String)
    → (ob.objs r).order_id ≡ k
    → lookup k (rest r ob).orders ≡ some r
unfolding rest
orders-rest r ob k e =
    rw (lookup-insert (ob.objs r).order_id k r ob.orders)
      (ground (arith, eq_iff (ob.objs r).order_id k))

remaining-rest : (r : ℕ) (ob : Orderbook) → (rest r ob).remaining ≡ ob.remaining
unfolding rest
remaining-rest r ob = refl

-- `finish_order` after the messages `ack ∷ fills`.
finish_order-Outcome :
    (k order_type : String) (qty ts r : ℕ) (fills : List FillMessage) (ob : Orderbook)
    → (ob.objs r).order_id ≡ k
    → (ob.objs r).order_type ≡ order_type
    → lookup k ob.orders ≡ none
    → filled_qty fills + ob.remaining r ≡ qty
    → Outcome k order_type qty
        (ack k ts ∷ map fill fills ++ (finish_order r ob).0)
        (finish_order r ob).1
unfolding finish_order
finish_order-Outcome k order_type qty ts r fills ob id type unknown total =
    let no_more = ap (◌∷◌ (ack k ts)) (append-nil (map fill fills)) in
    elim (Bool-cases (ltb 0 (ob.remaining r))) [
      | inr none_left ↦ elim (Bool-cases (str_eq (ob.objs r).order_type "market")) [
        | inl market ↦ rw (market, none_left) (filled ts fills no_more (ground arith) unknown)
        | inr limit ↦ rw (limit, none_left) (filled ts fills no_more (ground arith) unknown)
      ]
      | inl left ↦ elim (Bool-cases (str_eq (ob.objs r).order_type "market")) [
        | inl market ↦
            rw (market, left)
              (cut_off ts (now ob.clock).0 fills
                (sym type ∙ (eq_iff (ob.objs r).order_type "market").0 market) (rw id refl)
                (ground arith) unknown)
        | inr limit ↦
            rw (limit, left)
              (rests ts r fills (λ e. ground (arith, eq_iff (ob.objs r).order_type "market"))
                no_more (rw remaining-rest (ground arith)) (rw remaining-rest total)
                (orders-rest r ob k id))
      ]
    ]

-- The tests of `handleOrder` before it takes the lock.
abbrev pub IsWellFormed : IncomingMessage → Type 0
IsWellFormed msg =
    (is_valid_order msg ≡ true)
    × (positive msg.quantity ≡ true)
    × ((str_eq msg.order_type "limit" && leb msg.price zero_price) ≡ false)

-- A well-formed order with a new id is acknowledged. It is then filled, or rests with what is left
-- (no market order does), or (a market order) is cut off; the fills and the rest make the quantity.
pub handle_order-Outcome :
    (id : String) (msg : IncomingMessage) (ob : Orderbook)
    → IsSound ob
    → IsWellFormed msg
    → lookup msg.order_id ob.orders ≡ none
    → Outcome msg.order_id msg.order_type
        (quantity_of msg.quantity)
        (handle_order id msg ob).0
        (handle_order id msg ob).1
unfolding handle_order accept_order
handle_order-Outcome id msg ob h (valid, wanted, priced) unknown =
    let (s, side_name) = valid_order_side msg valid in
    let m = entered-IsMatched id msg ob h s side_name unknown in
    let o = entered_order id msg ob h s side_name unknown in
    let same : (match_order ob.next (entered id msg ob h s side_name unknown)).1.objs ob.next
        ≡ order_of id msg (now ob.clock).0 =
      ap (λ (f : ℕ → Order). f ob.next) m.shrinks.same_objs ∙ o in
    rw (valid, wanted, priced, unknown, handle_order)
      (finish_order-Outcome msg.order_id msg.order_type (quantity_of msg.quantity) (now ob.clock).0
        ob.next (match_order ob.next (entered id msg ob h s side_name unknown)).0
        (match_order ob.next (entered id msg ob h s side_name unknown)).1
        (ap (λ (x : Order). x.order_id) same) (ap (λ (x : Order). x.order_type) same)
        (m.shrinks.orders msg.order_id (unfold allocate in unknown))
        (m.conserved ∙ unfold allocate in ground arith))

-- An order that is answered by a `reject` alone leaves all but the clock as it was.
handle_order_rejected :
    (id : String) (msg : IncomingMessage) (ob : Orderbook) (k reason : String) (ts : ℕ)
    → (handle_order id msg ob).0 ≡ reject k reason ts ∷ []
    → (handle_order id msg ob).1 ≡ record ob { clock = (now ob.clock).1 }
unfolding handle_order accept_order
handle_order_rejected id msg ob k reason ts e = ground arith

-- `handleCancel` takes out of the map the order that it names if that is the session's own, and
-- no other.
pub orders-handle_cancel :
    (id : String) (msg : IncomingMessage) (ob : Orderbook) (k : String)
    → IsSound ob
    → lookup k (handle_cancel id msg ob).1.orders ≡ (
        if is_of_session id ob.objs (lookup msg.order_id ob.orders) && str_eq msg.order_id k
        then none
        else lookup k ob.orders)
unfolding handle_cancel
orders-handle_cancel id msg ob k h = elim (some-cases (lookup msg.order_id ob.orders)) [
  | inl unknown ↦ rw (unknown, handle_cancel) refl
  | inr (r, known) ↦ elim (Bool-cases (str_eq (ob.objs r).session_id id)) [
    | inr other ↦ rw (known, other, handle_cancel) refl
    | inl own ↦ rw (known, own, handle_cancel) (orders-remove msg.order_id ob h.valid k)
  ]
]
