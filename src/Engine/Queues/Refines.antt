-- ===== src/Engine/Queues/Refines.antt =====
-- An order that is accepted, in the engine of services/stub/main.go and on the queues.
use mathlib.Core.Path.{subst₂, ap₂}
use obarena.Prelude.{
  ℕ, ◌≤◌, ◌≡◌, refl, ◌∙◌, ap, List, [], ◌∷◌, ◌++◌, map, arith, String, lookup, none,
}
use obarena.Engine.Clock.{Clock, now, now-lt, now-last}
use obarena.Engine.Message.{IncomingMessage, Message, FillMessage, fill}
use obarena.Engine.Heap.Index.{Holds}
use obarena.Engine.Book.{
  Order, Orderbook, Side, name, opposite, heap, match_order, allocate, side_of,
}
use obarena.Engine.Book.Rest.{side_of-name}
use obarena.Engine.Session.{accept_order, finish_order, order_of, quantity_of}
use obarena.Engine.Session.Sound.{
  IsSound, clock-IsSound, entered, entered-IsSound, entered-IsEntering, entered_order,
  entered-IsMatched, matched-IsStopped, accept_order-IsSound,
}
use obarena.Engine.Queues.{
  Queues, Reply, queue, with_queue, submit, submit_on, take, settle, taker, reply, Entry, acked,
}
use obarena.Engine.Queues.Listing.{Shows, clock-Listed}
use obarena.Engine.Queues.Join.{IsLatest}
use obarena.Engine.Queues.Take.{taker_of}
use obarena.Engine.Queues.Loop.{match_order-Shows}
use obarena.Engine.Queues.Enter.{allocate-Listed, finish_order_settles}
use obarena.Engine.Queues.Stamps.{
  IsStamped, Shrinks-IsStamped, allocate-IsStamped, match_order_clock, finish_order-IsStamped,
}

-- The book is sound, its orders are no newer than its clock, and its sides are the queues.
pub record Refines (ob : Orderbook) (m : Queues) : Type 0 where
  pub sound : IsSound ob
  pub stamped : IsStamped ob.clock.last ob
  pub shows : Shows ob m

-- The same answers but for the time, and a book that refines the queues.
abbrev pub Simulates : List Message × Orderbook → List Reply × Queues → Type 0
Simulates (sent, ob) (replies, m) = (map reply sent ≡ replies) × Refines ob m

pub clock-Refines :
    (ob : Orderbook) (m : Queues)
    → Refines ob m
    → Refines (record ob { clock = (now ob.clock).1 }) m
clock-Refines ob m h = record {
  sound = clock-IsSound ob (now ob.clock).1 h.sound;
  stamped = λ t x there. omega (arith, h.stamped t x there, now-lt ob.clock, now-last ob.clock);
  shows = λ t. clock-Listed t ob (now ob.clock).1 (queue t m) (h.shows t);
}

replies-append :
    (fills : List FillMessage) (last : List Message)
    → map reply (map fill fills ++ last) ≡ map (λ f. reply (fill f)) fills ++ map reply last
replies-append [] last = refl
replies-append (f ∷ fills) last = ap (◌∷◌ (reply (fill f))) (replies-append fills last)

module _ (id : String) (msg : IncomingMessage) (ob : Orderbook) (m : Queues) (h : Refines ob m)
    (s : Side) (side_name : msg.side ≡ name s)
    (unknown : lookup msg.order_id ob.orders ≡ none) where
  abbrev made : Orderbook
  made = entered id msg ob h.sound s side_name unknown

  abbrev matched : Orderbook
  matched = (match_order ob.next made).1

  made_order : made.objs ob.next ≡ order_of id msg (now ob.clock).0
  made_order = entered_order id msg ob h.sound s side_name unknown

  matched_order : matched.objs ob.next ≡ order_of id msg (now ob.clock).0
  matched_order =
      ap (λ (f : ℕ → Order). f ob.next)
        (entered-IsMatched id msg ob h.sound s side_name unknown).shrinks.same_objs
      ∙ made_order

  made-Shows : Shows made m
  made-Shows t =
      allocate-Listed (order_of id msg (now ob.clock).0) (record ob { clock = (now ob.clock).1 })
        (clock-IsSound ob (now ob.clock).1 h.sound).valid t (queue t m)
        (clock-Listed t ob (now ob.clock).1 (queue t m) (h.shows t))

  made-IsStamped : IsStamped ob.clock.last made
  made-IsStamped =
      allocate-IsStamped ob.clock.last (order_of id msg (now ob.clock).0)
        (record ob { clock = (now ob.clock).1 }) (clock-IsSound ob (now ob.clock).1 h.sound).valid
        h.stamped

  matched-IsStamped : IsStamped ob.clock.last matched
  matched-IsStamped =
      Shrinks-IsStamped ob.clock.last
        (entered-IsMatched id msg ob h.sound s side_name unknown).shrinks made-IsStamped

  matched_clock : (now ob.clock).0 ≤ matched.clock.last
  matched_clock =
      let made_clock : made.clock ≡ (now ob.clock).1 = unfold allocate in refl in
      let later = match_order_clock ob.next made in
      let same = ap (λ (c : Clock). c.last) made_clock ∙ now-last ob.clock in
      omega (arith, later, same)

  latest : (t : Side) (x : ℕ) → Holds (heap t matched) x → IsLatest matched.objs ob.next x
  latest t x there =
      let own = ap (λ (o : Order). o.entered_at) matched_order in
      omega (arith, matched-IsStamped t x there, now-lt ob.clock, own)

  abbrev taken : List Reply × ℕ × List Entry
  taken = take (opposite s) (taker msg) (quantity_of msg.quantity) (queue (opposite s) m)

  abbrev left_over : Queues
  left_over = with_queue (opposite s) taken.2 m

  abbrev settled : List Reply × Queues
  settled = settle s (taker msg) id taken.1 left_over

  submit-eq : submit id msg m ≡ (acked msg.order_id ∷ taken.0 ++ settled.0, settled.1)
  unfolding submit submit_on
  submit-eq = ap (λ u. submit_on u id msg m) (ap side_of side_name ∙ side_of-name s)

  made_remaining : made.remaining ob.next ≡ quantity_of msg.quantity
  unfolding allocate
  made_remaining = ground arith

  -- What `match` does, by the message.
  matched-Shows :
      (map (λ f. reply (fill f)) (match_order ob.next made).0 ≡ taken.0)
      × (matched.remaining ob.next ≡ taken.1)
      × Shows matched left_over
  matched-Shows =
      subst₂
        (λ (o : Order) n.
          let spec = take (opposite s) (taker_of o) n (queue (opposite s) m) in
          (map (λ f. reply (fill f)) (match_order ob.next made).0 ≡ spec.0)
          × (matched.remaining ob.next ≡ spec.1)
          × Shows matched (with_queue (opposite s) spec.2 m))
        made_order made_remaining
        (match_order-Shows s ob.next made m
          (entered-IsSound id msg ob h.sound s side_name unknown).valid
          (entered-IsEntering id msg ob h.sound s side_name unknown)
          (ap (λ (o : Order). o.side) made_order ∙ side_name) made-Shows)

  finished-Shows :
      (map reply (finish_order ob.next matched).0 ≡ settled.0)
      × Shows (finish_order ob.next matched).1 settled.1
  finished-Shows =
      let stopped = matched-IsStopped id msg ob h.sound s side_name unknown in
      subst₂
        (λ (o : Order) n.
          (map reply (finish_order ob.next matched).0
            ≡ (settle s (taker_of o) o.session_id n left_over).0)
          × Shows (finish_order ob.next matched).1
              (settle s (taker_of o) o.session_id n left_over).1)
        matched_order matched-Shows.1
        (finish_order_settles s ob.next matched
          (entered-IsMatched id msg ob h.sound s side_name unknown).valid stopped.entering
          stopped.side_name latest left_over matched-Shows.2)

  pub accept_order-Simulates : Simulates (accept_order id msg ob) (submit id msg m)
  accept_order-Simulates =
      let stopped = matched-IsStopped id msg ob h.sound s side_name unknown in
      let own = ap (λ (o : Order). o.entered_at) matched_order in
      rw submit-eq (
        unfold accept_order reply in
            ap (◌∷◌ (acked msg.order_id)) (
              replies-append (match_order ob.next made).0 (finish_order ob.next matched).0
              ∙ ap₂ ◌++◌ matched-Shows.0 finished-Shows.0),
        record {
          sound = accept_order-IsSound id msg ob h.sound s side_name unknown;
          stamped =
              unfold accept_order in
              finish_order-IsStamped s ob.clock.last ob.next matched
                (entered-IsMatched id msg ob h.sound s side_name unknown).valid stopped.entering
                stopped.side_name (omega (arith, now-lt ob.clock, matched_clock))
                (omega (arith, own, matched_clock)) matched-IsStamped;
          shows = unfold accept_order in finished-Shows.1;
        },
      )
