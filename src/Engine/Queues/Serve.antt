-- ===== src/Engine/Queues/Serve.antt =====
-- The engine of services/stub/main.go against the queues, message by message.
use mathlib.Core.Path.{ap₂}
use obarena.Prelude.{
  ℕ, ◌≡◌, inl, inr, refl, ap, List, [], ◌∷◌, map, Bool-cases, some-cases, ◌&&◌, leb, arith, String,
  str_eq, lookup,
}
use obarena.Engine.Clock.{Clock}
use obarena.Engine.Message.{IncomingMessage, Message, zero_price}
use obarena.Engine.Heap.Index.{Holds}
use obarena.Engine.Book.{Orderbook, Side, buy, sell, heap, remove, cancel_session, new_order_book}
use obarena.Engine.Book.Valid.{IsValid, both_sides}
use obarena.Engine.Book.Remove.{remove-IsValid, remove-Shrinks}
use obarena.Engine.Book.Cancel.{cancel_session-IsValid, cancel_session-Shrinks}
use obarena.Engine.Book.Shrinks.{Shrinks}
use obarena.Engine.Session.{
  handle_message, handle_order, handle_cancel, positive, is_valid_order, Event, message, disconnect,
  serve, serve_all,
}
use obarena.Engine.Session.Sound.{Shrinks-IsSound, valid_order_side, new_order_book-IsSound}
use obarena.Engine.Queues.{
  Queues, queue, order, cancel, react, react_all, no_orders, reply, drop, is_named, is_from,
}
use obarena.Engine.Queues.Listing.{Listed}
use obarena.Engine.Queues.Find.{find_order-unknown, find_order-known}
use obarena.Engine.Queues.Leave.{remove-Shows, cancel_session-Shows}
use obarena.Engine.Queues.Stamps.{Shrinks-IsStamped, remove_clock, cancel_session_clock}
use obarena.Engine.Queues.Refines.{Refines, Simulates, clock-Refines, accept_order-Simulates}

order-Simulates :
    (id : String) (msg : IncomingMessage) (ob : Orderbook) (m : Queues)
    → Refines ob m
    → Simulates (handle_order id msg ob) (order id msg m)
unfolding handle_order order reply
order-Simulates id msg ob m h =
    let later = clock-Refines ob m h in
    elim (Bool-cases (is_valid_order msg)) [
      | inr invalid ↦ rw invalid (refl, later)
      | inl valid ↦ elim (Bool-cases (positive msg.quantity)) [
        | inr none_wanted ↦ rw (valid, none_wanted) (refl, later)
        | inl wanted ↦
            elim (Bool-cases (str_eq msg.order_type "limit" && leb msg.price zero_price)) [
              | inl free ↦ rw (valid, wanted, free) (refl, later)
              | inr priced ↦ elim (some-cases (lookup msg.order_id ob.orders)) [
                | inr (r, known) ↦
                    let found = find_order-known ob m h.sound.valid h.shows msg.order_id r known in
                    rw (valid, wanted, priced, known, found) (refl, later)
                | inl unknown ↦
                    let found =
                      find_order-unknown ob m h.sound.valid h.shows msg.order_id unknown in
                    let (s, side_name) = valid_order_side msg valid in
                    rw (valid, wanted, priced, unknown, found)
                      (accept_order-Simulates id msg ob m h s side_name unknown)
              ]
            ]
      ]
    ]

-- Orders leave, and the clock stays.
leave-Refines :
    (ob ob' : Orderbook) (m m' : Queues)
    → Refines ob m
    → IsValid ob'
    → Shrinks ob ob'
    → ob'.clock ≡ ob.clock
    → ((s : Side) → Listed s ob' (queue s m'))
    → Refines ob' m'
leave-Refines ob ob' m m' h v p clock shows = record {
  sound = Shrinks-IsSound v p h.sound;
  stamped = rw clock (Shrinks-IsStamped ob.clock.last p h.stamped);
  shows = shows;
}

remove-Refines :
    (k : String) (ob : Orderbook) (m : Queues)
    → Refines ob m
    → Refines (remove k ob) (drop (is_named k) m)
remove-Refines k ob m h =
    let v = h.sound.valid in
    leave-Refines ob (remove k ob) m (drop (is_named k) m) h (remove-IsValid k ob v)
      (remove-Shrinks k ob v) (remove_clock k ob v)
      (both_sides buy (λ s. Listed s (remove k ob) (queue s (drop (is_named k) m)))
        (remove-Shows k ob m v h.shows buy) (remove-Shows k ob m v h.shows sell))

cancel_session-Refines :
    (id : String) (ob : Orderbook) (m : Queues)
    → Refines ob m
    → Refines (cancel_session id ob) (drop (is_from id) m)
cancel_session-Refines id ob m h =
    let v = h.sound.valid in
    leave-Refines ob (cancel_session id ob) m (drop (is_from id) m) h
      (cancel_session-IsValid id ob v) (cancel_session-Shrinks id ob v)
      (cancel_session_clock id ob v)
      (both_sides buy (λ s. Listed s (cancel_session id ob) (queue s (drop (is_from id) m)))
        (cancel_session-Shows id ob m v h.shows buy) (cancel_session-Shows id ob m v h.shows sell))

cancel-Simulates :
    (id : String) (msg : IncomingMessage) (ob : Orderbook) (m : Queues)
    → Refines ob m
    → Simulates (handle_cancel id msg ob) (cancel id msg m)
unfolding handle_cancel cancel reply
cancel-Simulates id msg ob m h = elim (some-cases (lookup msg.order_id ob.orders)) [
  | inl unknown ↦
      let found = find_order-unknown ob m h.sound.valid h.shows msg.order_id unknown in
      rw (unknown, found, handle_cancel, cancel) (refl, clock-Refines ob m h)
  | inr (r, known) ↦
      let found = find_order-known ob m h.sound.valid h.shows msg.order_id r known in
      elim (Bool-cases (str_eq (ob.objs r).session_id id)) [
        | inr other ↦ rw (known, found, other, handle_cancel, cancel) (refl, clock-Refines ob m h)
        | inl own ↦
            rw (known, found, own, handle_cancel, cancel)
              (
                refl,
                clock-Refines (remove msg.order_id ob) (drop (is_named msg.order_id) m)
                    (remove-Refines msg.order_id ob m h),
              )
      ]
]

message-Simulates :
    (id : String) (msg : IncomingMessage) (ob : Orderbook) (m : Queues)
    → Refines ob m
    → Simulates (handle_message id msg ob) (react (message id msg) m)
unfolding handle_message react reply
message-Simulates id msg ob m h = elim (Bool-cases (str_eq msg.type "order")) [
  | inl is_order ↦ rw is_order (order-Simulates id msg ob m h)
  | inr not_order ↦ elim (Bool-cases (str_eq msg.type "cancel")) [
    | inl is_cancel ↦ rw (not_order, is_cancel) (cancel-Simulates id msg ob m h)
    | inr other ↦ rw (not_order, other) (refl, clock-Refines ob m h)
  ]
]

new_order_book-Refines : (clock : Clock) → Refines (new_order_book clock) no_orders
unfolding new_order_book
new_order_book-Refines clock =
    let none_held : (t : Side) (x : ℕ) → Holds (heap t (new_order_book clock)) x → ⊥ =
      both_sides buy (λ t. (x : ℕ) → Holds (heap t (new_order_book clock)) x → ⊥)
        (λ x (i, hi, e). omega (arith, hi)) (λ x (i, hi, e). omega (arith, hi)) in
    let empty : (t : Side) → Listed t (new_order_book clock) [] = λ t. record {
      refs = [];
      listing = record {
        sorted = tt;
        held = λ x there. absurd there;
        complete = λ x there. none_held t x there;
      };
      same = refl;
    } in
    record {
      sound = new_order_book-IsSound clock;
      stamped = λ t x there. absurd (none_held t x there);
      shows =
          both_sides buy (λ t. Listed t (new_order_book clock) (queue t no_orders)) (empty buy)
            (empty sell);
    }

-- The answers that the engine gives to each event.
unfoldable pub answers : List Event → Orderbook → List (List Message)
answers [] ob = []
answers (message id msg ∷ es) ob =
    (handle_message id msg ob).0 ∷ answers es (handle_message id msg ob).1
answers (disconnect id ∷ es) ob = [] ∷ answers es (cancel_session id ob)

answers_react :
    (es : List Event) (ob : Orderbook) (m : Queues)
    → Refines ob m
    → (map (map reply) (answers es ob) ≡ (react_all es m).0)
      × Refines (serve_all es ob) (react_all es m).1
unfolding answers react_all serve_all serve
answers_react [] ob m h = (refl, h)
answers_react (message id msg ∷ es) ob m h =
    let (sent, h') = message-Simulates id msg ob m h in
    let (more, h'') =
      answers_react es (handle_message id msg ob).1 (react (message id msg) m).1 h' in
    (ap₂ ◌∷◌ sent more, h'')
answers_react (disconnect id ∷ es) ob m h =
    let h' = cancel_session-Refines id ob m h in
    let (more, h'') = answers_react es (cancel_session id ob) (drop (is_from id) m) h' in
    (unfold react in ap (◌∷◌ []) more, unfold react in h'')

-- From the start, whatever the sessions send and whenever they end: each answer of the engine is
-- the one that the queues give, but for its time, and the book has the orders of the queues.
pub serve_all-Refines :
    (clock : Clock) (es : List Event)
    → let spec = react_all es no_orders in
      (map (map reply) (answers es (new_order_book clock)) ≡ spec.0)
      × Refines (serve_all es (new_order_book clock)) spec.1
serve_all-Refines clock es =
    answers_react es (new_order_book clock) no_orders (new_order_book-Refines clock)
