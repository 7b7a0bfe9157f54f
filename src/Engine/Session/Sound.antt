-- ===== src/Engine/Session/Sound.antt =====
-- The invariants of the book through messages and ends of sessions, of services/stub/main.go.
use mathlib.Core.Path.{subst}
use obarena.Prelude.{
  ℕ, ◌<◌, ◌≡◌, ◌⊎◌, inl, inr, refl, ◌∙◌, ap, arith, String, str_eq, eq_iff, ltb, lookup, none, true,
  Bool-cases, some-cases, ◌&&◌, leb, List, [], ◌∷◌,
}
use obarena.Engine.Clock.{Clock, now}
use obarena.Engine.Message.{IncomingMessage, zero_price}
use obarena.Engine.Book.{
  Orderbook, Side, buy, sell, name, opposite, side_of, allocate, remove, is_done, match_order,
  cancel_session, slice, new_order_book,
}
use obarena.Engine.Book.Valid.{IsValid}
use obarena.Engine.Book.Shrinks.{IsEntering, Shrinks, Shrinks-IsEntering}
use obarena.Engine.Book.Match.{IsMatched, match_order-IsMatched, taken_side}
use obarena.Engine.Book.Rest.{
  clock-IsValid, allocate-IsValid, allocate-IsEntering, rest-IsValid, side_of-name,
}
use obarena.Engine.Book.Uncrossed.{
  IsUncrossed, Shrinks-IsUncrossed, rest-IsUncrossed, allocate-IsUncrossed,
}
use obarena.Engine.Book.Remove.{remove-IsValid, remove-Shrinks}
use obarena.Engine.Book.Cancel.{cancel_session-IsValid, cancel_session-Shrinks}
use obarena.Engine.Session.{
  handle_message, handle_order, handle_cancel, accept_order, finish_order, order_of, positive,
  is_valid_order, Event, message, disconnect, serve_all,
}

-- The heaps, the indices and the map agree, and no bid meets an ask.
pub record IsSound (ob : Orderbook) : Type 0 where
  pub valid : IsValid ob
  pub uncrossed : IsUncrossed ob

pub clock-IsSound : (ob : Orderbook) (c : Clock) → IsSound ob → IsSound (record ob { clock = c })
clock-IsSound ob c h = record {
  valid = clock-IsValid ob c h.valid;
  uncrossed = record { below = h.uncrossed.below };
}

pub Shrinks-IsSound : {ob ob' : Orderbook} → IsValid ob' → Shrinks ob ob' → IsSound ob → IsSound ob'
Shrinks-IsSound v p h = record { valid = v; uncrossed = Shrinks-IsUncrossed p h.uncrossed }

-- What `finish_order` is given: an order that `match` has stopped with.
pub record IsStopped (s : Side) (r : ℕ) (ob : Orderbook) : Type 0 where
  pub entering : IsEntering ob r
  pub side_name : (ob.objs r).side ≡ name s
  pub over : is_done (opposite s) r ob ≡ true

finish_order-IsSound :
    (s : Side) (r : ℕ) (ob : Orderbook)
    → IsSound ob
    → IsStopped s r ob
    → IsSound (finish_order r ob).1
unfolding finish_order
finish_order-IsSound s r ob h st = elim (Bool-cases (ltb 0 (ob.remaining r))) [
  | inr filled ↦ elim (Bool-cases (str_eq (ob.objs r).order_type "market")) [
    | inl market ↦ rw (market, filled) h
    | inr limit ↦ rw (limit, filled) h
  ]
  | inl left ↦ elim (Bool-cases (str_eq (ob.objs r).order_type "market")) [
    | inl market ↦ rw (market, left) (clock-IsSound ob (now ob.clock).1 h)
    | inr limit ↦
        rw (limit, left)
          (record {
            valid = rest-IsValid s r ob h.valid st.entering st.side_name (ground arith);
            uncrossed =
                rest-IsUncrossed s r ob h.valid st.entering st.side_name (ground arith) st.over
                  h.uncrossed;
          })
  ]
]

side-cases :
    (side : String)
    → (str_eq side "buy") ≡ true ⊎ (str_eq side "sell") ≡ true
    → (s : Side) × (side ≡ name s)
side-cases side (inl b) = (buy, (eq_iff side "buy").0 b)
side-cases side (inr b) = (sell, (eq_iff side "sell").0 b)

pub valid_order_side :
    (msg : IncomingMessage) → is_valid_order msg ≡ true → (s : Side) × (msg.side ≡ name s)
unfolding is_valid_order
valid_order_side msg h = side-cases msg.side (ground arith)

module _ (id : String) (msg : IncomingMessage) (ob : Orderbook) (h : IsSound ob) (s : Side)
    (side_name : msg.side ≡ name s) (unknown : lookup msg.order_id ob.orders ≡ none) where
  abbrev pub entered : Orderbook
  entered = allocate (order_of id msg (now ob.clock).0) (record ob { clock = (now ob.clock).1 })

  pub entered-IsSound : IsSound entered
  entered-IsSound =
      let h' = clock-IsSound ob (now ob.clock).1 h in
      record {
        valid =
            allocate-IsValid (order_of id msg (now ob.clock).0)
              (record ob { clock = (now ob.clock).1 }) h'.valid;
        uncrossed =
            allocate-IsUncrossed (order_of id msg (now ob.clock).0)
              (record ob { clock = (now ob.clock).1 }) h'.valid h'.uncrossed;
      }

  pub entered-IsEntering : IsEntering entered ob.next
  entered-IsEntering =
      allocate-IsEntering (order_of id msg (now ob.clock).0)
        (record ob { clock = (now ob.clock).1 }) (clock-IsSound ob (now ob.clock).1 h).valid unknown

  pub entered_order : entered.objs ob.next ≡ order_of id msg (now ob.clock).0
  unfolding allocate
  entered_order = ground arith

  pub entered-IsMatched :
      IsMatched
        (taken_side ob.next entered)
        ob.next
        entered
        (match_order ob.next entered).0
        (match_order ob.next entered).1
  entered-IsMatched = match_order-IsMatched ob.next entered entered-IsSound.valid entered-IsEntering

  pub matched-IsStopped : IsStopped s ob.next (match_order ob.next entered).1
  matched-IsStopped =
      let m = entered-IsMatched in
      let same = entered_order ∙ refl in
      let side : (entered.objs ob.next).side ≡ name s = rw same side_name in
      record {
        entering = Shrinks-IsEntering ob.next m.shrinks entered-IsEntering;
        side_name = rw m.shrinks.same_objs side;
        over =
            subst (λ t. is_done (opposite t) ob.next (match_order ob.next entered).1 ≡ true)
              (ap side_of side ∙ side_of-name s) m.finished;
      }

  pub accept_order-IsSound : IsSound (accept_order id msg ob).1
  unfolding accept_order
  accept_order-IsSound =
      finish_order-IsSound s ob.next (match_order ob.next entered).1
        (Shrinks-IsSound entered-IsMatched.valid entered-IsMatched.shrinks entered-IsSound)
        matched-IsStopped

pub handle_order-IsSound :
    (id : String) (msg : IncomingMessage) (ob : Orderbook)
    → IsSound ob
    → IsSound (handle_order id msg ob).1
unfolding handle_order
handle_order-IsSound id msg ob h =
    let later = clock-IsSound ob (now ob.clock).1 h in
    elim (Bool-cases (is_valid_order msg)) [
      | inr invalid ↦ rw invalid later
      | inl valid ↦ elim (Bool-cases (positive msg.quantity)) [
        | inr none_wanted ↦ rw (valid, none_wanted) later
        | inl wanted ↦
            elim (Bool-cases (str_eq msg.order_type "limit" && leb msg.price zero_price)) [
              | inl free ↦ rw (valid, wanted, free) later
              | inr priced ↦ elim (some-cases (lookup msg.order_id ob.orders)) [
                | inr (r, known) ↦ rw (valid, wanted, priced, known) later
                | inl unknown ↦
                    let (s, side_name) = valid_order_side msg valid in
                    rw (valid, wanted, priced, unknown)
                      (accept_order-IsSound id msg ob h s side_name unknown)
              ]
            ]
      ]
    ]

pub handle_cancel-IsSound :
    (id : String) (msg : IncomingMessage) (ob : Orderbook)
    → IsSound ob
    → IsSound (handle_cancel id msg ob).1
unfolding handle_cancel
handle_cancel-IsSound id msg ob h = elim (some-cases (lookup msg.order_id ob.orders)) [
  | inl unknown ↦ rw (unknown, handle_cancel) (clock-IsSound ob (now ob.clock).1 h)
  | inr (r, known) ↦ elim (Bool-cases (str_eq (ob.objs r).session_id id)) [
    | inr other ↦ rw (known, other, handle_cancel) (clock-IsSound ob (now ob.clock).1 h)
    | inl own ↦
        rw (known, own, handle_cancel)
          (clock-IsSound (remove msg.order_id ob) (now (remove msg.order_id ob).clock).1 (
            Shrinks-IsSound (remove-IsValid msg.order_id ob h.valid)
              (remove-Shrinks msg.order_id ob h.valid) h))
  ]
]

-- Whatever a session sends, a sound book stays sound.
pub handle_message-IsSound :
    (id : String) (msg : IncomingMessage) (ob : Orderbook)
    → IsSound ob
    → IsSound (handle_message id msg ob).1
unfolding handle_message
handle_message-IsSound id msg ob h = elim (Bool-cases (str_eq msg.type "order")) [
  | inl order ↦ rw order (handle_order-IsSound id msg ob h)
  | inr not_order ↦ elim (Bool-cases (str_eq msg.type "cancel")) [
    | inl cancel ↦ rw (not_order, cancel) (handle_cancel-IsSound id msg ob h)
    | inr other ↦ rw (not_order, other) (clock-IsSound ob (now ob.clock).1 h)
  ]
]

pub cancel_session-IsSound :
    (id : String) (ob : Orderbook) → IsSound ob → IsSound (cancel_session id ob)
cancel_session-IsSound id ob h =
    Shrinks-IsSound (cancel_session-IsValid id ob h.valid) (cancel_session-Shrinks id ob h.valid) h

no_order : (s : Side) (clock : Clock) → (slice s (new_order_book clock)).len ≡ 0
unfolding new_order_book
no_order buy clock = refl
no_order sell clock = refl

pub new_order_book-IsSound : (clock : Clock) → IsSound (new_order_book clock)
new_order_book-IsSound clock =
    let out : (s : Side) (i : ℕ) → i < (slice s (new_order_book clock)).len → ⊥ =
      λ s i hi. omega (arith, no_order s clock) in
    record {
      valid = record {
        ordered = λ s c pc hc. absurd (out s c hc);
        indexed = λ s i hi. absurd (out s i hi);
        held = λ s r (i, hi, e). absurd (out s i hi);
        found = unfold new_order_book lookup in λ k r e. cc;
        distinct = unfold new_order_book in tt;
      };
      uncrossed = record { below = λ b a (i, hi, e) ha. absurd (out buy i hi) };
    }

-- After any messages and disconnects, in any order, the book is sound.
pub serve_all-IsSound : (es : List Event) (ob : Orderbook) → IsSound ob → IsSound (serve_all es ob)
unfolding serve_all
serve_all-IsSound [] ob h = h
serve_all-IsSound (message id msg ∷ es) ob h =
    serve_all-IsSound es (handle_message id msg ob).1 (handle_message-IsSound id msg ob h)
serve_all-IsSound (disconnect id ∷ es) ob h =
    serve_all-IsSound es (cancel_session id ob) (cancel_session-IsSound id ob h)
