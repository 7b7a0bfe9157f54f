-- ===== src/Engine/Queues/Round.antt =====
-- One round of `match` of services/stub/main.go, on the queue of the side that it takes from.
use mathlib.Core.Path.{subst, ap₂}
use obarena.Prelude.{
  ℕ, ◌-◌, ◌<◌, ◌≡◌, ◌≢◌, inl, inr, refl, sym, ◌∙◌, ap, List, [], ◌∷◌, true, false, Bool, ◌&&◌, not,
  ltb, ◌==◌, arith, delete, Dict,
}
use obarena.Engine.Clock.{Clock, now}
use obarena.Engine.Message.{FillMessage, fill}
use obarena.Engine.Heap
use obarena.Engine.Heap.{Heap}
use obarena.Engine.Heap.Index.{Holds}
use obarena.Engine.Heap.Members.{pop-Drops, fix-Rearranges}
use obarena.Engine.Book.{
  Orderbook, Side, opposite, less, slice, heap, with_heap, trade, is_done, min64,
}
use obarena.Engine.Book.Valid.{IsValid, Holds-disjoint, changed}
use obarena.Engine.Book.Shrinks.{IsEntering}
use obarena.Engine.Book.Trade.{
  best, traded_remaining, traded_qty, trade_cases, trade-best, popped, fixed,
}
use obarena.Engine.Queues.{Entry, Taker, filled, take, meets, reply}
use obarena.Engine.Queues.Listing.{
  Has, IsListing, entry, entries, entries-same, All-Has, first_once, IsListing-opposite,
  IsListing-self,
}
use obarena.Engine.Queues.Drop.{drop_ref, Drops-IsListing, drop_ref-first}
use obarena.Engine.Queues.Take.{Took, taker_of, Rearranges-IsListing, is_done-meets, some_held}

module _ (s : Side) (t : Taker) (n : ℕ) (e : Entry) (es : List Entry)
    (met : (ltb 0 n && meets s t e.price) ≡ true) where
  pub take_short :
      ltb n e.left ≡ true
      → take s t n (e ∷ es)
        ≡ (filled t.order_id n e.price 0 ∷ [], 0, record e { left = e.left - n } ∷ es)
  unfolding take
  take_short short = rw (met, short, take) refl

  take_whole :
      ltb n e.left ≡ false
      → take s t n (e ∷ es) ≡ (
        filled t.order_id e.left e.price (n - e.left) ∷ (take s t (n - e.left) es).0,
        (take s t (n - e.left) es).1,
        (take s t (n - e.left) es).2,
      )
  unfolding take
  take_whole whole = rw (met, whole, take) refl

-- One round, when `x` is the first of the queue.
module _ (s : Side) (r : ℕ) (ob : Orderbook) (v : IsValid ob) (e : IsEntering ob r) (x : ℕ)
    (q : List ℕ) (l : IsListing s ob.objs (heap s ob) (x ∷ q)) where
  pub some_left : 0 < (slice s ob).len
  some_left = some_held (heap s ob) x (l.held x (inl refl))

  best-first : best s r ob ≡ x
  best-first = elim (l.complete (best s r ob) (0, some_left, refl)) [
    | inl same ↦ sym same
    | inr later ↦
        let after = All-Has (λ y. less s ob.objs x y ≡ true) q (best s r ob) l.sorted.0 later in
        let first = (trade-best s r ob v e some_left x (l.held x (inl refl))).1 in cc
  ]

  other_than_r : (t : Side) (y : ℕ) → Holds (heap t ob) y → y ≢ r
  other_than_r t y there same = e.fresh (t, subst (Holds (heap t ob)) same there)

  remaining_other : (y : ℕ) → y ≢ r → y ≢ best s r ob → traded_remaining s r ob y ≡ ob.remaining y
  remaining_other y ne ne' = ground (arith, ne, ne')

  other_round :
      (g : Heap) (orders : Dict ℕ) (clock : Clock) (p : List ℕ)
      → IsListing (opposite s) ob.objs (heap (opposite s) ob) p
      → IsListing
          (opposite s)
          ob.objs
          (heap (opposite s) (with_heap s g (changed ob (traded_remaining s r ob) orders clock)))
          p
        × (entries (with_heap s g (changed ob (traded_remaining s r ob) orders clock)) p
            ≡ entries ob p)
  other_round g orders clock p m = (
    IsListing-opposite s g (changed ob (traded_remaining s r ob) orders clock) ob.objs p
        (record { sorted = m.sorted; held = m.held; complete = m.complete }),
    entries-same ob (with_heap s g (changed ob (traded_remaining s r ob) orders clock)) p
        (λ y _. refl)
        (λ y there.
          remaining_other y (other_than_r (opposite s) y (m.held y there))
            (λ same. Holds-disjoint s v y (rw same (0, some_left, refl)) (m.held y there))),
  )

  x_not_r : x ≢ r
  x_not_r = other_than_r s x (l.held x (inl refl))

  later_same : (y : ℕ) → Has y q → traded_remaining s r ob y ≡ ob.remaining y
  later_same y there =
      remaining_other y (other_than_r s y (l.held y (inr there))) (λ same.
        first_once s ob.objs x q l.sorted.0 (subst (λ z. Has z q) (same ∙ best-first) there))

  -- The best order is filled: it goes.
  popped-IsListing : IsListing s ob.objs (heap s (popped s r ob)) q
  popped-IsListing =
      let g = Heap.pop (less s ob.objs) (heap s ob) in
      let d = pop-Drops (less s ob.objs) (heap s ob) (v.indexed s) some_left in
      let l' = Drops-IsListing s ob.objs (heap s ob) g (best s r ob) (x ∷ q) d l in
      IsListing-self s g
        (changed ob (traded_remaining s r ob) (delete (ob.objs (best s r ob)).order_id ob.orders)
          (now ob.clock).1)
        ob.objs q
        (subst (IsListing s ob.objs g)
          (ap (λ b. drop_ref b (x ∷ q)) best-first ∙ drop_ref-first s ob.objs x q l.sorted.0) l')

  -- The entering order is filled: the best order stays where it is.
  fixed-IsListing : IsListing s ob.objs (heap s (fixed s r ob)) (x ∷ q)
  fixed-IsListing =
      let g = Heap.fix (less s ob.objs) (heap s ob) 0 in
      IsListing-self s g (changed ob (traded_remaining s r ob) ob.orders (now ob.clock).1) ob.objs
        (x ∷ q)
        (Rearranges-IsListing s ob.objs (heap s ob) g (x ∷ q)
          (fix-Rearranges (less s ob.objs) (heap s ob) 0 (v.indexed s) some_left) l)

  abbrev pub test : Bool
  test = ltb 0 (ob.remaining r) && meets s (taker_of (ob.objs r)) (ob.objs x).price

  pub is_done-test : is_done s r ob ≡ not test
  is_done-test =
      subst
        (λ b.
          is_done s r ob
          ≡ not (ltb 0 (ob.remaining r) && meets s (taker_of (ob.objs r)) (ob.objs b).price))
        best-first (is_done-meets s r ob some_left)

  abbrev pub taken : Entry
  taken = entry ob.objs ob.remaining x

  abbrev filled_part : ℕ
  filled_part = traded_qty s r ob

  abbrev pub wanted : Taker
  wanted = taker_of (ob.objs r)

  set_left :
      (n : ℕ)
      → traded_remaining s r ob x ≡ n
      → entry ob.objs (traded_remaining s r ob) x ≡ record taken { left = n }
  set_left n e = rw e refl

  reply-trade :
      (n : ℕ)
      → filled_part ≡ n
      → reply (fill (trade s r ob).0)
        ≡ filled wanted.order_id n (ob.objs x).price (ob.remaining r - n)
  unfolding reply trade
  reply-trade n e = ground (arith, best-first, x_not_r, e)

  -- The order that comes in is filled, and some of the best order is left.
  pub partial_round :
      test ≡ true
      → ltb (ob.remaining r) (ob.remaining x) ≡ true
      → Took s wanted
          (ob.remaining r)
          (taken ∷ entries ob q)
          r
          ob
          ((trade s r ob).0 ∷ [])
          (trade s r ob).1
  partial_round met short =
      let b : best s r ob ≡ x = best-first in
      let qty : filled_part ≡ ob.remaining r = unfold min64 in ground (arith, b, short) in
      let ne = x_not_r in
      let kept : (traded_remaining s r ob (best s r ob) == 0) ≡ false =
        ground (arith, b, short, qty) in
      let next : (trade s r ob).1 ≡ fixed s r ob = rw (trade_cases, kept) refl in
      let spec = take_short s wanted (ob.remaining r) taken (entries ob q) met short in
      subst (Took s wanted (ob.remaining r) (taken ∷ entries ob q) r ob ((trade s r ob).0 ∷ []))
        (sym next)
        (record {
          sent = rw spec (
              ap (λ a. a ∷ [])
                (reply-trade (ob.remaining r) qty
                  ∙ ap (filled wanted.order_id (ob.remaining r) (ob.objs x).price) (omega arith)));
          left = rw spec (ground (arith, b, qty, ne));
          rest = x ∷ q;
          listing = fixed-IsListing;
          same = rw spec (
              ap₂ ◌∷◌ (set_left _ (ground (arith, b, qty, ne)))
                (entries-same ob (fixed s r ob) q (λ y _. refl) later_same));
          other = other_round (Heap.fix (less s ob.objs) (heap s ob) 0) ob.orders (now ob.clock).1;
        })

  -- The best order is filled: the rest of the order goes on without it.
  pub whole_round :
      (fills : List FillMessage) (ob' : Orderbook)
      → test ≡ true
      → ltb (ob.remaining r) (ob.remaining x) ≡ false
      → (((trade s r ob).1 ≡ popped s r ob)
          → IsListing s ob.objs (heap s (trade s r ob).1) q
          → Took s wanted
              ((trade s r ob).1.remaining r)
              (entries (trade s r ob).1 q)
              r
              (trade s r ob).1
              fills
              ob')
      → Took s wanted (ob.remaining r) (taken ∷ entries ob q) r ob ((trade s r ob).0 ∷ fills) ob'
  whole_round fills ob' met whole go =
      let b : best s r ob ≡ x = best-first in
      let qty : filled_part ≡ ob.remaining x = unfold min64 in ground (arith, b, whole) in
      let ne = x_not_r in
      let gone : (traded_remaining s r ob (best s r ob) == 0) ≡ true =
        ground (arith, b, whole, qty, ne) in
      let next : (trade s r ob).1 ≡ popped s r ob = rw (trade_cases, gone) refl in
      let rem : (popped s r ob).remaining r ≡ ob.remaining r - ob.remaining x =
        ground (arith, b, qty, ne) in
      let es : entries (popped s r ob) q ≡ entries ob q =
        entries-same ob (popped s r ob) q (λ y _. refl) later_same in
      let spec = take_whole s wanted (ob.remaining r) taken (entries ob q) met whole in
      let m : Took s wanted (ob.remaining r - ob.remaining x) (entries ob q) r (popped s r ob) fills
          ob' =
        rw (← rem, ← es)
          (subst (λ b'. Took s wanted (b'.remaining r) (entries b' q) r b' fills ob') next
            (go next (rw next popped-IsListing))) in
      record {
        sent = rw spec (ap₂ ◌∷◌ (reply-trade (ob.remaining x) qty) m.sent);
        left = rw spec m.left;
        rest = m.rest;
        listing = m.listing;
        same = rw spec m.same;
        other = λ p there.
            let (there', same) =
              other_round (Heap.pop (less s ob.objs) (heap s ob))
                (delete (ob.objs (best s r ob)).order_id ob.orders) (now ob.clock).1 p there in
            let (there'', same') = m.other p there' in (there'', same' ∙ same);
      }
