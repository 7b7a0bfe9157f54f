-- ===== src/Engine/Queues/Enter.antt =====
-- An order that comes in, in the order book of services/stub/main.go: it is made, and what `match`
-- leaves of it rests.
use mathlib.Core.Path.{subst}
use obarena.Prelude.{
  ℕ, ◌≡◌, inl, inr, refl, sym, ◌∙◌, ap, List, map, ltb, Bool-cases, arith, str_eq, insert,
}
use obarena.Engine.Clock.{now}
use obarena.Engine.Heap
use obarena.Engine.Heap.{Heap}
use obarena.Engine.Heap.Index.{Holds}
use obarena.Engine.Book.{Order, Orderbook, Side, name, opposite, less, heap, allocate, rest}
use obarena.Engine.Book.Valid.{IsValid, changed}
use obarena.Engine.Book.Shrinks.{IsEntering}
use obarena.Engine.Book.Rest.{allocate_keeps, rested, rest-eq, pushed}
use obarena.Engine.Session.{finish_order}
use obarena.Engine.Queues.{Entry, Queues, join, settle, reply, queue, with_queue}
use obarena.Engine.Queues.Listing.{
  Has, Listed, Shows, entry, entries-same, IsListing-opposite, IsListing-self, Shows-with_queue,
  Chain-less_cong, clock-Listed,
}
use obarena.Engine.Queues.Join.{
  join_ref, Pushes-IsListing, IsLatest, IsLatest-apart, entries-join_ref,
}
use obarena.Engine.Queues.Take.{taker_of}

pub allocate-Listed :
    (o : Order) (ob : Orderbook) (v : IsValid ob) (s : Side) (es : List Entry)
    → Listed s ob es
    → Listed s (allocate o ob) es
unfolding allocate
allocate-Listed o ob v s es l =
    let old : (x : ℕ) → Has x l.refs → (allocate o ob).objs x ≡ ob.objs x =
      λ x there. allocate_keeps o ob v s x (l.listing.held x there) in
    record {
      refs = l.refs;
      listing = record {
        sorted = Chain-less_cong s ob.objs (allocate o ob).objs l.refs old l.listing.sorted;
        held = l.listing.held;
        complete = l.listing.complete;
      };
      same =
          entries-same ob (allocate o ob) l.refs old (λ x there.
            let used = (v.held s x (l.listing.held x there)).in_use in ground (arith, used))
          ∙ l.same;
    }

module _ (s : Side) (r : ℕ) (ob : Orderbook) (v : IsValid ob) (e : IsEntering ob r)
    (side_name : (ob.objs r).side ≡ name s)
    (latest : (t : Side) (x : ℕ) → Holds (heap t ob) x → IsLatest ob.objs r x) where
  rested-Listed :
      (es : List Entry)
      → Listed s ob es
      → Listed s (rested s r ob) (join s (entry ob.objs ob.remaining r) es)
  rested-Listed es l =
      let g = Heap.push (less s ob.objs) (heap s ob) r in
      record {
        refs = join_ref s ob.objs r l.refs;
        listing =
            IsListing-self s g
              (changed ob ob.remaining (insert (ob.objs r).order_id r ob.orders) ob.clock) ob.objs
              (join_ref s ob.objs r l.refs)
              (Pushes-IsListing s ob.objs r (heap s ob) g l.refs (pushed s r ob v e side_name)
                (λ x there. IsLatest-apart s ob.objs r x (latest s x there)) l.listing);
        same =
            entries-join_ref s r ob l.refs (λ x there. latest s x (l.listing.held x there))
            ∙ ap (join s (entry ob.objs ob.remaining r)) l.same;
      }

  rested-opposite-Listed :
      (es : List Entry) → Listed (opposite s) ob es → Listed (opposite s) (rested s r ob) es
  rested-opposite-Listed es l = record {
    refs = l.refs;
    listing =
        IsListing-opposite s (Heap.push (less s ob.objs) (heap s ob) r)
          (changed ob ob.remaining (insert (ob.objs r).order_id r ob.orders) ob.clock) ob.objs
          l.refs
          (record {
            sorted = l.listing.sorted;
            held = l.listing.held;
            complete = l.listing.complete;
          });
    same = l.same;
  }

  rest-Shows :
      (m : Queues)
      → Shows ob m
      → Shows (rest r ob) (with_queue s (join s (entry ob.objs ob.remaining r) (queue s m)) m)
  rest-Shows m shows =
      subst (λ b. Shows b (with_queue s (join s (entry ob.objs ob.remaining r) (queue s m)) m))
        (sym (rest-eq s r ob v e side_name))
        (Shows-with_queue s (rested s r ob) (join s (entry ob.objs ob.remaining r) (queue s m)) m
          (rested-Listed (queue s m) (shows s))
          (rested-opposite-Listed (queue (opposite s) m) (shows (opposite s))))

  -- `finish_order` is `settle`.
  pub finish_order_settles :
      (m : Queues)
      → Shows ob m
      → (map reply (finish_order r ob).0
          ≡ (settle s (taker_of (ob.objs r)) (ob.objs r).session_id (ob.remaining r) m).0)
        × Shows
            (finish_order r ob).1
            (settle s (taker_of (ob.objs r)) (ob.objs r).session_id (ob.remaining r) m).1
  unfolding finish_order settle reply
  finish_order_settles m shows = elim (Bool-cases (ltb 0 (ob.remaining r))) [
    | inr filled ↦ elim (Bool-cases (str_eq (ob.objs r).order_type "market")) [
      | inl market ↦ rw (market, filled) (refl, shows)
      | inr limit ↦ rw (limit, filled) (refl, shows)
    ]
    | inl left ↦ elim (Bool-cases (str_eq (ob.objs r).order_type "market")) [
      | inl market ↦
          rw (market, left) (refl, λ t. clock-Listed t ob (now ob.clock).1 (queue t m) (shows t))
      | inr limit ↦ rw (limit, left) (refl, rest-Shows m shows)
    ]
  ]
