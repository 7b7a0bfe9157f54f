-- ===== src/Engine/Book/Remove.antt =====
-- `remove` and `cancelSession` of services/stub/main.go.
use mathlib.Core.Path.{subst}
use obarena.Prelude.{
  ℕ, ◌<◌, ◌≡◌, inl, inr, refl, sym, String, lookup, delete, some, none, arith, str_eq, eq_iff,
  lookup-delete, pos, if◌then◌else◌, lt→ltb, some-cases,
}
use obarena.Engine.Heap
use obarena.Engine.Heap.{Heap}
use obarena.Engine.Heap.Index.{Holds}
use obarena.Engine.Heap.Order.{IsOrdered, remove-IsOrdered}
use obarena.Engine.Heap.Members.{Drops, remove-Drops}
use obarena.Engine.Book.{
  Orderbook, Side, buy, sell, name, less, slice, heap, with_heap, remove, remove_found, remove_at,
}
use obarena.Engine.Book.Less.{less-IsWeakOrder}
use obarena.Engine.Book.Valid.{IsValid, changed}
use obarena.Engine.Book.Shrinks.{Shrinks, Shrinks-refl, with_heap-Holds}
use obarena.Engine.Book.Changes.{Drops-IsValid}

remove_by_side :
    (s : Side) (ob : Orderbook) (r i : ℕ)
    → (ob.objs r).side ≡ name s
    → lookup (ob.objs r).order_id ob.orders ≡ some r
    → ob.index r ≡ pos i
    → i < (slice s ob).len
    → remove (ob.objs r).order_id ob
      ≡ with_heap s
          (Heap.remove (less s ob.objs) (heap s ob) i)
          (changed ob ob.remaining (delete (ob.objs r).order_id ob.orders) ob.clock)
unfolding remove remove_found remove_at
remove_by_side buy ob r i side_name mapped place hi =
    rw (mapped, side_name, place, lt→ltb i ob.bids.len hi)
remove_by_side sell ob r i side_name mapped place hi =
    rw (mapped, side_name, place, lt→ltb i ob.asks.len hi)

module _ (s : Side) (ob : Orderbook) (v : IsValid ob) (r : ℕ) (here : Holds (heap s ob) r) where
  index_of_held : (i : ℕ) → i < (slice s ob).len → (slice s ob).at i ≡ r → ob.index r ≡ pos i
  index_of_held i hi e = rw (← e) (v.indexed s i hi)

  -- The book without the order: `heap.Remove` at the place that its `index` says.
  abbrev pub without : Orderbook
  without =
      with_heap s (Heap.remove (less s ob.objs) (heap s ob) here.0)
        (changed ob ob.remaining (delete (ob.objs r).order_id ob.orders) ob.clock)

  pub heap-Drops : Drops (heap s ob) r (Heap.remove (less s ob.objs) (heap s ob) here.0)
  heap-Drops =
      subst (λ x. Drops (heap s ob) x (Heap.remove (less s ob.objs) (heap s ob) here.0)) here.2
        (remove-Drops (less s ob.objs) (heap s ob) here.0 (v.indexed s) here.1)

  heap-IsOrdered :
      IsOrdered
        (less s ob.objs)
        (Heap.remove (less s ob.objs) (heap s ob) here.0)
        (Heap.remove (less s ob.objs) (heap s ob) here.0).len
  heap-IsOrdered =
      subst (IsOrdered (less s ob.objs) (Heap.remove (less s ob.objs) (heap s ob) here.0))
        (omega (arith, heap-Drops.one_less))
        (remove-IsOrdered (less s ob.objs) (less-IsWeakOrder ob.objs s) (heap s ob) here.0 here.1
          (v.ordered s))

  without-IsValid : IsValid without
  without-IsValid =
      Drops-IsValid s ob v r here ob.remaining (λ q _ _. refl) ob.clock
        (Heap.remove (less s ob.objs) (heap s ob) here.0) heap-Drops heap-IsOrdered

  -- In a valid book the tests on the side and on `index` hold.
  pub remove-eq-without : remove (ob.objs r).order_id ob ≡ without
  remove-eq-without =
      let kept = v.held s r here in
      remove_by_side s ob r here.0 kept.side_name kept.mapped (index_of_held here.0 here.1 here.2)
        here.1

-- An id that no order has: nothing changes.
pub remove_unknown : (id : String) (ob : Orderbook) → lookup id ob.orders ≡ none → remove id ob ≡ ob
unfolding remove remove_found
remove_unknown id ob e = rw e

-- `remove` keeps the invariant, whatever the id.
pub remove-IsValid : (id : String) (ob : Orderbook) → IsValid ob → IsValid (remove id ob)
remove-IsValid id ob v = elim (some-cases (lookup id ob.orders)) [
  | inl e ↦ subst IsValid (sym (remove_unknown id ob e)) v
  | inr (r, e) ↦
      let (same_id, (s, here)) = v.found id r e in
      subst (λ k. IsValid (remove k ob)) same_id
        (subst IsValid (sym (remove-eq-without s ob v r here)) (without-IsValid s ob v r here))
]

without-Shrinks :
    (s : Side) (ob : Orderbook) (v : IsValid ob) (r : ℕ) (here : Holds (heap s ob) r)
    → Shrinks ob (without s ob v r here)
without-Shrinks s ob v r here = record {
  same_objs = refl;
  same_next = refl;
  holds =
      with_heap-Holds s (Heap.remove (less s ob.objs) (heap s ob) here.0) ob
        (heap-Drops s ob v r here).adds_none;
  orders = λ k e. rw (lookup-delete (ob.objs r).order_id k ob.orders) (ground arith);
}

pub remove-Shrinks : (id : String) (ob : Orderbook) → IsValid ob → Shrinks ob (remove id ob)
remove-Shrinks id ob v = elim (some-cases (lookup id ob.orders)) [
  | inl e ↦ rw (remove_unknown id ob e) (Shrinks-refl ob)
  | inr (r, e) ↦
      let (same_id, (s, here)) = v.found id r e in
      subst (λ k. Shrinks ob (remove k ob)) same_id
        (rw (remove-eq-without s ob v r here) (without-Shrinks s ob v r here))
]

-- In the map, `remove` deletes the id and nothing else.
pub orders-remove :
    (id : String) (ob : Orderbook)
    → IsValid ob
    → (k : String)
    → lookup k (remove id ob).orders ≡ (if str_eq id k then none else lookup k ob.orders)
orders-remove id ob v k = elim (some-cases (lookup id ob.orders)) [
  | inl e ↦ rw (remove_unknown id ob e) (ground (arith, eq_iff id k, e))
  | inr (r, e) ↦
      let (same_id, (s, here)) = v.found id r e in
      subst (λ j. lookup k (remove j ob).orders ≡ (if str_eq j k then none else lookup k ob.orders))
        same_id
        (rw (remove-eq-without s ob v r here) (lookup-delete (ob.objs r).order_id k ob.orders))
]
