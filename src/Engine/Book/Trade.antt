-- ===== src/Engine/Book/Trade.antt =====
-- One round of `match` of services/stub/main.go.
use mathlib.Core.Path.{subst}
use obarena.Prelude.{
  ℕ, ◌+◌, ◌-◌, ◌<◌, ◌≤◌, ◌≡◌, ◌≢◌, ◌⊎◌, inl, inr, refl, sym, delete, arith, update, lookup-delete,
  Bool-cases, false, if◌then◌else◌, ◌==◌,
}
use obarena.Engine.Clock.{now}
use obarena.Engine.Heap
use obarena.Engine.Heap.{Heap}
use obarena.Engine.Heap.Index.{Holds}
use obarena.Engine.Heap.Order.{IsOrdered, pop-IsOrdered, fix-IsOrdered, IsOrdered-root}
use obarena.Engine.Heap.Members.{pop-Drops, fix-Rearranges}
use obarena.Engine.Book.{Orderbook, Side, buy, sell, less, slice, heap, with_heap, trade, min64}
use obarena.Engine.Book.Less.{less-IsWeakOrder}
use obarena.Engine.Book.Valid.{IsValid, Rests, changed}
use obarena.Engine.Book.Shrinks.{IsEntering, Shrinks, with_heap-Holds}
use obarena.Engine.Book.Changes.{Drops-IsValid, Rearranges-IsValid}

pub slice-with_heap_len :
    (s : Side) (g : Heap) (ob : Orderbook) → (slice s (with_heap s g ob)).len ≡ g.len
slice-with_heap_len buy g ob = refl
slice-with_heap_len sell g ob = refl

module _ (s : Side) (r : ℕ) (ob : Orderbook) where
  abbrev pub best : ℕ
  best = (slice s ob).at 0

  abbrev pub traded_qty : ℕ
  traded_qty = min64 (ob.remaining r) (ob.remaining best)

  abbrev pub traded_remaining : ℕ → ℕ
  traded_remaining =
      let rem = update ob.remaining r (ob.remaining r - traded_qty) in
      update rem best (rem best - traded_qty)

  abbrev pub popped : Orderbook
  popped =
      with_heap s (Heap.pop (less s ob.objs) (heap s ob))
        (changed ob traded_remaining (delete (ob.objs best).order_id ob.orders) (now ob.clock).1)

  abbrev pub fixed : Orderbook
  fixed =
      with_heap s (Heap.fix (less s ob.objs) (heap s ob) 0)
        (changed ob traded_remaining ob.orders (now ob.clock).1)

  pub trade_cases : (trade s r ob).1 ≡ (if traded_remaining best == 0 then popped else fixed)
  unfolding trade
  trade_cases = refl

  module _ (v : IsValid ob) (e : IsEntering ob r) (some_left : 0 < (slice s ob).len) where
    best_held : Holds (heap s ob) best
    best_held = (0, some_left, refl)

    best-ne : best ≢ r
    best-ne same = e.fresh (s, subst (Holds (heap s ob)) same best_held)

    remaining-popped-IsValid : IsValid popped
    remaining-popped-IsValid =
        let o =
          pop-IsOrdered (less s ob.objs) (less-IsWeakOrder ob.objs s) (heap s ob) some_left
            (v.ordered s) in
        let d = pop-Drops (less s ob.objs) (heap s ob) (v.indexed s) some_left in
        Drops-IsValid s ob v best best_held traded_remaining
          (λ q held ne.
            let ne' : q ≢ r = λ same. e.fresh (subst (Rests ob) same held) in ground arith)
          (now ob.clock).1 (Heap.pop (less s ob.objs) (heap s ob)) d
          (subst (IsOrdered (less s ob.objs) (Heap.pop (less s ob.objs) (heap s ob)))
            (omega (arith, d.one_less)) o)

    fixed-IsValid : (traded_remaining best == 0) ≡ false → IsValid fixed
    fixed-IsValid left =
        let o =
          fix-IsOrdered (less s ob.objs) (less-IsWeakOrder ob.objs s) (heap s ob) 0 some_left
            (v.ordered s) in
        let p = fix-Rearranges (less s ob.objs) (heap s ob) 0 (v.indexed s) some_left in
        Rearranges-IsValid s ob (Heap.fix (less s ob.objs) (heap s ob) 0) traded_remaining
          (now ob.clock).1 v
          (λ q held.
            let ne' : q ≢ r = λ same. e.fresh (subst (Rests ob) same held) in
            let live = (v.held held.0 q held.1).live in ground arith)
          p
          (subst (IsOrdered (less s ob.objs) (Heap.fix (less s ob.objs) (heap s ob) 0))
            (sym p.same_len) o)

    pub trade-IsValid : IsValid (trade s r ob).1
    trade-IsValid = rw trade_cases (elim (Bool-cases (traded_remaining best == 0)) [
      | inl gone ↦ rw gone remaining-popped-IsValid
      | inr left ↦ rw left (fixed-IsValid left)
    ])

    popped-Shrinks : Shrinks ob popped
    popped-Shrinks = record {
      same_objs = refl;
      same_next = refl;
      holds =
          with_heap-Holds s (Heap.pop (less s ob.objs) (heap s ob)) ob
            (pop-Drops (less s ob.objs) (heap s ob) (v.indexed s) some_left).adds_none;
      orders =
          λ k none_there. rw (lookup-delete (ob.objs best).order_id k ob.orders) (ground arith);
    }

    fixed-Shrinks : Shrinks ob fixed
    fixed-Shrinks = record {
      same_objs = refl;
      same_next = refl;
      holds =
          with_heap-Holds s (Heap.fix (less s ob.objs) (heap s ob) 0) ob
            (fix-Rearranges (less s ob.objs) (heap s ob) 0 (v.indexed s) some_left).adds_none;
      orders = λ k none_there. none_there;
    }

    pub trade-Shrinks : Shrinks ob (trade s r ob).1
    trade-Shrinks = rw trade_cases (elim (Bool-cases (traded_remaining best == 0)) [
      | inl gone ↦ rw gone popped-Shrinks
      | inr left ↦ rw left fixed-Shrinks
    ])

    -- What is filled of the entering order is gone from it, and from the best order.
    pub trade_conserves :
        ((trade s r ob).0.filled_qty + (trade s r ob).1.remaining r ≡ ob.remaining r)
        × ((trade s r ob).0.filled_qty + (trade s r ob).1.remaining best ≡ ob.remaining best)
        × ((trade s r ob).0.remaining ≡ (trade s r ob).1.remaining r)
    unfolding trade min64
    trade_conserves = let ne = best-ne in ground arith

    -- A round fills the entering order, or takes the best order off the book.
    pub trade_progress :
        ((trade s r ob).1.remaining r ≡ 0) ⊎ ((slice s (trade s r ob).1).len + 1 ≡ (slice s ob).len)
    trade_progress =
        let d = pop-Drops (less s ob.objs) (heap s ob) (v.indexed s) some_left in
        rw trade_cases (elim (Bool-cases (traded_remaining best == 0)) [
          | inl gone ↦ rw gone (inr (rw slice-with_heap_len d.one_less))
          | inr left ↦ rw left (inl (let ne = best-ne in unfold min64 in ground arith))
        ])

    pub trade_len : (slice s (trade s r ob).1).len ≤ (slice s ob).len
    trade_len =
        let d = pop-Drops (less s ob.objs) (heap s ob) (v.indexed s) some_left in
        let p = fix-Rearranges (less s ob.objs) (heap s ob) 0 (v.indexed s) some_left in
        rw trade_cases (elim (Bool-cases (traded_remaining best == 0)) [
          | inl gone ↦ rw gone (rw slice-with_heap_len (omega (arith, d.one_less)))
          | inr left ↦ rw left (rw slice-with_heap_len (omega (arith, p.same_len)))
        ])

    pub filled_pos : 0 < ob.remaining r → 0 < (trade s r ob).0.filled_qty
    unfolding trade min64
    filled_pos wanted = let live = (v.held s best best_held).live in ground arith

    -- The price is that of the best order, which no order of its side precedes.
    pub trade-best :
        (q : ℕ)
        → Holds (heap s ob) q
        → ((trade s r ob).0.fill_price ≡ (ob.objs best).price) × (less s ob.objs q best ≡ false)
    unfolding trade
    trade-best q (i, hi, e) = (
      refl,
      subst (λ x. less s ob.objs x best ≡ false) e
          (IsOrdered-root (less s ob.objs) (less-IsWeakOrder ob.objs s) (heap s ob) i (v.ordered s)
            hi),
    )
