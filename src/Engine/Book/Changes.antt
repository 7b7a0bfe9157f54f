-- ===== src/Engine/Book/Changes.antt =====
-- The invariant of the book through `heap.Push`, `heap.Fix`, and the two ways in which an order
-- leaves, `heap.Pop` and `heap.Remove`.
use mathlib.Core.Path.{subst}
use obarena.Prelude.{
  ℕ, ◌<◌, ◌≡◌, ◌≢◌, inl, inr, ap, lookup, delete, insert, none, arith, str_eq, eq_iff,
  lookup-delete, delete-IsDistinct, lookup-insert, insert-IsDistinct, false, lookup-delete-some,
  lookup-insert-some,
}
use obarena.Engine.Clock.{Clock}
use obarena.Engine.Heap.{Heap}
use obarena.Engine.Heap.Index.{Holds, Rearranges}
use obarena.Engine.Heap.Order.{IsOrdered}
use obarena.Engine.Heap.Members.{Drops, Pushes}
use obarena.Engine.Book.{Orderbook, Side, name, opposite, less, heap, with_heap}
use obarena.Engine.Book.Valid.{
  IsValid, IsHeld, Rests, changed, Holds-disjoint, with_heap-IsValid, by_side,
}

module _ (s : Side) (ob : Orderbook) (v : IsValid ob) (r : ℕ) (here : Holds (heap s ob) r)
    (rem : ℕ → ℕ) (same : (q : ℕ) → Rests ob q → q ≢ r → rem q ≡ ob.remaining q)
    (clock : Clock) where
  -- Another held order has another id.
  id-injective :
      (t : Side) (q : ℕ)
      → Holds (heap t ob) q
      → q ≢ r
      → str_eq (ob.objs r).order_id (ob.objs q).order_id ≡ false
  id-injective t q there ne = ground (
    arith,
    (v.held s r here).mapped,
    (v.held t q there).mapped,
    eq_iff (ob.objs r).order_id (ob.objs q).order_id,
  )

  stays-IsHeld :
      (t : Side) (q : ℕ)
      → Holds (heap t ob) q
      → q ≢ r
      → IsHeld t (changed ob rem (delete (ob.objs r).order_id ob.orders) clock) q
  stays-IsHeld t q there ne =
      let old = v.held t q there in
      record {
        side_name = old.side_name;
        live = rw (same q (t, there) ne) old.live;
        mapped =
            rw (lookup-delete (ob.objs r).order_id (ob.objs q).order_id ob.orders)
              (rw (id-injective t q there ne) old.mapped);
        in_use = old.in_use;
      }

  -- An order leaves the heap of its side and the map, whatever becomes of its quantity.
  pub Drops-IsValid :
      (g : Heap)
      → Drops (heap s ob) r g
      → IsOrdered (less s ob.objs) g g.len
      → IsValid (with_heap s g (changed ob rem (delete (ob.objs r).order_id ob.orders) clock))
  Drops-IsValid g d o =
      let other_side : (q : ℕ) → Holds (heap (opposite s) ob) q → q ≢ r =
        λ q there e. Holds-disjoint s v r here (subst (Holds (heap (opposite s) ob)) e there) in
      with_heap-IsValid s ob g rem (delete (ob.objs r).order_id ob.orders) clock v (record {
        ordered = o;
        indexed = d.indexed;
        frame = λ q there. d.frame q (λ held. Holds-disjoint s v q held there) (other_side q there);
        held = λ q there.
            stays-IsHeld s q (d.adds_none q there) (λ e. d.gone (subst (Holds g) e there));
        held_opposite = λ q there. stays-IsHeld (opposite s) q there (other_side q there);
        found = λ k q e.
            let (other, e') = lookup-delete-some (ob.objs r).order_id k q ob.orders e in
            let (id, (t, there)) = v.found k q e' in
            let ne : q ≢ r = λ same_ref.
              ground
                (arith, eq_iff (ob.objs r).order_id k, ap (λ x. (ob.objs x).order_id) same_ref) in
            (
              id,
              elim (by_side s t ob q there) [
                | inl on_side ↦ inl (d.keeps q on_side ne)
                | inr on_other ↦ inr on_other
              ],
            );
        distinct = delete-IsDistinct _ ob.orders v.distinct;
      })

-- The places change and the orders stay, each with something left.
pub Rearranges-IsValid :
    (s : Side) (ob : Orderbook) (g : Heap) (rem : ℕ → ℕ) (clock : Clock)
    → IsValid ob
    → ((q : ℕ) → Rests ob q → 0 < rem q)
    → Rearranges (heap s ob) g
    → IsOrdered (less s ob.objs) g g.len
    → IsValid (with_heap s g (changed ob rem ob.orders clock))
Rearranges-IsValid s ob g rem clock v live p o =
    let still : (t : Side) (q : ℕ)
        → Holds (heap t ob) q
        → IsHeld t (changed ob rem ob.orders clock) q =
      λ t q there.
        let old = v.held t q there in
        record {
          side_name = old.side_name;
          live = live q (t, there);
          mapped = old.mapped;
          in_use = old.in_use;
        } in
    with_heap-IsValid s ob g rem ob.orders clock v (record {
      ordered = o;
      indexed = p.indexed;
      frame = λ q there. p.frame q (λ held. Holds-disjoint s v q held there);
      held = λ q there. still s q (p.adds_none q there);
      held_opposite = still (opposite s);
      found = λ k q e.
          let (id, (t, there)) = v.found k q e in
          (
            id,
            elim (by_side s t ob q there) [
              | inl on_side ↦ inl (p.keeps q on_side)
              | inr on_other ↦ inr on_other
            ],
          );
      distinct = v.distinct;
    })

-- A new order, in memory and not yet in the book, joins the heap of its side and the map.
pub Pushes-IsValid :
    (s : Side) (ob : Orderbook) (g : Heap) (r : ℕ)
    → IsValid ob
    → ¬ Rests ob r
    → lookup (ob.objs r).order_id ob.orders ≡ none
    → (ob.objs r).side ≡ name s
    → 0 < ob.remaining r
    → r < ob.next
    → Pushes (heap s ob) r g
    → IsOrdered (less s ob.objs) g g.len
    → IsValid
        (with_heap s g (changed ob ob.remaining (insert (ob.objs r).order_id r ob.orders) ob.clock))
Pushes-IsValid s ob g r v fresh unknown side_name live in_use p o =
    let id = (ob.objs r).order_id in
    let orders = insert id r ob.orders in
    let still : (t : Side) (q : ℕ)
        → Holds (heap t ob) q
        → IsHeld t (changed ob ob.remaining orders ob.clock) q =
      λ t q there.
        let old = v.held t q there in
        record {
          side_name = old.side_name;
          live = old.live;
          mapped =
              rw (lookup-insert id (ob.objs q).order_id r ob.orders)
                (ground (arith, eq_iff id (ob.objs q).order_id, old.mapped));
          in_use = old.in_use;
        } in
    let ne : (t : Side) (q : ℕ) → Holds (heap t ob) q → q ≢ r =
      λ t q there e. fresh (t, subst (Holds (heap t ob)) e there) in
    with_heap-IsValid s ob g ob.remaining orders ob.clock v (record {
      ordered = o;
      indexed = p.indexed;
      frame =
          λ q there. p.frame q (λ held. Holds-disjoint s v q held there) (ne (opposite s) q there);
      held = λ q there. elim (p.adds_one q there) [
        | inl old ↦ still s q old
        | inr e ↦ rw e (record {
          side_name = side_name;
          live = live;
          mapped = rw (lookup-insert id id r ob.orders) (ground (arith, eq_iff id id));
          in_use = in_use;
        })
      ];
      held_opposite = still (opposite s);
      found = λ k q e. elim (lookup-insert-some id k r q ob.orders e) [
        | inl (same_id, same) ↦ rw (← same) (same_id, inl p.new)
        | inr (_, e') ↦
            let (id', (t, there)) = v.found k q e' in
            (
              id',
              elim (by_side s t ob q there) [
                | inl on_side ↦ inl (p.keeps q on_side)
                | inr on_other ↦ inr on_other
              ],
            )
      ];
      distinct = insert-IsDistinct id r ob.orders v.distinct;
    })
