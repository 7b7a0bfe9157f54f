-- ===== src/Engine/Book/Rest.antt =====
-- A new order enters the memory, and `rest` puts it on the book.
use mathlib.Core.Path.{subst}
use obarena.Prelude.{
  ℕ, ◌<◌, ◌≡◌, ◌⊎◌, inl, inr, refl, sym, ap, ◌∙◌, lookup, some, none, arith, insert,
}
use obarena.Engine.Clock.{Clock}
use obarena.Engine.Heap
use obarena.Engine.Heap.{Heap}
use obarena.Engine.Heap.Index.{Holds}
use obarena.Engine.Heap.Order.{IsOrdered, push-IsOrdered}
use obarena.Engine.Heap.Members.{Pushes, push-Pushes}
use obarena.Engine.Book.{
  Order, Orderbook, Side, buy, sell, name, less, side_of, heap, with_heap, allocate, rest,
}
use obarena.Engine.Book.Less.{less-IsWeakOrder}
use obarena.Engine.Book.Valid.{IsValid, changed}
use obarena.Engine.Book.Changes.{Pushes-IsValid}
use obarena.Engine.Book.Shrinks.{IsEntering}

pub less_cong :
    (s : Side) (f g : ℕ → Order) (a b : ℕ) → f a ≡ g a → f b ≡ g b → less s f a b ≡ less s g a b
unfolding less
less_cong buy f g a b p q = rw (p, q) refl
less_cong sell f g a b p q = rw (p, q) refl

pub clock-IsValid : (ob : Orderbook) (c : Clock) → IsValid ob → IsValid (record ob { clock = c })
clock-IsValid ob c v = record {
  ordered = v.ordered;
  indexed = v.indexed;
  held = v.held;
  found = v.found;
  distinct = v.distinct;
}

module _ (o : Order) (ob : Orderbook) (v : IsValid ob) where
  -- What the book holds is older than the new order.
  pub allocate_keeps : (s : Side) (q : ℕ) → Holds (heap s ob) q → (allocate o ob).objs q ≡ ob.objs q
  unfolding allocate
  allocate_keeps s q held = let old = (v.held s q held).in_use in ground arith

  pub allocate-IsValid : IsValid (allocate o ob)
  unfolding allocate
  allocate-IsValid = record {
    ordered = λ s c pc hc.
        less_cong s (allocate o ob).objs ob.objs _ _ (allocate_keeps s _ (c, hc, refl))
          (allocate_keeps s _ (Heap.parent c, omega arith, refl))
        ∙ v.ordered s c pc hc;
    indexed =
        λ s i hi. let old = (v.held s _ (i, hi, refl)).in_use in ground (arith, v.indexed s i hi);
    held = λ s q held.
        let kept = v.held s q held in
        let same = sym (allocate_keeps s q held) in
        record {
          side_name = subst (λ (x : Order). x.side ≡ name s) same kept.side_name;
          live = let old = kept.in_use in let live = kept.live in ground arith;
          mapped = subst (λ (x : Order). lookup x.order_id ob.orders ≡ some q) same kept.mapped;
          in_use = omega (arith, kept.in_use);
        };
    found = λ k q e.
        let (id, (s, held)) = v.found k q e in
        (subst (λ (x : Order). x.order_id ≡ k) (sym (allocate_keeps s q held)) id, (s, held));
    distinct = v.distinct;
  }

  pub allocate-IsEntering : lookup o.order_id ob.orders ≡ none → IsEntering (allocate o ob) ob.next
  unfolding allocate
  allocate-IsEntering unknown = record {
    fresh = λ (s, held). omega (arith, (v.held s ob.next held).in_use);
    unknown = ground (arith, unknown);
    in_use = omega arith;
  }

pub side_of-name : (s : Side) → side_of (name s) ≡ s
unfolding side_of
side_of-name buy = refl
side_of-name sell = refl

abbrev pub rested : Side → ℕ → Orderbook → Orderbook
rested s r ob =
    with_heap s (Heap.push (less s ob.objs) (heap s ob) r)
      (changed ob ob.remaining (insert (ob.objs r).order_id r ob.orders) ob.clock)

rest-eq-rested : (r : ℕ) (ob : Orderbook) → rest r ob ≡ rested (side_of (ob.objs r).side) r ob
unfolding rest
rest-eq-rested r ob = refl

with_heap_adds :
    (s t : Side) (g : Heap) (ob : Orderbook) (q x : ℕ)
    → (Holds g q → Holds (heap s ob) q ⊎ (q ≡ x))
    → Holds (heap t (with_heap s g ob)) q
    → Holds (heap t ob) q ⊎ ((t ≡ s) × (q ≡ x))
with_heap_adds buy buy g ob q x f held = elim (f held) [ inl old ↦ inl old | inr e ↦ inr (refl, e) ]
with_heap_adds buy sell g ob q x f held = inl held
with_heap_adds sell buy g ob q x f held = inl held
with_heap_adds sell sell g ob q x f held = elim (f held) [
  | inl old ↦ inl old
  | inr e ↦ inr (refl, e)
]

module _ (s : Side) (r : ℕ) (ob : Orderbook) (v : IsValid ob) (e : IsEntering ob r)
    (side_name : (ob.objs r).side ≡ name s) where
  pub rest-eq : rest r ob ≡ rested s r ob
  rest-eq = rest-eq-rested r ob ∙ ap (λ t. rested t r ob) (ap side_of side_name ∙ side_of-name s)

  pub pushed : Pushes (heap s ob) r (Heap.push (less s ob.objs) (heap s ob) r)
  pushed = push-Pushes (less s ob.objs) (heap s ob) r (v.indexed s) (λ held. e.fresh (s, held))

  pub rest-IsValid : 0 < ob.remaining r → IsValid (rest r ob)
  rest-IsValid left = rw rest-eq (
      Pushes-IsValid s ob (Heap.push (less s ob.objs) (heap s ob) r) r v e.fresh e.unknown side_name
        left e.in_use pushed
        (subst (IsOrdered (less s ob.objs) (Heap.push (less s ob.objs) (heap s ob) r))
          (sym pushed.one_more)
          (push-IsOrdered (less s ob.objs) (less-IsWeakOrder ob.objs s) (heap s ob) r
            (v.ordered s))))

  -- Only the order itself joins the book, on its side.
  pub rest-Holds :
      (t : Side) (q : ℕ) → Holds (heap t (rest r ob)) q → Holds (heap t ob) q ⊎ ((t ≡ s) × (q ≡ r))
  rest-Holds t q held =
      with_heap_adds s t (Heap.push (less s ob.objs) (heap s ob) r) ob q r (pushed.adds_one q)
        (subst (λ b. Holds (heap t b) q) rest-eq held)

  pub objs-rest : (rest r ob).objs ≡ ob.objs
  objs-rest = ap (λ (b : Orderbook). b.objs) rest-eq
