-- ===== src/Engine/Book/Valid.antt =====
-- The invariant of the book, and how it comes through a change of one heap.
use obarena.Prelude.{
  ℕ, ◌<◌, ◌≡◌, ◌≢◌, ◌⊎◌, inl, inr, refl, sym, ◌∙◌, String, Dict, lookup, IsDistinct, some, arith,
  eq_iff,
}
use mathlib.Core.Path.{subst}
use obarena.Engine.Clock.{Clock}
use obarena.Engine.Heap.{Heap}
use obarena.Engine.Heap.Index.{IsIndexed, Holds}
use obarena.Engine.Heap.Order.{IsOrdered}
use obarena.Engine.Book.{
  Order, Orderbook, Side, buy, sell, name, opposite, less, slice, heap, with_heap,
}

-- Of an order that a heap holds.
pub record Keeps (s : Side) (objs : ℕ → Order) (remaining : ℕ → ℕ) (orders : Dict ℕ) (next r : ℕ)
    : Type 0 where
  pub side_name : (objs r).side ≡ name s
  pub live : 0 < remaining r
  pub mapped : lookup (objs r).order_id orders ≡ some r
  pub in_use : r < next

abbrev pub IsHeld : Side → Orderbook → ℕ → Type 0
IsHeld s ob r = Keeps s ob.objs ob.remaining ob.orders ob.next r

abbrev pub Rests : Orderbook → ℕ → Type 0
Rests ob r = (s : Side) × Holds (heap s ob) r

pub record IsValid (ob : Orderbook) : Type 0 where
  pub ordered : (s : Side) → IsOrdered (less s ob.objs) (heap s ob) (slice s ob).len
  pub indexed : (s : Side) → IsIndexed (heap s ob)
  pub held : (s : Side) (r : ℕ) → Holds (heap s ob) r → IsHeld s ob r
  pub found :
      (k : String) (r : ℕ) → lookup k ob.orders ≡ some r → ((ob.objs r).order_id ≡ k) × Rests ob r
  pub distinct : IsDistinct ob.orders

pub both_sides {ℓ} : (s : Side) (P : Side → Type ℓ) → P s → P (opposite s) → (t : Side) → P t
both_sides buy P a b buy = a
both_sides buy P a b sell = b
both_sides sell P a b buy = b
both_sides sell P a b sell = a

pub heap-with_heap_self : (s : Side) (g : Heap) (ob : Orderbook) → heap s (with_heap s g ob) ≡ g
heap-with_heap_self buy g ob = refl
heap-with_heap_self sell g ob = refl

abbrev pub other_heap : Side → Heap → Orderbook → Heap
other_heap s g ob = record {
  at = (slice (opposite s) ob).at;
  len = (slice (opposite s) ob).len;
  index = g.index;
}

pub heap-with_heap-opposite :
    (s : Side) (g : Heap) (ob : Orderbook)
    → heap (opposite s) (with_heap s g ob) ≡ other_heap s g ob
heap-with_heap-opposite buy g ob = refl
heap-with_heap-opposite sell g ob = refl

name-opposite : (s : Side) → name s ≢ name (opposite s)
name-opposite buy e = ground (arith, eq_iff "buy" "sell")
name-opposite sell e = ground (arith, eq_iff "sell" "buy")

pub Holds-disjoint :
    (s : Side) {ob : Orderbook} (v : IsValid ob) (r : ℕ)
    → Holds (heap s ob) r
    → Holds (heap (opposite s) ob) r
    → ⊥
Holds-disjoint s v r here there =
    name-opposite s (sym (v.held s r here).side_name ∙ (v.held (opposite s) r there).side_name)

-- The book `ob` with other fills, another map and another clock.
abbrev pub changed : Orderbook → (ℕ → ℕ) → Dict ℕ → Clock → Orderbook
changed ob rem orders clock = record ob { remaining = rem; orders = orders; clock = clock }

-- What a new heap `g` of side `s`, with that, must be like for the book to keep its invariant.
pub record Fits (s : Side) (ob : Orderbook) (g : Heap) (rem : ℕ → ℕ) (orders : Dict ℕ)
    (clock : Clock) : Type 0 where
  pub ordered : IsOrdered (less s ob.objs) g g.len
  pub indexed : IsIndexed g
  pub frame : (q : ℕ) → Holds (heap (opposite s) ob) q → g.index q ≡ ob.index q
  pub held : (q : ℕ) → Holds g q → IsHeld s (changed ob rem orders clock) q
  pub held_opposite :
      (q : ℕ) → Holds (heap (opposite s) ob) q → IsHeld (opposite s) (changed ob rem orders clock) q
  pub found :
      (k : String) (q : ℕ)
      → lookup k orders ≡ some q
      → ((ob.objs q).order_id ≡ k) × (Holds g q ⊎ Holds (heap (opposite s) ob) q)
  pub distinct : IsDistinct orders

pub with_heap-IsValid :
    (s : Side) (ob : Orderbook) (g : Heap) (rem : ℕ → ℕ) (orders : Dict ℕ) (clock : Clock)
    → IsValid ob
    → Fits s ob g rem orders clock
    → IsValid (with_heap s g (changed ob rem orders clock))
with_heap-IsValid s ob g rem orders clock v f =
    let ob' = with_heap s g (changed ob rem orders clock) in
    let same = sym (heap-with_heap_self s g (changed ob rem orders clock)) in
    let other = sym (heap-with_heap-opposite s g (changed ob rem orders clock)) in
    record {
      ordered =
          both_sides s (λ t. IsOrdered (less t ob.objs) (heap t ob') (slice t ob').len)
            (subst (λ (h : Heap). IsOrdered (less s ob.objs) h h.len) same f.ordered)
            (subst (λ (h : Heap). IsOrdered (less (opposite s) ob.objs) h h.len) other
              (v.ordered (opposite s)));
      indexed =
          both_sides s (λ t. IsIndexed (heap t ob')) (subst IsIndexed same f.indexed)
            (subst IsIndexed other (λ i hi. f.frame _ (i, hi, refl) ∙ v.indexed (opposite s) i hi));
      held =
          both_sides s (λ t. (q : ℕ) → Holds (heap t ob') q → IsHeld t ob' q)
            (subst (λ h. (q : ℕ) → Holds h q → IsHeld s ob' q) same f.held)
            (subst (λ h. (q : ℕ) → Holds h q → IsHeld (opposite s) ob' q) other f.held_opposite);
      found = λ k q e.
          let (id, there) = f.found k q e in
          (
            id,
            elim there [
              | inl here ↦ (s, subst (λ h. Holds h q) same here)
              | inr elsewhere ↦ (opposite s, subst (λ h. Holds h q) other elsewhere)
            ],
          );
      distinct = f.distinct;
    }

pub by_side :
    (s t : Side) (ob : Orderbook) (q : ℕ)
    → Holds (heap t ob) q
    → Holds (heap s ob) q ⊎ Holds (heap (opposite s) ob) q
by_side buy buy ob q there = inl there
by_side buy sell ob q there = inr there
by_side sell buy ob q there = inr there
by_side sell sell ob q there = inl there
