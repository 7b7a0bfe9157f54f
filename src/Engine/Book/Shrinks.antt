-- ===== src/Engine/Book/Shrinks.antt =====
-- Steps after which the book holds no order that it did not hold.
use obarena.Prelude.{ℕ, ◌<◌, ◌≡◌, refl, ◌∙◌, String, lookup, none}
use obarena.Engine.Heap.{Heap}
use obarena.Engine.Heap.Index.{Holds}
use obarena.Engine.Book.{Orderbook, Side, buy, sell, heap, with_heap}
use obarena.Engine.Book.Valid.{Rests}

-- An order in memory that is not in the book.
pub record IsEntering (ob : Orderbook) (r : ℕ) : Type 0 where
  pub fresh : ¬ Rests ob r
  pub unknown : lookup (ob.objs r).order_id ob.orders ≡ none
  pub in_use : r < ob.next

-- No order joins side `t` or changes.
pub record Shrinks (ob ob' : Orderbook) : Type 0 where
  pub same_objs : ob'.objs ≡ ob.objs
  pub same_next : ob'.next ≡ ob.next
  pub holds : (t : Side) (q : ℕ) → Holds (heap t ob') q → Holds (heap t ob) q
  pub orders : (k : String) → lookup k ob.orders ≡ none → lookup k ob'.orders ≡ none

pub Shrinks-refl : (ob : Orderbook) → Shrinks ob ob
Shrinks-refl ob = record {
  same_objs = refl;
  same_next = refl;
  holds = λ t q h. h;
  orders = λ k e. e;
}

pub Shrinks-trans : {a b c : Orderbook} → Shrinks a b → Shrinks b c → Shrinks a c
Shrinks-trans p q = record {
  same_objs = q.same_objs ∙ p.same_objs;
  same_next = q.same_next ∙ p.same_next;
  holds = λ t x h. p.holds t x (q.holds t x h);
  orders = λ k e. q.orders k (p.orders k e);
}

pub Shrinks-IsEntering :
    {ob ob' : Orderbook} (r : ℕ) → Shrinks ob ob' → IsEntering ob r → IsEntering ob' r
Shrinks-IsEntering {ob} {ob'} r p e = record {
  fresh = λ (t, held). e.fresh (t, p.holds t r held);
  unknown = rw p.same_objs (p.orders _ e.unknown);
  in_use = rw p.same_next e.in_use;
}

pub with_heap-Holds :
    (s : Side) (g : Heap) (ob : Orderbook)
    → ((q : ℕ) → Holds g q → Holds (heap s ob) q)
    → (t : Side) (q : ℕ) → Holds (heap t (with_heap s g ob)) q
    → Holds (heap t ob) q
with_heap-Holds buy g ob f buy q h = f q h
with_heap-Holds buy g ob f sell q h = h
with_heap-Holds sell g ob f buy q h = h
with_heap-Holds sell g ob f sell q h = f q h
