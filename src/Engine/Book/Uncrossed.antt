-- ===== src/Engine/Book/Uncrossed.antt =====
-- The bids against the asks, in the book of services/stub/main.go.
use mathlib.Core.Path.{subst}
use obarena.Prelude.{ℕ, ◌<◌, ◌≡◌, inl, inr, sym, arith, true}
use obarena.Engine.Heap.Index.{Holds}
use obarena.Engine.Heap.Order.{IsOrdered-root}
use obarena.Engine.Book.{
  Order, Orderbook, Side, buy, sell, name, opposite, less, heap, allocate, rest, is_done, too_far,
}
use obarena.Engine.Book.Less.{less-IsWeakOrder}
use obarena.Engine.Book.Valid.{IsValid}
use obarena.Engine.Book.Shrinks.{IsEntering, Shrinks}
use obarena.Engine.Book.Match.{less-NoWorse}
use obarena.Engine.Book.Rest.{rest-Holds, objs-rest, allocate_keeps}

-- Every bid is below every ask.
pub record IsUncrossed (ob : Orderbook) : Type 0 where
  pub below :
      (b a : ℕ)
      → Holds (heap buy ob) b
      → Holds (heap sell ob) a
      → (ob.objs b).price < (ob.objs a).price

pub Shrinks-IsUncrossed : {ob ob' : Orderbook} → Shrinks ob ob' → IsUncrossed ob → IsUncrossed ob'
Shrinks-IsUncrossed p u = record {
  below = λ b a hb ha.
      subst (λ (f : ℕ → Order). (f b).price < (f a).price) (sym p.same_objs)
        (u.below b a (p.holds buy b hb) (p.holds sell a ha));
}

-- Price `p` of side `s` is apart from a price `q` of the other side.
abbrev Apart : Side → ℕ → ℕ → Type 0
Apart buy p q = p < q
Apart sell p q = q < p

-- Where `match` stops with a limit order unfilled, its price is apart from the whole other side.
is_done-Apart :
    (s : Side) (r : ℕ) (ob : Orderbook)
    → IsValid ob
    → 0 < ob.remaining r
    → is_done (opposite s) r ob ≡ true
    → (q : ℕ) → Holds (heap (opposite s) ob) q
    → Apart s (ob.objs r).price (ob.objs q).price
unfolding is_done too_far
is_done-Apart buy r ob v left over q (i, hi, e) =
    let first =
      IsOrdered-root (less sell ob.objs) (less-IsWeakOrder ob.objs sell) (heap sell ob) i
        (v.ordered sell) hi in
    let no_worse = less-NoWorse sell ob.objs (ob.asks.at i) (ob.asks.at 0) first in
    rw (← e) (ground arith)
is_done-Apart sell r ob v left over q (i, hi, e) =
    let first =
      IsOrdered-root (less buy ob.objs) (less-IsWeakOrder ob.objs buy) (heap buy ob) i
        (v.ordered buy) hi in
    let no_worse = less-NoWorse buy ob.objs (ob.bids.at i) (ob.bids.at 0) first in
    rw (← e) (ground arith)

rest_uncrossed :
    (s : Side) (r : ℕ) (ob : Orderbook) (v : IsValid ob) (e : IsEntering ob r)
    (side_name : (ob.objs r).side ≡ name s)
    → IsUncrossed ob
    → ((q : ℕ) → Holds (heap (opposite s) ob) q → Apart s (ob.objs r).price (ob.objs q).price)
    → (b a : ℕ) → Holds (heap buy (rest r ob)) b
    → Holds (heap sell (rest r ob)) a
    → (ob.objs b).price < (ob.objs a).price
rest_uncrossed buy r ob v e side_name u apart b a hb ha =
    elim (rest-Holds buy r ob v e side_name sell a ha) [
      | inr (wrong, _) ↦ cc
      | inl old_a ↦ elim (rest-Holds buy r ob v e side_name buy b hb) [
        | inl old_b ↦ u.below b a old_b old_a
        | inr (_, new) ↦ rw new (apart a old_a)
      ]
    ]
rest_uncrossed sell r ob v e side_name u apart b a hb ha =
    elim (rest-Holds sell r ob v e side_name buy b hb) [
      | inr (wrong, _) ↦ cc
      | inl old_b ↦ elim (rest-Holds sell r ob v e side_name sell a ha) [
        | inl old_a ↦ u.below b a old_b old_a
        | inr (_, new) ↦ rw new (apart b old_b)
      ]
    ]

-- A limit order that `match` leaves unfilled rests without crossing the book.
pub rest-IsUncrossed :
    (s : Side) (r : ℕ) (ob : Orderbook)
    → IsValid ob
    → IsEntering ob r
    → (ob.objs r).side ≡ name s
    → 0 < ob.remaining r
    → is_done (opposite s) r ob ≡ true
    → IsUncrossed ob
    → IsUncrossed (rest r ob)
rest-IsUncrossed s r ob v e side_name left over u = record {
  below = λ b a hb ha.
      subst (λ (f : ℕ → Order). (f b).price < (f a).price) (sym (objs-rest s r ob v e side_name))
        (rest_uncrossed s r ob v e side_name u (is_done-Apart s r ob v left over) b a hb ha);
}

pub allocate-IsUncrossed :
    (o : Order) (ob : Orderbook) → IsValid ob → IsUncrossed ob → IsUncrossed (allocate o ob)
allocate-IsUncrossed o ob v u = record {
  below = λ b a hb ha.
      let hb' : Holds (heap buy ob) b = unfold allocate in hb in
      let ha' : Holds (heap sell ob) a = unfold allocate in ha in
      rw (allocate_keeps o ob v buy b hb', allocate_keeps o ob v sell a ha') (u.below b a hb' ha');
}
