-- ===== src/Engine/Queues/Take.antt =====
-- `match` of services/stub/main.go on the queue of the side that it takes from.
use obarena.Prelude.{ℕ, zero, suc, ◌<◌, ◌≡◌, refl, List, [], map, true, ◌&&◌, not, ltb, arith}
use obarena.Engine.Message.{FillMessage, fill}
use obarena.Engine.Heap.{Heap}
use obarena.Engine.Heap.Index.{Holds, Rearranges}
use obarena.Engine.Book.{
  Order, Orderbook, Side, buy, sell, opposite, slice, heap, is_done, too_far, match_loop,
}
use obarena.Engine.Queues.{Entry, Taker, take, meets, reply}
use obarena.Engine.Queues.Listing.{IsListing, entries}

abbrev pub taker_of : Order → Taker
taker_of o = record { order_id = o.order_id; order_type = o.order_type; price = o.price }

-- What `ob'` is after the fills of `t` for `n` from the queue `es` of side `s`.
pub record Took (s : Side) (t : Taker) (n : ℕ) (es : List Entry) (r : ℕ) (ob : Orderbook)
    (fills : List FillMessage) (ob' : Orderbook) : Type 0 where
  pub sent : map (λ f. reply (fill f)) fills ≡ (take s t n es).0
  pub left : ob'.remaining r ≡ (take s t n es).1
  pub rest : List ℕ
  pub listing : IsListing s ob'.objs (heap s ob') rest
  pub same : entries ob' rest ≡ (take s t n es).2
  pub other :
      (p : List ℕ)
      → IsListing (opposite s) ob.objs (heap (opposite s) ob) p
      → IsListing (opposite s) ob'.objs (heap (opposite s) ob') p × (entries ob' p ≡ entries ob p)

pub Rearranges-IsListing :
    (s : Side) (objs : ℕ → Order) (h g : Heap) (q : List ℕ)
    → Rearranges h g
    → IsListing s objs h q
    → IsListing s objs g q
Rearranges-IsListing s objs h g q p l = record {
  sorted = l.sorted;
  held = λ x there. p.keeps x (l.held x there);
  complete = λ x there. l.complete x (p.adds_none x there);
}

pub is_done-meets :
    (s : Side) (r : ℕ) (ob : Orderbook)
    → 0 < (slice s ob).len
    → is_done s r ob
      ≡ not (
          ltb 0 (ob.remaining r)
          && meets s (taker_of (ob.objs r)) (ob.objs ((slice s ob).at 0)).price)
unfolding is_done too_far meets
is_done-meets buy r ob some_left = ground (arith, some_left)
is_done-meets sell r ob some_left = ground (arith, some_left)

pub match_loop_over :
    (fuel : ℕ) (s : Side) (r : ℕ) (ob : Orderbook)
    → is_done s r ob ≡ true
    → match_loop fuel s r ob ≡ ([], ob)
unfolding match_loop
match_loop_over zero s r ob over = refl
match_loop_over (suc fuel) s r ob over = rw (over, match_loop) refl

pub some_held : (h : Heap) (r : ℕ) → Holds h r → 0 < h.len
some_held h r (i, hi, e) = omega (arith, hi)
