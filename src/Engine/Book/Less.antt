-- ===== src/Engine/Book/Less.antt =====
-- `Less` of the two heaps of services/stub/main.go, as an order by price and time.
use obarena.Prelude.{ℕ, arith}
use obarena.Engine.Book.{Order, Side, buy, sell, bid_less, ask_less, less}
use obarena.Engine.Heap.Order.{IsWeakOrder}

module _ (objs : ℕ → Order) where
  bid_less-IsWeakOrder : IsWeakOrder (less buy objs)
  unfolding less bid_less
  bid_less-IsWeakOrder = record { asym = λ a b h. ground arith; trans = λ a b c h k. ground arith }

  ask_less-IsWeakOrder : IsWeakOrder (less sell objs)
  unfolding less ask_less
  ask_less-IsWeakOrder = record { asym = λ a b h. ground arith; trans = λ a b c h k. ground arith }

  pub less-IsWeakOrder : (s : Side) → IsWeakOrder (less s objs)
  less-IsWeakOrder buy = bid_less-IsWeakOrder
  less-IsWeakOrder sell = ask_less-IsWeakOrder
