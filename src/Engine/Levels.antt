-- ===== src/Engine/Levels.antt =====
-- The price levels of a book: `orderbookHandler` of services/stub/main.go.
pub mod Sums
pub mod Sorted
use obarena.Prelude.{ℕ, zero, suc, ◌+◌, ◌%◌, ◌^◌, Bool, ltb, ◌==◌, if◌then◌else◌, List, [], ◌∷◌}
use obarena.Engine.Clock.{now}
use obarena.Engine.Book.{Order, Orderbook, Slice, Side, buy, sell, slice}

-- `quantity` is an `int64` by its bits.
pub record PriceLevel : Type 0 where
  pub price : ℕ
  pub quantity : ℕ

pub record SnapshotResponse : Type 0 where
  pub bids : List PriceLevel
  pub asks : List PriceLevel
  pub timestamp : ℕ

-- `m[price] += quantity`: the map has its entries in some order.
unfoldable pub add_level : ℕ → ℕ → List PriceLevel → List PriceLevel
add_level p q [] = record { price = p; quantity = q % 2 ^ 64 } ∷ []
add_level p q (l ∷ m) =
    let rest = add_level p q m in
    if l.price == p then record l { quantity = (l.quantity + q) % 2 ^ 64 } ∷ m else l ∷ rest

-- The loop over the first `n` orders of a slice.
unfoldable pub price_map : (ℕ → Order) → (ℕ → ℕ) → (ℕ → ℕ) → ℕ → List PriceLevel
unfolding add_level
price_map objs remaining at zero = []
price_map objs remaining at (suc n) =
    add_level (objs (at n)).price (remaining (at n)) (price_map objs remaining at n)

-- The order of `sort.Slice`: the best price of the side first.
abbrev pub is_before : Side → PriceLevel → PriceLevel → Bool
is_before buy l m = ltb m.price l.price
is_before sell l m = ltb l.price m.price

unfoldable pub insert_level : Side → PriceLevel → List PriceLevel → List PriceLevel
insert_level s l [] = l ∷ []
insert_level s l (m ∷ ms) =
    let rest = insert_level s l ms in if is_before s l m then l ∷ m ∷ ms else m ∷ rest

unfoldable pub sort_levels : Side → List PriceLevel → List PriceLevel
unfolding insert_level
sort_levels s [] = []
sort_levels s (l ∷ ls) = insert_level s l (sort_levels s ls)

unfoldable pub levels : Side → Orderbook → List PriceLevel
unfolding price_map sort_levels
levels s ob = sort_levels s (price_map ob.objs ob.remaining (slice s ob).at (slice s ob).len)

unfoldable pub handle_orderbook : Orderbook → SnapshotResponse × Orderbook
unfolding levels
handle_orderbook ob =
    let (ts, clock) = now ob.clock in
    (
      record { bids = levels buy ob; asks = levels sell ob; timestamp = ts },
      record ob { clock = clock },
    )
