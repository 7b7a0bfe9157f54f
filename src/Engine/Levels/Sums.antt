-- ===== src/Engine/Levels/Sums.antt =====
-- What the levels of `orderbookHandler` add up to.
use obarena.Prelude.{
  ℕ, zero, suc, ◌+◌, ◌%◌, ◌^◌, ◌≡◌, refl, arith, ◌==◌, if◌then◌else◌, List, [], ◌∷◌,
}
use obarena.Engine.Book.{Order, Orderbook, Side, slice}
use obarena.Engine.Levels.{PriceLevel, add_level, price_map, insert_level, sort_levels, levels}

-- What the levels have at a price.
pub quantity_at : ℕ → List PriceLevel → ℕ
quantity_at p [] = 0
quantity_at p (l ∷ ls) =
    let rest = quantity_at p ls in if l.price == p then l.quantity + rest else rest

-- What is left of the orders at a price, among the first `n`.
pub resting_at : (ℕ → Order) → (ℕ → ℕ) → (ℕ → ℕ) → ℕ → ℕ → ℕ
resting_at objs remaining at p zero = 0
resting_at objs remaining at p (suc n) =
    let rest = resting_at objs remaining at p n in
    if (objs (at n)).price == p then remaining (at n) + rest else rest

quantity_at-insert_level :
    (s : Side) (p : ℕ) (l : PriceLevel) (ls : List PriceLevel)
    → quantity_at p (insert_level s l ls) ≡ quantity_at p (l ∷ ls)
unfolding insert_level quantity_at
quantity_at-insert_level s p l [] = refl
quantity_at-insert_level s p l (m ∷ ms) = ground (arith, quantity_at-insert_level s p l ms)

quantity_at-sort_levels :
    (s : Side) (p : ℕ) (ls : List PriceLevel) → quantity_at p (sort_levels s ls) ≡ quantity_at p ls
unfolding sort_levels quantity_at
quantity_at-sort_levels s p [] = refl
quantity_at-sort_levels s p (l ∷ ls) =
    ground
      (arith, quantity_at-sort_levels s p ls, quantity_at-insert_level s p l (sort_levels s ls))

quantity_at-add_level :
    (p r q : ℕ) (ls : List PriceLevel)
    → quantity_at p (add_level r q ls) % 2 ^ 64
      ≡ (if r == p then q + quantity_at p ls else quantity_at p ls) % 2 ^ 64
unfolding add_level quantity_at
quantity_at-add_level p r q [] = ground arith
quantity_at-add_level p r q (l ∷ ls) = ground (arith, quantity_at-add_level p r q ls)

quantity_at-price_map :
    (objs : ℕ → Order) (remaining at : ℕ → ℕ) (p n : ℕ)
    → quantity_at p (price_map objs remaining at n) % 2 ^ 64
      ≡ resting_at objs remaining at p n % 2 ^ 64
unfolding price_map resting_at
quantity_at-price_map objs remaining at p zero = unfold quantity_at in refl
quantity_at-price_map objs remaining at p (suc n) = ground (
  arith,
  quantity_at-price_map objs remaining at p n,
  quantity_at-add_level p (objs (at n)).price (remaining (at n)) (price_map objs remaining at n),
)

-- At each price, a side of the snapshot has what is left of the orders of the side at that price,
-- up to the wrap-around of an `int64`.
pub quantity_at-levels :
    (s : Side) (ob : Orderbook) (p : ℕ)
    → quantity_at p (levels s ob) % 2 ^ 64
      ≡ resting_at ob.objs ob.remaining (slice s ob).at p (slice s ob).len % 2 ^ 64
unfolding levels
quantity_at-levels s ob p =
    let at = (slice s ob).at in
    let n = (slice s ob).len in
    rw (quantity_at-sort_levels s p (price_map ob.objs ob.remaining at n))
      (quantity_at-price_map ob.objs ob.remaining at p n)
