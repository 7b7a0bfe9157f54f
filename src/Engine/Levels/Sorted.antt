-- ===== src/Engine/Levels/Sorted.antt =====
-- The order of the levels of `orderbookHandler`.
use obarena.Prelude.{ℕ, ◌≡◌, ◌≢◌, true, List, All, Chain}
use obarena.Engine.Book.{Side}
use obarena.Engine.Levels.{PriceLevel, is_before}

-- A level that is before one of another price.
abbrev IsBefore : Side → PriceLevel → PriceLevel → Type 0
IsBefore s l m = is_before s l m ≡ true

-- No level with the price.
abbrev IsFree : ℕ → List PriceLevel → Type 0
IsFree p = All (λ l. l.price ≢ p)

abbrev IsApart : List PriceLevel → Type 0
IsApart = Chain (λ l m. l.price ≢ m.price)
