-- ===== src/Engine/Message.antt =====
-- The messages of services/stub/main.go. A price is the place of a float64 among the finite
-- float64 values in their order, -0 and 0 in one place: the engine compares prices and no more.
use obarena.Prelude.{ℕ, ◌^◌, ℤ, String}

abbrev pub zero_price : ℕ
zero_price = 2 ^ 63

pub record IncomingMessage : Type 0 where
  pub type : String
  pub order_id : String
  pub side : String
  pub order_type : String
  pub price : ℕ
  pub quantity : ℤ

pub record FillMessage : Type 0 where
  pub order_id : String
  pub filled_qty : ℕ
  pub fill_price : ℕ
  pub remaining : ℕ
  pub timestamp : ℕ

-- What a session sends: the field `Type` is the constructor.
pub data Message : Type 0 where
  ack : String → ℕ → Message
  fill : FillMessage → Message
  cancel_ack : String → ℕ → Message
  reject : String → String → ℕ → Message
