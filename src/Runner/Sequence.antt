-- ===== src/Runner/Sequence.antt =====
-- The sequences of sequence.go, of services/bot-runner.
use Prim.Native.String.{◌++◌}
use obarena.Prelude.{
  ℕ, zero, suc, ◌+◌, ◌-◌, ◌*◌, ◌/◌, ◌%◌, ◌^◌, ℤ, pos, negsuc, String, Bool, true, false, ltb, ◌==◌,
  if◌then◌else◌, List, [], ◌∷◌,
}
use obarena.Engine.Message.{zero_price}

pub data StepKind : Type 0 where
  step_order step_cancel : StepKind

-- A price is the place of its float64.
pub record Step : Type 0 where
  pub kind : StepKind
  pub side : String
  pub order_type : String
  pub price : ℕ
  pub quantity : ℤ
  pub tag : String
  pub cancel_tag : String
  pub expect_fill : Bool
  pub expect_fill_price : ℕ
  pub expect_fill_qty : ℤ
  pub expect_reject : Bool
  pub expect_book_bids : ℤ
  pub expect_book_asks : ℤ

pub record Sequence : Type 0 where
  pub name : String
  pub steps : List Step

abbrev digit : ℕ → String
digit n =
    if n == 0
    then "0"
    else if n == 1
    then "1"
    else if n == 2
    then "2"
    else if n == 3
    then "3"
    else if n == 4
    then "4"
    else if n == 5
    then "5"
    else if n == 6
    then "6"
    else if n == 7
    then "7"
    else if n == 8
    then "8"
    else "9"

itoa_loop : ℕ → ℕ → String → String
itoa_loop zero n s = s
itoa_loop (suc fuel) n s =
    let rest = itoa_loop fuel (n / 10) (digit (n % 10) ++ s) in
    if ltb n 10 then digit n ++ s else rest

-- `%d` of a number that is not negative: it has at most as many digits as its value and one more.
unfoldable pub itoa : ℕ → String
unfolding itoa_loop
itoa n = itoa_loop (n + 1) n ""

unfoldable pub order_id : ℕ → ℕ → String → String
unfolding itoa
order_id bot_id iteration tag = "b" ++ (itoa bot_id ++ ("-i" ++ (itoa iteration ++ ("-" ++ tag))))

exponent : ℕ → ℕ → ℕ
exponent zero n = 0
exponent (suc fuel) n = let e = exponent fuel (n / 2) in if ltb n 2 then 0 else e + 1

-- The place of `float64(n)`, by its bits, for a whole number below 2^53.
unfoldable pub float64 : ℕ → ℕ
unfolding exponent
float64 n =
    let e = exponent 53 n in
    if n == 0 then zero_price else zero_price + (1023 + e) * 2 ^ 52 + (n - 2 ^ e) * 2 ^ (52 - e)

-- A step with the fields that the load bots read. The others have their zero values.
abbrev pub order_step : String → String → String → ℕ → ℕ → Step
order_step tag side order_type price quantity = record {
  kind = step_order;
  side = side;
  order_type = order_type;
  price = price;
  quantity = pos quantity;
  tag = tag;
  cancel_tag = "";
  expect_fill = false;
  expect_fill_price = zero_price;
  expect_fill_qty = pos 0;
  expect_reject = false;
  expect_book_bids = pos 0;
  expect_book_asks = pos 0;
}

abbrev pub cancel_step : String → Step
cancel_step cancel_tag = record {
  kind = step_cancel;
  side = "";
  order_type = "";
  price = zero_price;
  quantity = pos 0;
  tag = "";
  cancel_tag = cancel_tag;
  expect_fill = false;
  expect_fill_price = zero_price;
  expect_fill_qty = pos 0;
  expect_reject = false;
  expect_book_bids = pos 0;
  expect_book_asks = pos 0;
}

-- In whole numbers.
abbrev pub base_price : ℕ → ℕ
base_price bot_id = (bot_id + 1) * 1000

unfoldable pub basic_match : ℕ → Sequence
unfolding float64
basic_match bot_id =
    let p = float64 (base_price bot_id) in
    record {
      name = "basic_match";
      steps = order_step "bid1" "buy" "limit" p 10 ∷ order_step "ask1" "sell" "limit" p 10 ∷ [];
    }

unfoldable pub partial_fill_ladder : ℕ → Sequence
unfolding float64
partial_fill_ladder bot_id =
    let p = base_price bot_id in
    record {
      name = "partial_fill_ladder";
      steps =
          order_step "bid-0" "buy" "limit" (float64 p) 5
          ∷ order_step "bid-1" "buy" "limit" (float64 (p - 1)) 5
          ∷ order_step "bid-2" "buy" "limit" (float64 (p - 2)) 5
          ∷ order_step "sweep" "sell" "market" zero_price 15
          ∷ [];
    }

unfoldable pub cancel_correctness : ℕ → Sequence
unfolding float64
cancel_correctness bot_id =
    let p = float64 (base_price bot_id) in
    record {
      name = "cancel_correctness";
      steps =
          order_step "resting" "buy" "limit" p 10
          ∷ cancel_step "resting"
          ∷ order_step "probe" "sell" "limit" p 10
          ∷ cancel_step "probe"
          ∷ [];
    }

abbrev pub sequences : ℕ → List Sequence
sequences bot_id = basic_match bot_id ∷ partial_fill_ladder bot_id ∷ cancel_correctness bot_id ∷ []

-- In whole numbers.
abbrev pub correctness_base_price : ℕ
correctness_base_price = 500

-- Assertions on a step: on the fill, on a reject, on the levels of the book.
abbrev pub expecting_fill : ℕ → ℕ → Step → Step
expecting_fill price qty s = record s {
  expect_fill = true;
  expect_fill_price = price;
  expect_fill_qty = pos qty;
}

abbrev pub expecting_reject : Step → Step
expecting_reject s = record s { expect_reject = true }

abbrev pub expecting_book : ℤ → ℤ → Step → Step
expecting_book bids asks s = record s { expect_book_bids = bids; expect_book_asks = asks }

unfoldable pub cx_basic_match : Sequence
unfolding float64
cx_basic_match =
    let p = float64 correctness_base_price in
    record {
      name = "cx_basic_match";
      steps =
          expecting_book (pos 1) (negsuc 0) (order_step "bid" "buy" "limit" p 10)
          ∷ expecting_book (pos 0) (pos 0)
              (expecting_fill p 10 (order_step "ask" "sell" "limit" p 10))
          ∷ [];
    }

unfoldable pub cx_priority_fill : Sequence
unfolding float64
cx_priority_fill =
    let p = float64 correctness_base_price in
    let above = float64 (correctness_base_price + 1) in
    record {
      name = "cx_priority_fill";
      steps =
          expecting_book (pos 1) (negsuc 0) (order_step "bid-lo" "buy" "limit" p 5)
          ∷ expecting_book (pos 2) (negsuc 0) (order_step "bid-hi" "buy" "limit" above 5)
          ∷ expecting_book (pos 0) (pos 0)
              (expecting_fill above 0 (order_step "sell" "sell" "limit" p 10))
          ∷ [];
    }

unfoldable pub cx_partial_fill : Sequence
unfolding float64
cx_partial_fill =
    let p = float64 (correctness_base_price + 10) in
    record {
      name = "cx_partial_fill";
      steps =
          expecting_book (pos 1) (negsuc 0) (order_step "bid" "buy" "limit" p 10)
          ∷ expecting_book (pos 1) (pos 0)
              (expecting_fill p 3 (order_step "ask" "sell" "limit" p 3))
          ∷ expecting_book (pos 0) (pos 0) (cancel_step "bid")
          ∷ [];
    }

unfoldable pub cx_cancel : Sequence
unfolding float64
cx_cancel =
    let p = float64 (correctness_base_price + 20) in
    record {
      name = "cx_cancel";
      steps =
          expecting_book (pos 1) (negsuc 0) (order_step "bid" "buy" "limit" p 10)
          ∷ expecting_book (pos 0) (pos 0) (cancel_step "bid")
          ∷ expecting_book (pos 0) (pos 1) (order_step "ask" "sell" "limit" p 10)
          ∷ expecting_book (pos 0) (pos 0) (cancel_step "ask")
          ∷ [];
    }

unfoldable pub cx_reject_market_no_liquidity : Sequence
cx_reject_market_no_liquidity = record {
  name = "cx_reject_market_no_liquidity";
  steps =
      expecting_book (pos 0) (pos 0)
        (expecting_reject (order_step "mkt" "sell" "market" zero_price 10))
      ∷ [];
}

unfoldable pub correctness_sequences : List Sequence
unfolding cx_basic_match cx_priority_fill cx_partial_fill cx_cancel cx_reject_market_no_liquidity
correctness_sequences =
    cx_basic_match ∷ cx_priority_fill ∷ cx_partial_fill ∷ cx_cancel ∷ cx_reject_market_no_liquidity
    ∷ []
