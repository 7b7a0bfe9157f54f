-- ===== src/Runner/Correctness/Stub/Passes.antt =====
-- A run of the correctness bot against services/stub/main.go.
use mathlib.Core.Path.{subst, fun_ext}
use obarena.Prelude.{
  arith, ◌==◌, if◌then◌else◌, eq-cases, inl, inr, ℕ, suc, ◌≡◌, refl, Bool, false, [], lookup,
  insert, delete,
}
use obarena.Engine.Heap
use obarena.Engine.Clock.{Clock, now}
use obarena.Engine.Book.{
  new_order_book, allocate, match_order, rest, remove, cancel_session, less, bid_less, ask_less,
}
use obarena.Engine.Session.{handle_message}
use obarena.Engine.Levels.{handle_orderbook}
use obarena.Runner.Correctness.{run_correctness}
use obarena.Runner.Correctness.Stub.{Stub, stub_service}

abbrev pub fresh_stub : Clock → Stub
fresh_stub clock = record { book = new_order_book clock; session = "bot/1"; sent = [] }

-- A test of prices, opened at equal prices.
abbrev opened : (ℕ → ℕ → Bool) → ℕ → ℕ → Bool
opened is_apart p q = if p == q then false else is_apart p q

opened-eq :
    (is_apart : ℕ → ℕ → Bool) → ((p : ℕ) → is_apart p p ≡ false) → opened is_apart ≡ is_apart
opened-eq is_apart same = fun_ext (λ p. fun_ext (λ q. at_prices p q))
  where
    at_prices : (p q : ℕ) → opened is_apart p q ≡ is_apart p q
    at_prices p q = elim (eq-cases p q) [
      | inl equal ↦ ground (arith, equal, same p)
      | inr other ↦ rw other refl
    ]

passes_opened :
    (is_apart : ℕ → ℕ → Bool) (clock : Clock) (n : ℕ)
    → let r = run_correctness (opened is_apart) (stub_service (suc (suc n))) (fresh_stub clock) in
      (r.passed ≡ 33) × (r.failure_details ≡ [])
unfolding run_correctness stub_service handle_orderbook new_order_book handle_message lookup insert
    delete now allocate match_order rest remove cancel_session less bid_less ask_less Heap.push
    Heap.pop Heap.fix Heap.remove
passes_opened is_apart clock n = (refl, refl)

-- For every clock, any test of prices that does not tell a price from itself, and any number of
-- reads from two on: the reference engine passes all 33 assertions, and fails none.
pub run_correctness-stub_service :
    (is_apart : ℕ → ℕ → Bool) (clock : Clock) (n : ℕ)
    → ((p : ℕ) → is_apart p p ≡ false)
    → let r = run_correctness is_apart (stub_service (suc (suc n))) (fresh_stub clock) in
      (r.passed ≡ 33) × (r.failure_details ≡ [])
run_correctness-stub_service is_apart clock n same =
    subst
      (λ test.
        let r = run_correctness test (stub_service (suc (suc n))) (fresh_stub clock) in
        (r.passed ≡ 33) × (r.failure_details ≡ []))
      (opened-eq is_apart same) (passes_opened is_apart clock n)
