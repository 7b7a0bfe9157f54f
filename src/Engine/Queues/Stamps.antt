-- ===== src/Engine/Queues/Stamps.antt =====
-- The times of the orders in the book of services/stub/main.go, and its clock.
use mathlib.Core.Path.{subst}
use obarena.Prelude.{
  ℕ, zero, suc, ◌≤◌, ◌≡◌, inl, inr, refl, sym, ◌∙◌, ap, List, [], ◌∷◌, Bool-cases, some-cases, ◌==◌,
  arith, String, str_eq, lookup, ltb,
}
use obarena.Engine.Clock.{Clock, now, now-lt, now-last}
use obarena.Engine.Heap.Index.{Holds}
use obarena.Engine.Book.{
  Order, Orderbook, Side, name, heap, trade, is_done, match_loop, match_order, allocate, rest,
  remove, remove_all, cancel_session, session_orders,
}
use obarena.Engine.Book.Valid.{IsValid}
use obarena.Engine.Book.Shrinks.{IsEntering, Shrinks}
use obarena.Engine.Book.Trade.{trade_cases, traded_remaining, best}
use obarena.Engine.Book.Rest.{allocate_keeps, rest-Holds, rest-eq, objs-rest}
use obarena.Engine.Book.Remove.{remove_unknown, remove-eq-without, remove-IsValid}
use obarena.Engine.Session.{finish_order}

-- No order in the book has come in after `b`.
abbrev pub IsStamped : ℕ → Orderbook → Type 0
IsStamped b ob = (t : Side) (x : ℕ) → Holds (heap t ob) x → (ob.objs x).entered_at ≤ b

pub Shrinks-IsStamped :
    (b : ℕ) {ob ob' : Orderbook} → Shrinks ob ob' → IsStamped b ob → IsStamped b ob'
Shrinks-IsStamped b p h t x there =
    subst (λ (f : ℕ → Order). (f x).entered_at ≤ b) (sym p.same_objs) (h t x (p.holds t x there))

pub IsStamped-later : (b c : ℕ) (ob : Orderbook) → b ≤ c → IsStamped b ob → IsStamped c ob
IsStamped-later b c ob le h t x there = omega (arith, le, h t x there)

pub allocate-IsStamped :
    (b : ℕ) (o : Order) (ob : Orderbook) → IsValid ob → IsStamped b ob → IsStamped b (allocate o ob)
allocate-IsStamped b o ob v h t x there =
    let there' : Holds (heap t ob) x = unfold allocate in there in
    rw (allocate_keeps o ob v t x there') (h t x there')

trade_clock : (s : Side) (r : ℕ) (ob : Orderbook) → (trade s r ob).1.clock ≡ (now ob.clock).1
trade_clock s r ob =
    rw trade_cases (elim (Bool-cases (traded_remaining s r ob (best s r ob) == 0)) [
      | inl gone ↦ rw gone refl
      | inr left ↦ rw left refl
    ])

match_loop_clock :
    (fuel : ℕ) (s : Side) (r : ℕ) (ob : Orderbook)
    → ob.clock.last ≤ (match_loop fuel s r ob).1.clock.last
unfolding match_loop
match_loop_clock zero s r ob = omega arith
match_loop_clock (suc fuel) s r ob = elim (Bool-cases (is_done s r ob)) [
  | inl over ↦ rw (over, match_loop) (omega arith)
  | inr more ↦
      let rest = match_loop_clock fuel s r (trade s r ob).1 in
      let step = ap (λ (c : Clock). c.last) (trade_clock s r ob) ∙ now-last ob.clock in
      rw (more, match_loop) (omega (arith, rest, step, now-lt ob.clock))
]

pub match_order_clock : (r : ℕ) (ob : Orderbook) → ob.clock.last ≤ (match_order r ob).1.clock.last
unfolding match_order
match_order_clock r ob = match_loop_clock _ _ r ob

pub remove_clock : (k : String) (ob : Orderbook) → IsValid ob → (remove k ob).clock ≡ ob.clock
remove_clock k ob v = elim (some-cases (lookup k ob.orders)) [
  | inl unknown ↦ rw (remove_unknown k ob unknown) refl
  | inr (r, known) ↦
      let (same_id, (s, here)) = v.found k r known in
      subst (λ j. (remove j ob).clock ≡ ob.clock) same_id
        (ap (λ (b : Orderbook). b.clock) (remove-eq-without s ob v r here))
]

remove_all_clock :
    (ids : List String) (ob : Orderbook) → IsValid ob → (remove_all ids ob).clock ≡ ob.clock
unfolding remove_all
remove_all_clock [] ob v = refl
remove_all_clock (id ∷ ids) ob v =
    remove_all_clock ids (remove id ob) (remove-IsValid id ob v) ∙ remove_clock id ob v

pub cancel_session_clock :
    (id : String) (ob : Orderbook) → IsValid ob → (cancel_session id ob).clock ≡ ob.clock
unfolding cancel_session
cancel_session_clock id ob v = remove_all_clock (session_orders id ob.objs ob.orders) ob v

rest-IsStamped :
    (s : Side) (b r : ℕ) (ob : Orderbook)
    → IsValid ob
    → IsEntering ob r
    → (ob.objs r).side ≡ name s
    → b ≤ ob.clock.last
    → (ob.objs r).entered_at ≤ ob.clock.last
    → IsStamped b ob
    → IsStamped (rest r ob).clock.last (rest r ob)
rest-IsStamped s b r ob v e side_name le own h t x there =
    let same = objs-rest s r ob v e side_name in
    let clock : (rest r ob).clock ≡ ob.clock =
      ap (λ (o : Orderbook). o.clock) (rest-eq s r ob v e side_name) in
    rw (same, clock)
      (elim (rest-Holds s r ob v e side_name t x there) [
        | inl old ↦ omega (arith, h t x old, le)
        | inr (_, new) ↦ rw new own
      ])

-- The order that rests may be as new as the clock.
pub finish_order-IsStamped :
    (s : Side) (b r : ℕ) (ob : Orderbook)
    → IsValid ob
    → IsEntering ob r
    → (ob.objs r).side ≡ name s
    → b ≤ ob.clock.last
    → (ob.objs r).entered_at ≤ ob.clock.last
    → IsStamped b ob
    → IsStamped (finish_order r ob).1.clock.last (finish_order r ob).1
unfolding finish_order
finish_order-IsStamped s b r ob v e side_name le own h =
    elim (Bool-cases (ltb 0 (ob.remaining r))) [
      | inr filled ↦ elim (Bool-cases (str_eq (ob.objs r).order_type "market")) [
        | inl market ↦ rw (market, filled) (IsStamped-later b ob.clock.last ob le h)
        | inr limit ↦ rw (limit, filled) (IsStamped-later b ob.clock.last ob le h)
      ]
      | inl left ↦ elim (Bool-cases (str_eq (ob.objs r).order_type "market")) [
        | inl market ↦
            rw (market, left)
              (λ t x there. omega (arith, h t x there, le, now-lt ob.clock, now-last ob.clock))
        | inr limit ↦ rw (limit, left) (rest-IsStamped s b r ob v e side_name le own h)
      ]
    ]
