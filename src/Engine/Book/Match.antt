-- ===== src/Engine/Book/Match.antt =====
-- `match` of services/stub/main.go: price and time priority, conservation, and where it stops.
use mathlib.Core.Path.{subst, subst₂}
use obarena.Prelude.{
  ℕ, zero, suc, ◌+◌, ◌<◌, ◌≤◌, ◌≡◌, ◌⊎◌, inl, inr, refl, sym, ap, ◌∙◌, List, ◌∷◌, All, Chain,
  All-map_of, sum_of, arith, Bool-cases, false, true,
}
use obarena.Engine.Message.{FillMessage}
use obarena.Engine.Heap.Index.{Holds}
use obarena.Engine.Book.{
  Order, Orderbook, Side, buy, sell, opposite, less, bid_less, ask_less, side_of, slice, heap,
  trade, is_done, too_far, match_loop, match_order,
}
use obarena.Engine.Book.Valid.{IsValid}
use obarena.Engine.Book.Shrinks.{
  IsEntering, Shrinks, Shrinks-refl, Shrinks-trans, Shrinks-IsEntering,
}
use obarena.Engine.Book.Trade.{
  best, trade-IsValid, trade-Shrinks, trade_conserves, trade_progress, trade_len, filled_pos,
  trade-best,
}

-- `p` is as good a price as `q` for the order that takes it from side `s`, or better.
abbrev pub NoWorse : Side → ℕ → ℕ → Type 0
NoWorse sell p q = p ≤ q
NoWorse buy p q = q ≤ p

pub less-NoWorse :
    (s : Side) (objs : ℕ → Order) (a b : ℕ)
    → less s objs a b ≡ false
    → NoWorse s (objs b).price (objs a).price
unfolding less bid_less ask_less
less-NoWorse buy objs a b h = ground arith
less-NoWorse sell objs a b h = ground arith

-- Some quantity, at the price of an order of side `s` that the entering order may trade with.
pub record IsFair (s : Side) (ob : Orderbook) (r : ℕ) (f : FillMessage) : Type 0 where
  pub positive : 0 < f.filled_qty
  pub partner : ℕ
  pub resting : Holds (heap s ob) partner
  pub price : f.fill_price ≡ (ob.objs partner).price
  pub within : too_far s (ob.objs r) (ob.objs partner) ≡ false

abbrev pub SoonerNoWorse : Side → FillMessage → FillMessage → Type 0
SoonerNoWorse s f g = NoWorse s f.fill_price g.fill_price

pub record IsMatched (s : Side) (r : ℕ) (ob : Orderbook) (fills : List FillMessage)
    (ob' : Orderbook) : Type 0 where
  pub valid : IsValid ob'
  pub shrinks : Shrinks ob ob'
  pub conserved : sum_of (λ f. f.filled_qty) fills + ob'.remaining r ≡ ob.remaining r
  pub fair : All (IsFair s ob r) fills
  pub best_first : Chain (SoonerNoWorse s) fills
  pub finished : is_done s r ob' ≡ true

is_done-false :
    (s : Side) (r : ℕ) (ob : Orderbook)
    → is_done s r ob ≡ false
    → (0 < ob.remaining r)
      × (0 < (slice s ob).len)
      × (too_far s (ob.objs r) (ob.objs (best s r ob)) ≡ false)
unfolding is_done
is_done-false s r ob h = ground arith

is_done-empty :
    (s : Side) (r : ℕ) (ob : Orderbook)
    → ((slice s ob).len ≡ 0) ⊎ (ob.remaining r ≡ 0)
    → is_done s r ob ≡ true
unfolding is_done
is_done-empty s r ob h = ground arith

Shrinks-IsFair :
    (s : Side) {ob ob' : Orderbook} (r : ℕ) (f : FillMessage)
    → Shrinks ob ob'
    → IsFair s ob' r f
    → IsFair s ob r f
Shrinks-IsFair s r f p h = record {
  positive = h.positive;
  partner = h.partner;
  resting = p.holds s h.partner h.resting;
  price = h.price ∙ ap (λ (objs : ℕ → Order). (objs h.partner).price) p.same_objs;
  within =
      subst (λ (objs : ℕ → Order). too_far s (objs r) (objs h.partner) ≡ false) p.same_objs
        h.within;
}

-- Enough rounds: one for each order of the side, or none once the order is filled.
abbrev Enough : ℕ → Side → ℕ → Orderbook → Type 0
Enough fuel s r ob = ((slice s ob).len < fuel) ⊎ ((ob.remaining r ≡ 0) × (0 < fuel))

module _ (s : Side) (r : ℕ) (ob : Orderbook) (v : IsValid ob) (e : IsEntering ob r)
    (more : is_done s r ob ≡ false) where
  next_Enough : (fuel : ℕ) → Enough (suc fuel) s r ob → Enough fuel s r (trade s r ob).1
  next_Enough fuel enough =
      let (wanted, some_left, _) = is_done-false s r ob more in
      let len = trade_len s r ob v e some_left in
      elim (trade_progress s r ob v e some_left) [
        | inl filled ↦ inr (
          filled,
          elim enough [ inl h ↦ omega arith | inr (none_wanted, _) ↦ absurd (omega arith) ],
        )
        | inr dropped ↦
            inl (elim enough [ inl h ↦ omega arith | inr (none_wanted, _) ↦ absurd (omega arith) ])
      ]

  IsMatched-step :
      (fills : List FillMessage) (ob' : Orderbook)
      → IsMatched s r (trade s r ob).1 fills ob'
      → IsMatched s r ob ((trade s r ob).0 ∷ fills) ob'
  IsMatched-step fills ob' m =
      let (wanted, some_left, near) = is_done-false s r ob more in
      let p = trade-Shrinks s r ob v e some_left in
      let later = All-map_of (λ f. Shrinks-IsFair s r f p) fills m.fair in
      record {
        valid = m.valid;
        shrinks = Shrinks-trans p m.shrinks;
        conserved = omega (arith, m.conserved, (trade_conserves s r ob v e some_left).0);
        fair = (
          record {
            positive = filled_pos s r ob v e some_left wanted;
            partner = best s r ob;
            resting = (0, some_left, refl);
            price = (trade-best s r ob v e some_left (best s r ob) (0, some_left, refl)).0;
            within = near;
          },
          later,
        );
        best_first = (
          All-map_of
              (λ f h.
                let (price, first) = trade-best s r ob v e some_left h.partner h.resting in
                subst₂ (NoWorse s) (sym price) (sym h.price)
                  (less-NoWorse s ob.objs h.partner (best s r ob) first))
              fills later,
          m.best_first,
        );
        finished = m.finished;
      }

match_loop-IsMatched :
    (fuel : ℕ) (s : Side) (r : ℕ) (ob : Orderbook)
    → IsValid ob
    → IsEntering ob r
    → Enough fuel s r ob
    → IsMatched s r ob (match_loop fuel s r ob).0 (match_loop fuel s r ob).1
unfolding match_loop
match_loop-IsMatched zero s r ob v e enough =
    absurd (elim enough [ inl h ↦ omega arith | inr (_, h) ↦ omega arith ])
match_loop-IsMatched (suc fuel) s r ob v e enough = elim (Bool-cases (is_done s r ob)) [
  | inl over ↦
      rw (over, match_loop)
        (record {
          valid = v;
          shrinks = Shrinks-refl ob;
          conserved = omega arith;
          fair = tt;
          best_first = tt;
          finished = over;
        })
  | inr more ↦
      let (_, some_left, _) = is_done-false s r ob more in
      let ob' = (trade s r ob).1 in
      rw (more, match_loop)
        (IsMatched-step s r ob v e more (match_loop fuel s r ob').0 (match_loop fuel s r ob').1 (
          match_loop-IsMatched fuel s r ob' (trade-IsValid s r ob v e some_left)
            (Shrinks-IsEntering r (trade-Shrinks s r ob v e some_left) e)
            (next_Enough s r ob v e more fuel enough)))
]

abbrev pub taken_side : ℕ → Orderbook → Side
taken_side r ob = opposite (side_of (ob.objs r).side)

-- `match` on a valid book ends, and is what `IsMatched` says.
pub match_order-IsMatched :
    (r : ℕ) (ob : Orderbook)
    → IsValid ob
    → IsEntering ob r
    → IsMatched (taken_side r ob) r ob (match_order r ob).0 (match_order r ob).1
unfolding match_order
match_order-IsMatched r ob v e =
    let s = taken_side r ob in
    match_loop-IsMatched ((slice s ob).len + 1) s r ob v e (inl (omega arith))
