-- ===== src/Engine/Queues/Loop.antt =====
-- The loop of `match` of services/stub/main.go, as fills from the queue of a side.
use mathlib.Core.Path.{subst}
use obarena.Prelude.{
  ℕ, zero, suc, ◌+◌, ◌<◌, ◌≡◌, inl, inr, refl, sym, ◌∙◌, ap, List, [], ◌∷◌, map, true, false, not,
  ◌&&◌, ltb, Bool-cases, arith,
}
use obarena.Engine.Heap.Members.{pop-Drops}
use obarena.Engine.Book.{
  Order, Orderbook, Side, name, opposite, side_of, less, slice, heap, trade, is_done, match_loop,
  match_order,
}
use obarena.Engine.Book.Valid.{IsValid}
use obarena.Engine.Book.Shrinks.{IsEntering, Shrinks-IsEntering}
use obarena.Engine.Book.Trade.{popped, trade-IsValid, trade-Shrinks, slice-with_heap_len}
use obarena.Engine.Book.Match.{taken_side}
use obarena.Engine.Book.Rest.{side_of-name}
use obarena.Engine.Message.{fill}
use obarena.Engine.Queues.{Entry, Taker, take, meets, Queues, queue, with_queue, reply}
use obarena.Engine.Queues.Listing.{IsListing, entries, entry, Shows, Shows-with_queue}
use obarena.Engine.Queues.Take.{Took, taker_of, match_loop_over}
use obarena.Engine.Queues.Round.{
  some_left, test, is_done-test, partial_round, whole_round, take_short,
}

-- No fill.
stops :
    (s : Side) (r : ℕ) (ob : Orderbook) (q : List ℕ)
    → IsListing s ob.objs (heap s ob) q
    → take s (taker_of (ob.objs r)) (ob.remaining r) (entries ob q)
      ≡ ([], ob.remaining r, entries ob q)
    → Took s (taker_of (ob.objs r)) (ob.remaining r) (entries ob q) r ob [] ob
stops s r ob q l none_taken = record {
  sent = rw none_taken refl;
  left = rw none_taken refl;
  rest = q;
  listing = l;
  same = rw none_taken refl;
  other = λ p there. (there, refl);
}

take_none :
    (s : Side) (t : Taker) (n : ℕ) (e : Entry) (es : List Entry)
    → not (not (ltb 0 n && meets s t e.price)) ≡ false
    → take s t n (e ∷ es) ≡ ([], n, e ∷ es)
unfolding take
take_none s t n e es unmet =
    let unmet' : (ltb 0 n && meets s t e.price) ≡ false = ground (arith, unmet) in
    rw (unmet', take) refl

is_done-empty_heap :
    (s : Side) (r : ℕ) (ob : Orderbook) → IsListing s ob.objs (heap s ob) [] → is_done s r ob ≡ true
unfolding is_done
is_done-empty_heap s r ob l = elim (Bool-cases (ltb 0 (slice s ob).len)) [
  | inl some ↦ absurd (l.complete ((slice s ob).at 0) (0, ground (arith, some), refl))
  | inr none_left ↦ ground (arith, none_left)
]

is_done-filled : (s : Side) (r : ℕ) (ob : Orderbook) → ob.remaining r ≡ 0 → is_done s r ob ≡ true
unfolding is_done
is_done-filled s r ob e = rw e refl

popped_len :
    (s : Side) (r : ℕ) (ob : Orderbook)
    → IsValid ob
    → 0 < (slice s ob).len
    → (slice s (popped s r ob)).len + 1 ≡ (slice s ob).len
popped_len s r ob v left =
    rw slice-with_heap_len (pop-Drops (less s ob.objs) (heap s ob) (v.indexed s) left).one_less

match_loop-Took :
    (fuel : ℕ) (s : Side) (r : ℕ) (ob : Orderbook) (q : List ℕ)
    → IsValid ob
    → IsEntering ob r
    → IsListing s ob.objs (heap s ob) q
    → (slice s ob).len < fuel
    → Took s
        (taker_of (ob.objs r))
        (ob.remaining r)
        (entries ob q)
        r
        ob
        (match_loop fuel s r ob).0
        (match_loop fuel s r ob).1
unfolding match_loop take
match_loop-Took zero s r ob q v e l enough = absurd (omega (arith, enough))
match_loop-Took (suc fuel) s r ob [] v e l enough =
    rw (is_done-empty_heap s r ob l, match_loop) (stops s r ob [] l refl)
match_loop-Took (suc fuel) s r ob (x ∷ q) v e l enough =
    let over = is_done-test s r ob v e x q l in
    let left = some_left s r ob v e x q l in
    elim (Bool-cases (test s r ob v e x q l)) [
      | inr unmet ↦
          rw (over, unmet, match_loop)
            (stops s r ob (x ∷ q) l (
              take_none s (taker_of (ob.objs r)) (ob.remaining r) (entry ob.objs ob.remaining x)
                (entries ob q) (ap (λ b. not (not b)) unmet)))
      | inl met ↦
          let more : is_done s r ob ≡ false = over ∙ ap not met in
          elim (Bool-cases (ltb (ob.remaining r) (ob.remaining x))) [
            | inl short ↦
                let p = partial_round s r ob v e x q l met short in
                let spec =
                  take_short s (taker_of (ob.objs r)) (ob.remaining r)
                    (entry ob.objs ob.remaining x) (entries ob q) met short in
                let done = is_done-filled s r (trade s r ob).1 (p.left ∙ ap (λ k. k.1) spec) in
                rw (more, match_loop_over fuel s r (trade s r ob).1 done, match_loop) p
            | inr whole ↦
                rw (more, match_loop)
                  (whole_round s r ob v e x q l (match_loop fuel s r (trade s r ob).1).0
                    (match_loop fuel s r (trade s r ob).1).1 met whole
                    (λ next there.
                      let p = trade-Shrinks s r ob v e left in
                      let there' =
                        subst (λ (f : ℕ → Order). IsListing s f (heap s (trade s r ob).1) q)
                          (sym p.same_objs) there in
                      subst
                        (λ (f : ℕ → Order).
                          Took s (taker_of (f r)) ((trade s r ob).1.remaining r)
                            (entries (trade s r ob).1 q) r (trade s r ob).1
                            (match_loop fuel s r (trade s r ob).1).0
                            (match_loop fuel s r (trade s r ob).1).1)
                        p.same_objs
                        (match_loop-Took fuel s r (trade s r ob).1 q (trade-IsValid s r ob v e left)
                          (Shrinks-IsEntering r p e) there'
                          (let len = popped_len s r ob v left in
                            rw next (omega (arith, len, enough))))))
          ]
    ]

-- `match` fills an order as `take` does from the queue of the other side.
pub match_order-Took :
    (r : ℕ) (ob : Orderbook) (q : List ℕ)
    → IsValid ob
    → IsEntering ob r
    → IsListing (taken_side r ob) ob.objs (heap (taken_side r ob) ob) q
    → Took
        (taken_side r ob)
        (taker_of (ob.objs r))
        (ob.remaining r)
        (entries ob q)
        r
        ob
        (match_order r ob).0
        (match_order r ob).1
unfolding match_order
match_order-Took r ob q v e l =
    match_loop-Took ((slice (taken_side r ob) ob).len + 1) (taken_side r ob) r ob q v e l
      (omega arith)

-- `match` of an order of side `s` on a book that shows `m`.
pub match_order-Shows :
    (s : Side) (r : ℕ) (ob : Orderbook) (m : Queues)
    → IsValid ob
    → IsEntering ob r
    → (ob.objs r).side ≡ name s
    → Shows ob m
    → let spec = take (opposite s) (taker_of (ob.objs r)) (ob.remaining r) (queue (opposite s) m) in
      (map (λ f. reply (fill f)) (match_order r ob).0 ≡ spec.0)
      × ((match_order r ob).1.remaining r ≡ spec.1)
      × Shows (match_order r ob).1 (with_queue (opposite s) spec.2 m)
match_order-Shows s r ob m v e side_name shows =
    let t = opposite s in
    let l = shows t in
    let side : taken_side r ob ≡ t =
      ap (λ k. opposite (side_of k)) side_name ∙ ap opposite (side_of-name s) in
    let took : Took t (taker_of (ob.objs r)) (ob.remaining r) (queue t m) r ob (match_order r ob).0
        (match_order r ob).1 =
      subst
        (λ es.
          Took t (taker_of (ob.objs r)) (ob.remaining r) es r ob (match_order r ob).0
            (match_order r ob).1)
        l.same
        (subst
          (λ u.
            IsListing u ob.objs (heap u ob) l.refs
            → Took u (taker_of (ob.objs r)) (ob.remaining r) (entries ob l.refs) r ob
                (match_order r ob).0 (match_order r ob).1)
          side (match_order-Took r ob l.refs v e) l.listing) in
    let other = took.other (shows (opposite t)).refs (shows (opposite t)).listing in
    (
      took.sent,
      took.left,
      Shows-with_queue t (match_order r ob).1
          (take t (taker_of (ob.objs r)) (ob.remaining r) (queue t m)).2 m
          (record { refs = took.rest; listing = took.listing; same = took.same })
          (record {
            refs = (shows (opposite t)).refs;
            listing = other.0;
            same = other.1 ∙ (shows (opposite t)).same;
          }),
    )
