-- ===== src/Engine/Queues/Find.antt =====
-- The map of the order book of services/stub/main.go, as a search of the queues.
use obarena.Prelude.{
  ℕ, ◌≡◌, ◌⊎◌, inl, inr, refl, sym, ◌∙◌, ap, List, [], ◌∷◌, ◌++◌, Bool-cases, arith, String, str_eq,
  eq_iff, lookup, some, none,
}
use mathlib.Core.Path.{ap₂}
use obarena.Engine.Book.{Orderbook, Side, buy, sell}
use obarena.Engine.Book.Valid.{IsValid}
use obarena.Engine.Queues.{Queues, find, find_order}
use obarena.Engine.Queues.Listing.{Has, Shows, entry, entries}
use obarena.Engine.Queues.Leave.{listing_of_map}

Has-append : (x : ℕ) (p q : List ℕ) → Has x (p ++ q) → Has x p ⊎ Has x q
Has-append x [] q there = inr there
Has-append x (y ∷ p) q there = elim there [
  | inl e ↦ inl (inl e)
  | inr later ↦ elim (Has-append x p q later) [ inl h ↦ inl (inr h) | inr h ↦ inr h ]
]

Has-append_left : (x : ℕ) (p q : List ℕ) → Has x p → Has x (p ++ q)
Has-append_left x [] q there = absurd there
Has-append_left x (y ∷ p) q there = elim there [
  | inl e ↦ inl e
  | inr later ↦ inr (Has-append_left x p q later)
]

Has-append_right : (x : ℕ) (p q : List ℕ) → Has x q → Has x (p ++ q)
Has-append_right x [] q there = there
Has-append_right x (y ∷ p) q there = inr (Has-append_right x p q there)

entries-append :
    (ob : Orderbook) (p q : List ℕ) → entries ob (p ++ q) ≡ entries ob p ++ entries ob q
entries-append ob [] q = refl
entries-append ob (x ∷ p) q = ap (◌∷◌ (entry ob.objs ob.remaining x)) (entries-append ob p q)

module _ (ob : Orderbook) (k : String) where
  IsMapped : ℕ → Type 0
  IsMapped x = lookup (ob.objs x).order_id ob.orders ≡ some x

  find-unknown :
      (q : List ℕ)
      → ((x : ℕ) → Has x q → IsMapped x)
      → lookup k ob.orders ≡ none
      → find k (entries ob q) ≡ none
  unfolding find IsMapped
  find-unknown [] mapped unknown = refl
  find-unknown (x ∷ q) mapped unknown =
      let rest = find-unknown q (λ y there. mapped y (inr there)) unknown in
      let own = mapped x (inl refl) in
      ground (arith, rest, own, unknown, eq_iff (ob.objs x).order_id k)

  find-known :
      (r : ℕ) (q : List ℕ)
      → ((x : ℕ) → Has x q → IsMapped x)
      → lookup k ob.orders ≡ some r
      → (ob.objs r).order_id ≡ k
      → Has r q
      → find k (entries ob q) ≡ some (entry ob.objs ob.remaining r)
  unfolding find IsMapped
  find-known r [] mapped known named there = absurd there
  find-known r (x ∷ q) mapped known named there =
      let own = mapped x (inl refl) in
      elim (Bool-cases (str_eq (ob.objs x).order_id k)) [
        | inl found ↦
            let same : x ≡ r = ground (arith, own, known, found, eq_iff (ob.objs x).order_id k) in
            rw (found, find) (ap (λ y. some (entry ob.objs ob.remaining y)) same)
        | inr other ↦
            rw (other, find)
              (find-known r q (λ y there. mapped y (inr there)) known named
                (elim there [
                  | inl e ↦ absurd (
                      ground (
                        arith,
                        other,
                        named,
                        ap (λ y. (ob.objs y).order_id) e,
                        eq_iff (ob.objs x).order_id k,
                      ))
                  | inr later ↦ later
                ]))
      ]

module _ (ob : Orderbook) (m : Queues) (v : IsValid ob) (shows : Shows ob m) (k : String) where
  abbrev all_refs : List ℕ
  all_refs = (shows buy).refs ++ (shows sell).refs

  every_in_map : (x : ℕ) → Has x all_refs → IsMapped ob k x
  unfolding IsMapped
  every_in_map x there = elim (Has-append x (shows buy).refs (shows sell).refs there) [
    | inl bid ↦ listing_of_map buy ob v m.bids (shows buy) x bid
    | inr ask ↦ listing_of_map sell ob v m.asks (shows sell) x ask
  ]

  all_entries : entries ob all_refs ≡ m.bids ++ m.asks
  all_entries =
      entries-append ob (shows buy).refs (shows sell).refs
      ∙ ap₂ ◌++◌ (shows buy).same (shows sell).same

  member_held_by : (s : Side) (x : ℕ) → Has x (shows s).refs → Has x all_refs
  member_held_by buy x there = Has-append_left x (shows buy).refs (shows sell).refs there
  member_held_by sell x there = Has-append_right x (shows buy).refs (shows sell).refs there

  pub find_order-unknown : lookup k ob.orders ≡ none → find_order k m ≡ none
  find_order-unknown unknown =
      ap (find k) (sym all_entries) ∙ find-unknown ob k all_refs every_in_map unknown

  pub find_order-known :
      (r : ℕ) → lookup k ob.orders ≡ some r → find_order k m ≡ some (entry ob.objs ob.remaining r)
  find_order-known r known =
      let (named, (s, here)) = v.found k r known in
      ap (find k) (sym all_entries)
      ∙ find-known ob k r all_refs every_in_map known named
          (member_held_by s r ((shows s).listing.complete r here))
