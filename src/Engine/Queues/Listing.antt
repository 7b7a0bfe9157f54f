-- ===== src/Engine/Queues/Listing.antt =====
-- The orders of a heap of services/stub/main.go, listed in the order of `Less`.
use mathlib.Core.Path.{subst, ap₂}
use obarena.Prelude.{
  ℕ, ◌≡◌, ◌≢◌, ◌⊎◌, inl, inr, refl, sym, ◌∙◌, List, [], ◌∷◌, map, All, Chain, true,
}
use obarena.Engine.Clock.{Clock}
use obarena.Engine.Heap.{Heap}
use obarena.Engine.Heap.Index.{Holds}
use obarena.Engine.Book.{Order, Orderbook, Side, buy, sell, opposite, less, heap, with_heap}
use obarena.Engine.Book.Less.{less-IsWeakOrder}
use obarena.Engine.Book.Valid.{heap-with_heap_self, heap-with_heap-opposite, other_heap, both_sides}
use obarena.Engine.Book.Rest.{less_cong}
use obarena.Engine.Queues.{Entry, Queues, queue, with_queue}

abbrev pub Has : ℕ → List ℕ → Type 0
Has r [] = ⊥
Has r (x ∷ q) = (x ≡ r) ⊎ Has r q

abbrev pub entry : (ℕ → Order) → (ℕ → ℕ) → ℕ → Entry
entry objs remaining r = record {
  order_id = (objs r).order_id;
  price = (objs r).price;
  left = remaining r;
  session_id = (objs r).session_id;
}

abbrev pub entries : Orderbook → List ℕ → List Entry
entries ob q = map (entry ob.objs ob.remaining) q

-- `q` has the orders of `h`, each before those that it precedes.
pub record IsListing (s : Side) (objs : ℕ → Order) (h : Heap) (q : List ℕ) : Type 0 where
  pub sorted : Chain (λ a b. less s objs a b ≡ true) q
  pub held : (r : ℕ) → Has r q → Holds h r
  pub complete : (r : ℕ) → Holds h r → Has r q

pub All-Has {κ} : (P : ℕ → Type κ) (q : List ℕ) (r : ℕ) → All P q → Has r q → P r
All-Has P [] r all there = absurd there
All-Has P (x ∷ q) r (first, all) (inl e) = subst P e first
All-Has P (x ∷ q) r (first, all) (inr there) = All-Has P q r all there

pub All-intro {κ} : (P : ℕ → Type κ) (q : List ℕ) → ((r : ℕ) → Has r q → P r) → All P q
All-intro P [] f = tt
All-intro P (x ∷ q) f = (f x (inl refl), All-intro P q (λ r there. f r (inr there)))

pub entries-same :
    (ob ob' : Orderbook) (q : List ℕ)
    → ((r : ℕ) → Has r q → ob'.objs r ≡ ob.objs r)
    → ((r : ℕ) → Has r q → ob'.remaining r ≡ ob.remaining r)
    → entries ob' q ≡ entries ob q
entries-same ob ob' [] same f = refl
entries-same ob ob' (x ∷ q) same f =
    ap₂ ◌∷◌ (rw (same x (inl refl), f x (inl refl)) refl)
      (entries-same ob ob' q (λ r there. same r (inr there)) (λ r there. f r (inr there)))

pub less-ne : (s : Side) (objs : ℕ → Order) (a b : ℕ) → less s objs a b ≡ true → a ≢ b
less-ne s objs a b h e =
    let h' = subst (λ x. less s objs x b ≡ true) e h in
    let no = (less-IsWeakOrder objs s).asym b b h' in cc

pub first_once :
    (s : Side) (objs : ℕ → Order) (x : ℕ) (q : List ℕ)
    → All (λ y. less s objs x y ≡ true) q
    → ¬ Has x q
first_once s objs x q all there = less-ne s objs x x (All-Has _ q x all there) refl

-- The other heap is listed as before.
pub IsListing-opposite :
    (s : Side) (g : Heap) (ob : Orderbook) (objs : ℕ → Order) (q : List ℕ)
    → IsListing (opposite s) objs (heap (opposite s) ob) q
    → IsListing (opposite s) objs (heap (opposite s) (with_heap s g ob)) q
IsListing-opposite s g ob objs q l =
    let l' : IsListing (opposite s) objs (other_heap s g ob) q = record {
      sorted = l.sorted;
      held = l.held;
      complete = l.complete;
    } in
    subst (λ h. IsListing (opposite s) objs h q) (sym (heap-with_heap-opposite s g ob)) l'

pub IsListing-self :
    (s : Side) (g : Heap) (ob : Orderbook) (objs : ℕ → Order) (q : List ℕ)
    → IsListing s objs g q
    → IsListing s objs (heap s (with_heap s g ob)) q
IsListing-self s g ob objs q l =
    subst (λ h. IsListing s objs h q) (sym (heap-with_heap_self s g ob)) l

-- The side `s` of the book is the queue `es`.
pub record Listed (s : Side) (ob : Orderbook) (es : List Entry) : Type 0 where
  pub refs : List ℕ
  pub listing : IsListing s ob.objs (heap s ob) refs
  pub same : entries ob refs ≡ es

pub clock-Listed :
    (s : Side) (ob : Orderbook) (c : Clock) (es : List Entry)
    → Listed s ob es
    → Listed s (record ob { clock = c }) es
clock-Listed s ob c es l = record {
  refs = l.refs;
  listing = record {
    sorted = l.listing.sorted;
    held = l.listing.held;
    complete = l.listing.complete;
  };
  same = l.same;
}

abbrev pub Shows : Orderbook → Queues → Type 0
Shows ob m = (s : Side) → Listed s ob (queue s m)

pub queue-with_queue_self :
    (s : Side) (es : List Entry) (m : Queues) → queue s (with_queue s es m) ≡ es
queue-with_queue_self buy es m = refl
queue-with_queue_self sell es m = refl

pub queue-with_queue-opposite :
    (s : Side) (es : List Entry) (m : Queues)
    → queue (opposite s) (with_queue s es m) ≡ queue (opposite s) m
queue-with_queue-opposite buy es m = refl
queue-with_queue-opposite sell es m = refl

pub Shows-with_queue :
    (s : Side) (ob : Orderbook) (es : List Entry) (m : Queues)
    → Listed s ob es
    → Listed (opposite s) ob (queue (opposite s) m)
    → Shows ob (with_queue s es m)
Shows-with_queue s ob es m here there =
    both_sides s (λ t. Listed t ob (queue t (with_queue s es m)))
      (subst (Listed s ob) (sym (queue-with_queue_self s es m)) here)
      (subst (Listed (opposite s) ob) (sym (queue-with_queue-opposite s es m)) there)

pub Chain-less_cong :
    (s : Side) (f g : ℕ → Order) (q : List ℕ)
    → ((x : ℕ) → Has x q → g x ≡ f x)
    → Chain (λ a b. less s f a b ≡ true) q
    → Chain (λ a b. less s g a b ≡ true) q
Chain-less_cong s f g [] same c = tt
Chain-less_cong s f g (x ∷ q) same (first, c) = (
  All-intro (λ y. less s g x y ≡ true) q
      (λ y there.
        less_cong s g f x y (same x (inl refl)) (same y (inr there))
        ∙ All-Has (λ y. less s f x y ≡ true) q y first there),
  Chain-less_cong s f g q (λ y there. same y (inr there)) c,
)
