-- ===== src/Engine/Book/Cancel.antt =====
-- `cancelSession` of services/stub/main.go.
use obarena.Prelude.{
  ℕ, ◌≡◌, refl, ap, String, Dict, lookup, IsDistinct, some, none, List, [], ◌∷◌, Bool, ◌||◌, arith,
  str_eq, eq_iff, false, if◌then◌else◌, Option,
}
use obarena.Engine.Book.{Order, Orderbook, remove, remove_all, cancel_session, session_orders}
use obarena.Engine.Book.Valid.{IsValid}
use obarena.Engine.Book.Shrinks.{Shrinks, Shrinks-refl, Shrinks-trans}
use obarena.Engine.Book.Remove.{remove-IsValid, remove-Shrinks, orders-remove}

unfoldable pub contains : List String → String → Bool
contains [] k = false
contains (x ∷ xs) k = str_eq x k || contains xs k

pub remove_all-IsValid :
    (ids : List String) (ob : Orderbook) → IsValid ob → IsValid (remove_all ids ob)
unfolding remove_all
remove_all-IsValid [] ob v = v
remove_all-IsValid (id ∷ ids) ob v = remove_all-IsValid ids (remove id ob) (remove-IsValid id ob v)

remove_all-Shrinks :
    (ids : List String) (ob : Orderbook) → IsValid ob → Shrinks ob (remove_all ids ob)
unfolding remove_all
remove_all-Shrinks [] ob v = Shrinks-refl ob
remove_all-Shrinks (id ∷ ids) ob v =
    Shrinks-trans (remove-Shrinks id ob v)
      (remove_all-Shrinks ids (remove id ob) (remove-IsValid id ob v))

orders-remove_all :
    (ids : List String) (ob : Orderbook) (k : String)
    → IsValid ob
    → lookup k (remove_all ids ob).orders ≡ (if contains ids k then none else lookup k ob.orders)
unfolding remove_all contains
orders-remove_all [] ob k v = refl
orders-remove_all (id ∷ ids) ob k v = ground (
  arith,
  orders-remove_all ids (remove id ob) k (remove-IsValid id ob v),
  orders-remove id ob v k,
)

-- Whether an order that a lookup finds is the session's.
abbrev pub is_of_session : String → (ℕ → Order) → Option ℕ → Bool
is_of_session id objs none = false
is_of_session id objs (some r) = str_eq (objs r).session_id id

pub contains-session_orders :
    (id : String) (objs : ℕ → Order) (m : Dict ℕ) (k : String)
    → IsDistinct m
    → ((j : String) (r : ℕ) → lookup j m ≡ some r → (objs r).order_id ≡ j)
    → contains (session_orders id objs m) k ≡ is_of_session id objs (lookup k m)
unfolding contains session_orders lookup
contains-session_orders id objs [] k d ids = refl
contains-session_orders id objs ((j, r) ∷ m) k d ids =
    let key : (objs r).order_id ≡ j = ids j r (rw ((eq_iff j j).1 refl)) in
    let rest =
      contains-session_orders id objs m k d.1 (λ i q e.
        ids i q (ground (arith, eq_iff j i, d.0, ap (λ x. lookup x m) {x = j} {y = i}))) in
    rw key (ground (arith, rest, eq_iff j k, d.0))

-- The book after `cancelSession` is valid.
pub cancel_session-IsValid :
    (id : String) (ob : Orderbook) → IsValid ob → IsValid (cancel_session id ob)
unfolding cancel_session
cancel_session-IsValid id ob v = remove_all-IsValid (session_orders id ob.objs ob.orders) ob v

-- `cancelSession` takes exactly the session's orders out of the map.
orders-cancel_session :
    (id : String) (ob : Orderbook) (k : String)
    → IsValid ob
    → lookup k (cancel_session id ob).orders
      ≡ (if is_of_session id ob.objs (lookup k ob.orders) then none else lookup k ob.orders)
unfolding cancel_session
orders-cancel_session id ob k v = rw (
  orders-remove_all (session_orders id ob.objs ob.orders) ob k v,
  contains-session_orders id ob.objs ob.orders k v.distinct (λ j r e. (v.found j r e).0),
)

pub cancel_session-Shrinks :
    (id : String) (ob : Orderbook) → IsValid ob → Shrinks ob (cancel_session id ob)
unfolding cancel_session
cancel_session-Shrinks id ob v = remove_all-Shrinks (session_orders id ob.objs ob.orders) ob v
