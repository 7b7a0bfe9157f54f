-- ===== src/Engine/Queues/Leave.antt =====
-- Orders that leave the book: `remove` and `cancelSession` of services/stub/main.go, by the queues.
use mathlib.Core.Path.{subst}
use obarena.Prelude.{
  ℕ, ◌≡◌, ◌≢◌, inl, inr, refl, sym, ◌∙◌, ap, List, [], ◌∷◌, Bool, false, some-cases, ◌==◌, eq-cases,
  arith, String, eq_iff, lookup, delete, some,
}
use obarena.Engine.Heap
use obarena.Engine.Heap.Index.{Holds}
use obarena.Engine.Book.{
  Orderbook, Side, buy, sell, opposite, less, heap, remove, remove_all, cancel_session,
  session_orders,
}
use obarena.Engine.Book.Valid.{IsValid, Holds-disjoint, changed, both_sides}
use obarena.Engine.Book.Remove.{
  without, heap-Drops, remove-eq-without, remove_unknown, remove-IsValid,
}
use obarena.Engine.Book.Cancel.{contains, contains-session_orders, is_of_session}
use obarena.Engine.Queues.{Entry, Queues, queue, drop_if, drop, is_named, is_from}
use obarena.Engine.Queues.Listing.{
  Has, Listed, Shows, entry, entries, IsListing-opposite, IsListing-self,
}
use obarena.Engine.Queues.Drop.{drop_ref, Drops-IsListing, entries-drop_ref}

drop_if-cong :
    (p p' : Entry → Bool) (ob : Orderbook) (q : List ℕ)
    → ((x : ℕ) → Has x q → p (entry ob.objs ob.remaining x) ≡ p' (entry ob.objs ob.remaining x))
    → drop_if p (entries ob q) ≡ drop_if p' (entries ob q)
unfolding drop_if
drop_if-cong p p' ob [] f = refl
drop_if-cong p p' ob (x ∷ q) f =
    let first = f x (inl refl) in
    let rest = drop_if-cong p p' ob q (λ y there. f y (inr there)) in rw (first, rest) refl

drop_if-none : (es : List Entry) → drop_if (λ _. false) es ≡ es
unfolding drop_if
drop_if-none [] = refl
drop_if-none (e ∷ es) = ap (◌∷◌ e) (drop_if-none es)

-- Each listed order is the one that the map has under its id.
pub listing_of_map :
    (s : Side) (ob : Orderbook) (v : IsValid ob) (es : List Entry) (l : Listed s ob es) (x : ℕ)
    → Has x l.refs
    → lookup (ob.objs x).order_id ob.orders ≡ some x
listing_of_map s ob v es l x there = (v.held s x (l.listing.held x there)).mapped

module _ (s : Side) (ob : Orderbook) (v : IsValid ob) (r : ℕ) (here : Holds (heap s ob) r) where
  named_eq :
      (x : ℕ)
      → lookup (ob.objs x).order_id ob.orders ≡ some x
      → is_named (ob.objs r).order_id (entry ob.objs ob.remaining x) ≡ (x == r)
  named_eq x mapped =
      let mine = (v.held s r here).mapped in
      elim (eq-cases x r) [
        | inl same ↦ rw same (ground (arith, eq_iff (ob.objs r).order_id (ob.objs r).order_id))
        | inr other ↦
            ground (arith, other, mapped, mine, eq_iff (ob.objs x).order_id (ob.objs r).order_id)
      ]

  without-Listed :
      (es : List Entry)
      → Listed s ob es
      → Listed s (without s ob v r here) (drop_if (is_named (ob.objs r).order_id) es)
  without-Listed es l =
      let g = Heap.remove (less s ob.objs) (heap s ob) here.0 in
      record {
        refs = drop_ref r l.refs;
        listing =
            IsListing-self s g
              (changed ob ob.remaining (delete (ob.objs r).order_id ob.orders) ob.clock) ob.objs
              (drop_ref r l.refs)
              (Drops-IsListing s ob.objs (heap s ob) g r l.refs (heap-Drops s ob v r here)
                l.listing);
        same =
            entries-drop_ref (is_named (ob.objs r).order_id) r ob l.refs
              (λ x there. named_eq x (listing_of_map s ob v es l x there))
            ∙ ap (drop_if (is_named (ob.objs r).order_id)) l.same;
      }

  without-opposite-Listed :
      (es : List Entry)
      → Listed (opposite s) ob es
      → Listed (opposite s) (without s ob v r here) (drop_if (is_named (ob.objs r).order_id) es)
  without-opposite-Listed es l = record {
    refs = l.refs;
    listing =
        IsListing-opposite s (Heap.remove (less s ob.objs) (heap s ob) here.0)
          (changed ob ob.remaining (delete (ob.objs r).order_id ob.orders) ob.clock) ob.objs l.refs
          (record {
            sorted = l.listing.sorted;
            held = l.listing.held;
            complete = l.listing.complete;
          });
    same =
        sym (drop_if-none (entries ob l.refs))
        ∙ drop_if-cong (λ _. false) (is_named (ob.objs r).order_id) ob l.refs
            (λ x there.
              let named = named_eq x (listing_of_map (opposite s) ob v es l x there) in
              let ne : x ≢ r =
                λ same. Holds-disjoint s v x (rw same here) (l.listing.held x there) in
              ground (arith, named, ne))
        ∙ ap (drop_if (is_named (ob.objs r).order_id)) l.same;
  }

-- `remove` drops the entry with the id.
pub remove-Shows :
    (k : String) (ob : Orderbook) (m : Queues)
    → IsValid ob
    → Shows ob m
    → (s : Side) → Listed s (remove k ob) (drop_if (is_named k) (queue s m))
remove-Shows k ob m v shows = elim (some-cases (lookup k ob.orders)) [
  | inl unknown ↦ λ s.
      let l = shows s in
      let none_named : drop_if (is_named k) (entries ob l.refs) ≡ entries ob l.refs =
        drop_if-cong (is_named k) (λ _. false) ob l.refs
          (λ x there.
            let mapped = listing_of_map s ob v (queue s m) l x there in
            ground (arith, mapped, unknown, eq_iff (ob.objs x).order_id k))
        ∙ drop_if-none (entries ob l.refs) in
      rw (remove_unknown k ob unknown)
        (subst (Listed s ob) (sym l.same ∙ sym none_named ∙ ap (drop_if (is_named k)) l.same) l)
  | inr (r, known) ↦
      let (same_id, (t, here)) = v.found k r known in
      subst (λ j. (s : Side) → Listed s (remove j ob) (drop_if (is_named j) (queue s m))) same_id
        (subst (λ b. (s : Side) → Listed s b (drop_if (is_named (ob.objs r).order_id) (queue s m)))
          (sym (remove-eq-without t ob v r here))
          (both_sides t
            (λ s.
              Listed s (without t ob v r here)
                (drop_if (is_named (ob.objs r).order_id) (queue s m)))
            (without-Listed t ob v r here (queue t m) (shows t))
            (without-opposite-Listed t ob v r here (queue (opposite t) m) (shows (opposite t)))))
]

-- Without the entries of some ids.
abbrev is_any : List String → Entry → Bool
is_any ids e = contains ids e.order_id

drop_if-is_any :
    (id : String) (ids : List String) (es : List Entry)
    → drop_if (is_any ids) (drop_if (is_named id) es) ≡ drop_if (is_any (id ∷ ids)) es
unfolding drop_if contains
drop_if-is_any id ids [] = refl
drop_if-is_any id ids (e ∷ es) =
    ground (arith, drop_if-is_any id ids es, eq_iff e.order_id id, eq_iff id e.order_id)

queue-drop : (s : Side) (p : Entry → Bool) (m : Queues) → queue s (drop p m) ≡ drop_if p (queue s m)
queue-drop buy p m = refl
queue-drop sell p m = refl

remove_all-Listed :
    (ids : List String) (ob : Orderbook) (m : Queues)
    → IsValid ob
    → Shows ob m
    → (s : Side) → Listed s (remove_all ids ob) (drop_if (is_any ids) (queue s m))
unfolding remove_all contains
remove_all-Listed [] ob m v shows s = subst (Listed s ob) (sym (drop_if-none (queue s m))) (shows s)
remove_all-Listed (id ∷ ids) ob m v shows s =
    let next : Shows (remove id ob) (drop (is_named id) m) =
      both_sides buy (λ t. Listed t (remove id ob) (queue t (drop (is_named id) m)))
        (remove-Shows id ob m v shows buy) (remove-Shows id ob m v shows sell) in
    let l =
      remove_all-Listed ids (remove id ob) (drop (is_named id) m) (remove-IsValid id ob v) next s in
    subst (Listed s (remove_all ids (remove id ob)))
      (ap (drop_if (is_any ids)) (queue-drop s (is_named id) m) ∙ drop_if-is_any id ids (queue s m))
      l

-- `cancelSession` drops the entries of the session.
pub cancel_session-Shows :
    (id : String) (ob : Orderbook) (m : Queues)
    → IsValid ob
    → Shows ob m
    → (s : Side) → Listed s (cancel_session id ob) (drop_if (is_from id) (queue s m))
unfolding cancel_session
cancel_session-Shows id ob m v shows s =
    let l = shows s in
    let ids = session_orders id ob.objs ob.orders in
    subst (Listed s (remove_all ids ob))
      (ap (drop_if (is_any ids)) (sym l.same)
        ∙ drop_if-cong (is_any ids) (is_from id) ob l.refs (λ x there.
          contains-session_orders id ob.objs ob.orders (ob.objs x).order_id v.distinct
            (λ j r e. (v.found j r e).0)
          ∙ ap (is_of_session id ob.objs) (listing_of_map s ob v (queue s m) l x there))
        ∙ ap (drop_if (is_from id)) l.same)
      (remove_all-Listed ids ob m v shows s)
