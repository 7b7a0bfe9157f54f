-- ===== src/Engine/Queues/Drop.antt =====
-- An order leaves its heap, and its entry the queue: `heap.Pop` and `heap.Remove` of
-- services/stub/main.go.
use mathlib.Core.Path.{subst}
use obarena.Prelude.{
  ℕ, ◌≡◌, ◌≢◌, ◌⊎◌, inl, inr, refl, sym, ◌∙◌, ap, List, [], ◌∷◌, All, Chain, Bool, true, Bool-cases,
  ◌==◌, eq-cases, if◌then◌else◌, arith,
}
use obarena.Engine.Heap.{Heap}
use obarena.Engine.Heap.Index.{Holds}
use obarena.Engine.Heap.Members.{Drops}
use obarena.Engine.Book.{Order, Orderbook, Side, less}
use obarena.Engine.Queues.{Entry, drop_if}
use obarena.Engine.Queues.Listing.{Has, IsListing, entry, entries, All-Has, All-intro, first_once}

unfoldable pub drop_ref : ℕ → List ℕ → List ℕ
drop_ref r [] = []
drop_ref r (x ∷ q) = let rest = drop_ref r q in if x == r then rest else x ∷ rest

Has-drop_ref : (r x : ℕ) (q : List ℕ) → Has x (drop_ref r q) → Has x q × (x ≢ r)
unfolding drop_ref
Has-drop_ref r x [] there = absurd there
Has-drop_ref r x (y ∷ q) there = elim (eq-cases y r) [
  | inl same ↦
      let (there', ne) = Has-drop_ref r x q (ground (arith, there, same)) in (inr there', ne)
  | inr other ↦
      let there' : (y ≡ x) ⊎ Has x (drop_ref r q) = ground (arith, there, other) in
      elim there' [
        | inl e ↦ (inl e, ground (arith, e, other))
        | inr later ↦ let (there'', ne) = Has-drop_ref r x q later in (inr there'', ne)
      ]
]

drop_ref-keeps : (r x : ℕ) (q : List ℕ) → Has x q → x ≢ r → Has x (drop_ref r q)
unfolding drop_ref
drop_ref-keeps r x [] there ne = absurd there
drop_ref-keeps r x (y ∷ q) there ne = elim (eq-cases y r) [
  | inl same ↦ elim there [
    | inl e ↦ absurd (ne (sym e ∙ same))
    | inr later ↦ rw (same, drop_ref) (ground (arith, drop_ref-keeps r x q later ne))
  ]
  | inr other ↦
      rw (other, drop_ref)
        (elim there [ inl e ↦ inl e | inr later ↦ inr (drop_ref-keeps r x q later ne) ])
]

All-drop_ref : (P : ℕ → Type 0) (r : ℕ) (q : List ℕ) → All P q → All P (drop_ref r q)
All-drop_ref P r q all =
    All-intro P (drop_ref r q) (λ x there. All-Has P q x all (Has-drop_ref r x q there).0)

Chain-drop_ref : (R : ℕ → ℕ → Type 0) (r : ℕ) (q : List ℕ) → Chain R q → Chain R (drop_ref r q)
unfolding drop_ref
Chain-drop_ref R r [] c = tt
Chain-drop_ref R r (x ∷ q) (first, c) = elim (Bool-cases (x == r)) [
  | inl same ↦ rw (same, drop_ref) (Chain-drop_ref R r q c)
  | inr other ↦ rw (other, drop_ref) (All-drop_ref (R x) r q first, Chain-drop_ref R r q c)
]

pub Drops-IsListing :
    (s : Side) (objs : ℕ → Order) (h g : Heap) (r : ℕ) (q : List ℕ)
    → Drops h r g
    → IsListing s objs h q
    → IsListing s objs g (drop_ref r q)
Drops-IsListing s objs h g r q d l = record {
  sorted = Chain-drop_ref (λ a b. less s objs a b ≡ true) r q l.sorted;
  held = λ x there. let (there', ne) = Has-drop_ref r x q there in d.keeps x (l.held x there') ne;
  complete = λ x there.
      drop_ref-keeps r x q (l.complete x (d.adds_none x there))
        (λ e. d.gone (subst (Holds g) e there));
}

drop_ref-absent : (r : ℕ) (q : List ℕ) → ¬ Has r q → drop_ref r q ≡ q
unfolding drop_ref
drop_ref-absent r [] out = refl
drop_ref-absent r (x ∷ q) out = elim (eq-cases x r) [
  | inl same ↦ absurd (out (inl same))
  | inr other ↦ rw (other, drop_ref) (ap (◌∷◌ x) (drop_ref-absent r q (λ there. out (inr there))))
]

-- The first of the list leaves.
pub drop_ref-first :
    (s : Side) (objs : ℕ → Order) (x : ℕ) (q : List ℕ)
    → All (λ y. less s objs x y ≡ true) q
    → drop_ref x (x ∷ q) ≡ q
unfolding drop_ref
drop_ref-first s objs x q first =
    let rest = drop_ref-absent x q (first_once s objs x q first) in ground (arith, rest)

-- Where a test is true of the entry of `r` and of no other, it drops that entry.
pub entries-drop_ref :
    (p : Entry → Bool) (r : ℕ) (ob : Orderbook) (q : List ℕ)
    → ((x : ℕ) → Has x q → p (entry ob.objs ob.remaining x) ≡ (x == r))
    → entries ob (drop_ref r q) ≡ drop_if p (entries ob q)
unfolding drop_ref drop_if
entries-drop_ref p r ob [] f = refl
entries-drop_ref p r ob (x ∷ q) f =
    let rest = entries-drop_ref p r ob q (λ y there. f y (inr there)) in
    elim (Bool-cases (x == r)) [
      | inl same ↦ rw (f x (inl refl), same, drop_ref) rest
      | inr other ↦
          rw (f x (inl refl), other, drop_ref) (ap (◌∷◌ (entry ob.objs ob.remaining x)) rest)
    ]
