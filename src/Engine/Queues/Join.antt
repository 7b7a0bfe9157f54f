-- ===== src/Engine/Queues/Join.antt =====
-- An order joins its heap, and its entry the queue: `heap.Push` of services/stub/main.go.
use obarena.Prelude.{
  ℕ, ◌<◌, ◌≡◌, ◌⊎◌, inl, inr, refl, sym, ◌∙◌, ap, List, [], ◌∷◌, All-map_of, Chain, true, false,
  Bool-cases, if◌then◌else◌, arith,
}
use obarena.Engine.Heap.{Heap}
use obarena.Engine.Heap.Index.{Holds}
use obarena.Engine.Heap.Members.{Pushes}
use obarena.Engine.Book.{Order, Orderbook, Side, buy, sell, less, bid_less, ask_less}
use obarena.Engine.Queues.{join, better}
use obarena.Engine.Queues.Listing.{Has, IsListing, entry, entries, All-Has, All-intro}

unfoldable pub join_ref : Side → (ℕ → Order) → ℕ → List ℕ → List ℕ
join_ref s objs r [] = r ∷ []
join_ref s objs r (x ∷ q) =
    let rest = join_ref s objs r q in if less s objs r x then r ∷ x ∷ q else x ∷ rest

less_trans :
    (s : Side) (objs : ℕ → Order) (a b c : ℕ)
    → less s objs a b ≡ true
    → less s objs b c ≡ true
    → less s objs a c ≡ true
unfolding less bid_less ask_less
less_trans buy objs a b c h k = ground (arith, h, k)
less_trans sell objs a b c h k = ground (arith, h, k)

module _ (s : Side) (objs : ℕ → Order) (r : ℕ) where
  Has-join_ref : (x : ℕ) (q : List ℕ) → Has x (join_ref s objs r q) → Has x q ⊎ (x ≡ r)
  unfolding join_ref
  Has-join_ref x [] there = elim there [ inl e ↦ inr (sym e) | inr none_there ↦ absurd none_there ]
  Has-join_ref x (y ∷ q) there = elim (Bool-cases (less s objs r y)) [
    | inl before ↦
        let there' : (r ≡ x) ⊎ ((y ≡ x) ⊎ Has x q) = ground (arith, there, before) in
        elim there' [ inl e ↦ inr (sym e) | inr old ↦ inl old ]
    | inr after ↦
        let there' : (y ≡ x) ⊎ Has x (join_ref s objs r q) = ground (arith, there, after) in
        elim there' [
          | inl e ↦ inl (inl e)
          | inr later ↦ elim (Has-join_ref x q later) [ inl old ↦ inl (inr old) | inr e ↦ inr e ]
        ]
  ]

  join_ref-new : (q : List ℕ) → Has r (join_ref s objs r q)
  unfolding join_ref
  join_ref-new [] = inl refl
  join_ref-new (y ∷ q) = elim (Bool-cases (less s objs r y)) [
    | inl before ↦ rw (before, join_ref) (inl refl)
    | inr after ↦ rw (after, join_ref) (inr (join_ref-new q))
  ]

  join_ref-keeps : (x : ℕ) (q : List ℕ) → Has x q → Has x (join_ref s objs r q)
  unfolding join_ref
  join_ref-keeps x [] there = absurd there
  join_ref-keeps x (y ∷ q) there = elim (Bool-cases (less s objs r y)) [
    | inl before ↦ rw (before, join_ref) (inr there)
    | inr after ↦
        rw (after, join_ref)
          (elim there [ inl e ↦ inl e | inr later ↦ inr (join_ref-keeps x q later) ])
  ]

  join_ref-sorted :
      (q : List ℕ)
      → ((x : ℕ) → Has x q → less s objs r x ≡ false → less s objs x r ≡ true)
      → Chain (λ a b. less s objs a b ≡ true) q
      → Chain (λ a b. less s objs a b ≡ true) (join_ref s objs r q)
  unfolding join_ref
  join_ref-sorted [] apart c = (tt, tt)
  join_ref-sorted (y ∷ q) apart (first, c) = elim (Bool-cases (less s objs r y)) [
    | inl before ↦
        rw (before, join_ref)
          ((before, All-map_of (λ x h. less_trans s objs r y x before h) q first), (first, c))
    | inr after ↦
        rw (after, join_ref)
          (
            All-intro (λ x. less s objs y x ≡ true) (join_ref s objs r q)
                (λ x there. elim (Has-join_ref x q there) [
                  | inl old ↦ All-Has (λ x. less s objs y x ≡ true) q x first old
                  | inr e ↦ rw e (apart y (inl refl) after)
                ]),
            join_ref-sorted q (λ x there. apart x (inr there)) c,
          )
  ]

  pub Pushes-IsListing :
      (h g : Heap) (q : List ℕ)
      → Pushes h r g
      → ((x : ℕ) → Holds h x → less s objs r x ≡ false → less s objs x r ≡ true)
      → IsListing s objs h q
      → IsListing s objs g (join_ref s objs r q)
  Pushes-IsListing h g q p apart l = record {
    sorted = join_ref-sorted q (λ x there. apart x (l.held x there)) l.sorted;
    held = λ x there. elim (Has-join_ref x q there) [
      | inl old ↦ p.keeps x (l.held x old)
      | inr e ↦ rw e p.new
    ];
    complete = λ x there. elim (p.adds_one x there) [
      | inl old ↦ join_ref-keeps x q (l.complete x old)
      | inr e ↦ rw e (join_ref-new q)
    ];
  }

-- Of the orders that are listed none is as new as `r`.
abbrev pub IsLatest : (ℕ → Order) → ℕ → ℕ → Type 0
IsLatest objs r x = (objs x).entered_at < (objs r).entered_at

pub IsLatest-apart :
    (s : Side) (objs : ℕ → Order) (r x : ℕ)
    → IsLatest objs r x
    → less s objs r x ≡ false
    → less s objs x r ≡ true
unfolding less bid_less ask_less
IsLatest-apart buy objs r x later h = ground (arith, later, h)
IsLatest-apart sell objs r x later h = ground (arith, later, h)

IsLatest-better :
    (s : Side) (objs : ℕ → Order) (r x : ℕ)
    → IsLatest objs r x
    → less s objs r x ≡ better s (objs r).price (objs x).price
unfolding less bid_less ask_less better
IsLatest-better buy objs r x later = ground (arith, later)
IsLatest-better sell objs r x later = ground (arith, later)

pub entries-join_ref :
    (s : Side) (r : ℕ) (ob : Orderbook) (q : List ℕ)
    → ((x : ℕ) → Has x q → IsLatest ob.objs r x)
    → entries ob (join_ref s ob.objs r q) ≡ join s (entry ob.objs ob.remaining r) (entries ob q)
unfolding join_ref join
entries-join_ref s r ob [] latest = refl
entries-join_ref s r ob (x ∷ q) latest =
    let same = IsLatest-better s ob.objs r x (latest x (inl refl)) in
    let rest = entries-join_ref s r ob q (λ y there. latest y (inr there)) in
    elim (Bool-cases (less s ob.objs r x)) [
      | inl before ↦ rw (before, sym same ∙ before, join_ref) refl
      | inr after ↦
          rw (after, sym same ∙ after, join_ref) (ap (◌∷◌ (entry ob.objs ob.remaining x)) rest)
    ]
