-- ===== src/Engine/Heap/Index.antt =====
-- The field `index` of the orders, and which orders a heap holds.
use obarena.Prelude.{
  ℕ, zero, suc, ◌+◌, ◌*◌, ◌<◌, ◌≤◌, ◌≡◌, ◌≢◌, refl, inl, inr, pos, arith, ◌==◌, ltb, Bool,
  Bool-cases, if◌then◌else◌, ltb→lt, ◌∙◌,
}
use obarena.Engine.Heap.{Heap, swap, up_loop, up, child, down_loop, down, settle, parent}

-- Each order in the heap knows its place.
abbrev pub IsIndexed : Heap → Type 0
IsIndexed h = (i : ℕ) → i < h.len → h.index (h.at i) ≡ pos i

abbrev pub Holds : Heap → ℕ → Type 0
Holds h r = (i : ℕ) × (i < h.len) × (h.at i ≡ r)

-- The same orders are held, and the others keep their `index`.
pub record Rearranges (h g : Heap) : Type 0 where
  pub same_len : g.len ≡ h.len
  pub indexed : IsIndexed g
  pub keeps : (r : ℕ) → Holds h r → Holds g r
  pub adds_none : (r : ℕ) → Holds g r → Holds h r
  pub frame : (r : ℕ) → ¬ Holds h r → g.index r ≡ h.index r

pub at-injective :
    (h : Heap) (i j : ℕ) → IsIndexed h → i < h.len → j < h.len → h.at i ≡ h.at j → i ≡ j
at-injective h i j ix hi hj e = ground (arith, ix i hi, ix j hj)

module _ (h : Heap) (i j : ℕ) (ix : IsIndexed h) (hi : i < h.len) (hj : j < h.len) where
  swap-IsIndexed : IsIndexed (swap h i j)
  unfolding swap
  swap-IsIndexed k hk = ground (arith, ix i hi, ix j hj, ix k hk)

  swap-keeps : (r : ℕ) → Holds h r → Holds (swap h i j) r
  unfolding swap
  swap-keeps r (k, hk, e) =
      (if k == i then j else if k == j then i else k, ground arith, ground arith)

  swap-adds_none : (r : ℕ) → Holds (swap h i j) r → Holds h r
  unfolding swap
  swap-adds_none r (k, hk, e) =
      (if k == j then i else if k == i then j else k, ground arith, ground arith)

  swap-frame : (r : ℕ) → ¬ Holds h r → (swap h i j).index r ≡ h.index r
  unfolding swap
  swap-frame r out =
      let ne_i : h.at i ≢ r = λ e. out (i, hi, e) in
      let ne_j : h.at j ≢ r = λ e. out (j, hj, e) in ground arith

  pub swap-Rearranges : Rearranges h (swap h i j)
  unfolding swap
  swap-Rearranges = record {
    same_len = refl;
    indexed = swap-IsIndexed;
    keeps = swap-keeps;
    adds_none = swap-adds_none;
    frame = swap-frame;
  }

pub Rearranges-refl : (h : Heap) → IsIndexed h → Rearranges h h
Rearranges-refl h ix = record {
  same_len = refl;
  indexed = ix;
  keeps = λ r m. m;
  adds_none = λ r m. m;
  frame = λ r out. refl;
}

pub Rearranges-trans : {h g k : Heap} → Rearranges h g → Rearranges g k → Rearranges h k
Rearranges-trans p q = record {
  same_len = q.same_len ∙ p.same_len;
  indexed = q.indexed;
  keeps = λ r m. q.keeps r (p.keeps r m);
  adds_none = λ r m. p.adds_none r (q.adds_none r m);
  frame = λ r out. q.frame r (λ m. out (p.adds_none r m)) ∙ p.frame r out;
}

module _ (less : ℕ → ℕ → Bool) where
  up_loop-Rearranges :
      (fuel : ℕ) (h : Heap) (j : ℕ) → IsIndexed h → j < h.len → Rearranges h (up_loop less fuel h j)
  unfolding up_loop
  up_loop-Rearranges zero h j ix hj = Rearranges-refl h ix
  up_loop-Rearranges (suc fuel) h j ix hj =
      let swapped = swap-Rearranges h (parent j) j ix (omega arith) hj in
      let later =
        up_loop-Rearranges fuel (swap h (parent j) j) (parent j) swapped.indexed
          (omega (arith, swapped.same_len)) in
      elim (Bool-cases (parent j == j)) [
        | inl top ↦ rw top (Rearranges-refl h ix)
        | inr below ↦ elim (Bool-cases (less (h.at j) (h.at (parent j)))) [
          | inl rise ↦ rw (below, rise) (Rearranges-trans swapped later)
          | inr stay ↦ rw (below, stay) (Rearranges-refl h ix)
        ]
      ]

  pub up-Rearranges : (h : Heap) (j : ℕ) → IsIndexed h → j < h.len → Rearranges h (up less h j)
  unfolding up
  up-Rearranges h j = up_loop-Rearranges (j + 1) h j

  pub child-lt : (h : Heap) (i n : ℕ) → 2 * i + 1 < n → child less h i n < n
  unfolding child
  child-lt h i n le = ground arith

  down_loop-Rearranges :
      (fuel : ℕ) (h : Heap) (i n : ℕ)
      → IsIndexed h
      → i < h.len
      → n ≤ h.len
      → Rearranges h (down_loop less fuel h i n).heap
  unfolding down_loop
  down_loop-Rearranges zero h i n ix hi hn = Rearranges-refl h ix
  down_loop-Rearranges (suc fuel) h i n ix hi hn = elim (Bool-cases (ltb (2 * i + 1) n)) [
    | inr leaf ↦ rw leaf (Rearranges-refl h ix)
    | inl inner ↦
        let c = child less h i n in
        let hc : c < n = child-lt h i n (ltb→lt _ _ inner) in
        let swapped = swap-Rearranges h i c ix hi (omega arith) in
        let later =
          down_loop-Rearranges fuel (swap h i c) c n swapped.indexed
            (omega (arith, swapped.same_len)) (omega (arith, swapped.same_len)) in
        elim (Bool-cases (less (h.at c) (h.at i))) [
          | inl sink ↦ rw (inner, sink) (Rearranges-trans swapped later)
          | inr stay ↦ rw (inner, stay) (Rearranges-refl h ix)
        ]
  ]

  pub down-Rearranges :
      (h : Heap) (i n : ℕ)
      → IsIndexed h
      → i < h.len
      → n ≤ h.len
      → Rearranges h (down less h i n).heap
  unfolding down
  down-Rearranges h i n = down_loop-Rearranges (n + 1) h i n

  pub settle-Rearranges :
      (h : Heap) (i n : ℕ) → IsIndexed h → i < h.len → n ≤ h.len → Rearranges h (settle less h i n)
  unfolding settle
  settle-Rearranges h i n ix hi hn =
      let sunk = down-Rearranges h i n ix hi hn in
      elim (Bool-cases (down less h i n).moved) [
        | inl moved ↦ rw moved sunk
        | inr still ↦ rw still (
            Rearranges-trans sunk
              (up-Rearranges (down less h i n).heap i sunk.indexed (omega (arith, sunk.same_len))))
      ]
