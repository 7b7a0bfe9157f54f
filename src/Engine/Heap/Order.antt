-- ===== src/Engine/Heap/Order.antt =====
-- The heap order: no order precedes its parent, so the root precedes all.
use obarena.Prelude.{
  ℕ, zero, suc, ◌+◌, ◌-◌, ◌*◌, ◌<◌, ◌≤◌, ◌≡◌, ◌≢◌, ◌⊎◌, refl, inl, inr, arith, ◌==◌, ltb, Bool,
  Bool-cases, true, false, ltb→lt, ltb-false→le, eq-cases, ◌∙◌,
}
use mathlib.Core.Path.{subst}
use obarena.Engine.Heap.Index.{child-lt}
use obarena.Engine.Heap.{
  Heap, swap, append, drop_last, up_loop, up, child, down_loop, down, settle, push, pop, fix,
  remove, parent,
}

-- `less` as the order of a queue: no two orders precede one another, and to come no later is
-- transitive.
pub record IsWeakOrder (less : ℕ → ℕ → Bool) : Type 0 where
  pub asym : (a b : ℕ) → less a b ≡ true → less b a ≡ false
  pub trans : (a b c : ℕ) → less b a ≡ false → less c b ≡ false → less c a ≡ false

-- The first `n` places are in heap order.
abbrev pub IsOrdered : (ℕ → ℕ → Bool) → Heap → ℕ → Type 0
IsOrdered less h n = (c : ℕ) → 0 < c → c < n → less (h.at c) (h.at (parent c)) ≡ false

-- In heap order but for the edges at `i`, over which the order holds.
record Defect (less : ℕ → ℕ → Bool) (h : Heap) (i n : ℕ) : Type 0 where
  away : (c : ℕ) → 0 < c → c < n → c ≢ i → parent c ≢ i → less (h.at c) (h.at (parent c)) ≡ false
  across : (c : ℕ) → 0 < c → c < n → parent c ≡ i → 0 < i → less (h.at c) (h.at (parent i)) ≡ false

-- Only the edge from `i` up may be wrong.
record UpReady (less : ℕ → ℕ → Bool) (h : Heap) (i n : ℕ) : Type 0 where
  defect : Defect less h i n
  below : (c : ℕ) → 0 < c → c < n → parent c ≡ i → less (h.at c) (h.at i) ≡ false

module _ (less : ℕ → ℕ → Bool) (w : IsWeakOrder less) where
  UpReady-IsOrdered :
      (h : Heap) (i n : ℕ)
      → UpReady less h i n
      → (0 < i → less (h.at i) (h.at (parent i)) ≡ false)
      → IsOrdered less h n
  UpReady-IsOrdered h i n u edge c pos_c hc = elim (eq-cases c i) [
    | inl e ↦ rw e (edge (omega arith))
    | inr ne ↦ elim (eq-cases (parent c) i) [
      | inl e ↦ rw e (u.below c pos_c hc e)
      | inr ne' ↦ u.defect.away c pos_c hc (ground arith) (ground arith)
    ]
  ]

  module _ (h : Heap) (j n : ℕ) (hj : j < n) (pos_j : 0 < j) (u : UpReady less h j n)
      (rise : less (h.at j) (h.at (parent j)) ≡ true) where
    rise-UpReady : UpReady less (swap h (parent j) j) (parent j) n
    unfolding swap
    rise-UpReady =
        let p = parent j in
        record {
          defect = record {
            away = λ c pc hc ne ne'. ground (arith, u.defect.away c pc hc, u.defect.across c pc hc);
            across = λ c pc hc e pp. ground (
              arith,
              u.defect.away c pc hc,
              u.defect.away p (omega arith) (omega arith),
              w.trans (h.at (parent p)) (h.at p) (h.at c),
            );
          };
          below = λ c pc hc e. ground (
            arith,
            w.asym (h.at j) (h.at p) rise,
            u.defect.away c pc hc,
            w.trans (h.at j) (h.at p) (h.at c),
          );
        }

  up_loop-IsOrdered :
      (fuel : ℕ) (h : Heap) (j n : ℕ)
      → j < fuel
      → j < n
      → UpReady less h j n
      → IsOrdered less (up_loop less fuel h j) n
  unfolding up_loop
  up_loop-IsOrdered zero h j n hf hj u = absurd (omega arith)
  up_loop-IsOrdered (suc fuel) h j n hf hj u = elim (Bool-cases (parent j == j)) [
    | inl top ↦ rw top (UpReady-IsOrdered h j n u (λ pos_j. absurd (ground arith)))
    | inr below ↦
        let pos_j : 0 < j = ground arith in
        elim (Bool-cases (less (h.at j) (h.at (parent j)))) [
          | inr stay ↦ rw (below, stay) (UpReady-IsOrdered h j n u (λ _. stay))
          | inl rise ↦
              rw (below, rise)
                (up_loop-IsOrdered fuel (swap h (parent j) j) (parent j) n (omega arith)
                  (omega arith) (rise-UpReady h j n hj pos_j u rise))
        ]
  ]

  up-IsOrdered : (h : Heap) (j n : ℕ) → j < n → UpReady less h j n → IsOrdered less (up less h j) n
  unfolding up
  up-IsOrdered h j n hj u = up_loop-IsOrdered (j + 1) h j n (omega arith) hj u

  module _ (h : Heap) (i n : ℕ) (inner : 2 * i + 1 < n) where
    parent-child : parent (child less h i n) ≡ i
    unfolding child
    parent-child = ground arith

    child_pos : 0 < child less h i n
    unfolding child
    child_pos = ground arith

    child_min :
        (c : ℕ) → 0 < c → c < n → parent c ≡ i → less (h.at c) (h.at (child less h i n)) ≡ false
    unfolding child
    child_min c pos_c hc e =
        let which : (c ≡ 2 * i + 1) ⊎ (c ≡ 2 * i + 2) = elim (eq-cases c (2 * i + 1)) [
          | inl l ↦ inl l
          | inr r ↦ inr (ground arith)
        ] in
        ground
          (arith, which, w.asym (h.at c) (h.at c), w.asym (h.at (2 * i + 2)) (h.at (2 * i + 1)))

  module _ (h : Heap) (i n : ℕ) (d : Defect less h i n) (inner : 2 * i + 1 < n)
      (sink : less (h.at (child less h i n)) (h.at i) ≡ true) where
    sink-Defect : Defect less (swap h i (child less h i n)) (child less h i n) n
    unfolding swap
    sink-Defect =
        let ch = child less h i n in
        record {
          away = λ c pc hc ne ne'. ground (
            arith,
            d.away c pc hc,
            d.across ch,
            child_min h i n inner c pc hc,
            parent-child h i n inner,
            child_pos h i n inner,
            child-lt less h i n inner,
          );
          across = λ c pc hc e pp.
              ground (arith, d.away c pc hc, parent-child h i n inner, child_pos h i n inner);
        }

  -- Where `down` stops, only the edge up may be wrong, and it is not if `down` moved.
  record Sunk (h : Heap) (i n : ℕ) (g : Heap) (stop : ℕ) : Type 0 where
    ready : UpReady less g stop n
    le : i ≤ stop
    edge : ((stop ≡ i) × (g ≡ h)) ⊎ (less (g.at stop) (g.at (parent stop)) ≡ false)

  -- A swap with the child before mends the edge into the child's place.
  Sunk-swap :
      (h : Heap) (i n : ℕ) (inner : 2 * i + 1 < n)
      → less (h.at (child less h i n)) (h.at i) ≡ true
      → (g : Heap) (stop : ℕ) → Sunk (swap h i (child less h i n)) (child less h i n) n g stop
      → Sunk h i n g stop
  unfolding swap
  Sunk-swap h i n inner sink g stop s =
      let ch = child less h i n in
      let ch_above : parent ch ≡ i = parent-child h i n inner in
      let ch_pos : 0 < ch = child_pos h i n inner in
      record {
        ready = s.ready;
        le = omega (arith, s.le);
        edge = elim s.edge [
          | inr fine ↦ inr fine
          | inl (at_child, same) ↦
              inr (rw (at_child, same) (ground (arith, w.asym (h.at ch) (h.at i) sink)))
        ];
      }

  down_loop-Sunk :
      (fuel : ℕ) (h : Heap) (i n : ℕ)
      → n ≤ fuel + i
      → Defect less h i n
      → Sunk h i n (down_loop less fuel h i n).heap (down_loop less fuel h i n).stop
  unfolding down_loop
  down_loop-Sunk zero h i n hf d = record {
    ready = record { defect = d; below = λ c pc hc e. absurd (omega arith) };
    le = omega arith;
    edge = inl (refl, refl);
  }
  down_loop-Sunk (suc fuel) h i n hf d = elim (Bool-cases (ltb (2 * i + 1) n)) [
    | inr leaf ↦ rw leaf (record {
      ready = record { defect = d; below = λ c pc hc e. absurd (ground arith) };
      le = omega arith;
      edge = inl (refl, refl);
    })
    | inl test ↦
        let inner = ltb→lt _ _ test in
        let ch = child less h i n in
        let rest : less (h.at ch) (h.at i) ≡ true
            → Sunk (swap h i ch) ch n (down_loop less fuel (swap h i ch) ch n).heap
                (down_loop less fuel (swap h i ch) ch n).stop =
          λ sink.
            down_loop-Sunk fuel (swap h i ch) ch n
              (omega (arith, parent-child h i n inner, child_pos h i n inner))
              (sink-Defect h i n d inner sink) in
        elim (Bool-cases (less (h.at ch) (h.at i))) [
          | inr stay ↦
              rw (test, stay)
                (record {
                  ready = record {
                    defect = d;
                    below = λ c pc hc e.
                        w.trans (h.at i) (h.at ch) (h.at c) stay (child_min h i n inner c pc hc e);
                  };
                  le = omega arith;
                  edge = inl (refl, refl);
                })
          | inl sink ↦ rw (test, sink) (Sunk-swap h i n inner sink _ _ (rest sink))
        ]
  ]

  down-Sunk :
      (h : Heap) (i n : ℕ)
      → Defect less h i n
      → (stop : ℕ) × Sunk h i n (down less h i n).heap stop × ((down less h i n).moved ≡ ltb i stop)
  unfolding down
  down-Sunk h i n d =
      ((down_loop less (n + 1) h i n).stop, down_loop-Sunk (n + 1) h i n (omega arith) d, refl)

  settle-IsOrdered :
      (h : Heap) (i n : ℕ) → i < n → Defect less h i n → IsOrdered less (settle less h i n) n
  unfolding settle
  settle-IsOrdered h i n hi d =
      let (stop, sunk, moved) = down-Sunk h i n d in
      let g = (down less h i n).heap in
      elim (Bool-cases (ltb i stop)) [
        | inl further ↦ rw (moved ∙ further) (
            UpReady-IsOrdered g stop n sunk.ready
              (λ _. elim sunk.edge [ inl (same, _) ↦ absurd (ground arith) | inr fine ↦ fine ]))
        | inr still ↦ rw (moved ∙ still) (
            let stopped : stop ≡ i = omega (arith, sunk.le, ltb-false→le i stop still) in
            up-IsOrdered g i n hi (subst (λ k. UpReady less g k n) stopped sunk.ready))
      ]

  IsOrdered-Defect : (h : Heap) (i n : ℕ) → IsOrdered less h n → Defect less h i n
  IsOrdered-Defect h i n o = record {
    away = λ c pc hc _ _. o c pc hc;
    across = λ c pc hc e pos_i.
        ground (arith, o c pc hc, o i pos_i, w.trans (h.at (parent i)) (h.at i) (h.at c));
  }

  pub fix-IsOrdered :
      (h : Heap) (i : ℕ) → i < h.len → IsOrdered less h h.len → IsOrdered less (fix less h i) h.len
  unfolding fix
  fix-IsOrdered h i hi o = settle-IsOrdered h i h.len hi (IsOrdered-Defect h i h.len o)

  pub push-IsOrdered :
      (h : Heap) (x : ℕ) → IsOrdered less h h.len → IsOrdered less (push less h x) (h.len + 1)
  unfolding push append
  push-IsOrdered h x o = up-IsOrdered (append h x) h.len (h.len + 1) (omega arith) (record {
    defect = record {
      away = λ c pc hc ne _. ground (arith, o c pc);
      across = λ c pc hc e _. absurd (omega arith);
    };
    below = λ c pc hc e. absurd (omega arith);
  })

  -- What `Remove` and `Pop` hand to `down`: the last order stands at the place that is vacated.
  vacated-Defect :
      (h : Heap) (i n : ℕ) → i < n → IsOrdered less h (n + 1) → Defect less (swap h i n) i n
  unfolding swap
  vacated-Defect h i n hi o = record {
    away = λ c pc hc ne ne'. ground (arith, o c pc);
    across = λ c pc hc e pos_i.
        ground (arith, o c pc, o i pos_i, w.trans (h.at (parent i)) (h.at i) (h.at c));
  }

  -- The orders of a heap in heap order, but for the last place, are in heap order.
  pub remove-IsOrdered :
      (h : Heap) (i : ℕ)
      → i < h.len
      → IsOrdered less h h.len
      → IsOrdered less (remove less h i) (h.len - 1)
  unfolding remove drop_last
  remove-IsOrdered h i hi o =
      let n = h.len - 1 in
      let last : h.len ≡ n + 1 = omega arith in
      elim (Bool-cases (n == i)) [
        | inl e ↦ rw e (λ c pc hc. o c pc (omega arith))
        | inr ne ↦ rw ne (
            settle-IsOrdered (swap h i n) i n (ground arith)
              (vacated-Defect h i n (ground arith) (λ c pc hc. o c pc (omega arith))))
      ]

  down_root-IsOrdered :
      (h : Heap) (n : ℕ) → Defect less h 0 n → IsOrdered less (down less h 0 n).heap n
  down_root-IsOrdered h n d =
      let (stop, sunk, _) = down-Sunk h 0 n d in
      UpReady-IsOrdered (down less h 0 n).heap stop n sunk.ready
        (λ pos_stop. elim sunk.edge [ inl (same, _) ↦ absurd (omega arith) | inr fine ↦ fine ])

  pub pop-IsOrdered :
      (h : Heap) → 0 < h.len → IsOrdered less h h.len → IsOrdered less (pop less h) (h.len - 1)
  unfolding pop drop_last
  pop-IsOrdered h pos_len o = elim (eq-cases (h.len - 1) 0) [
    | inl one ↦ λ c pc hc. absurd (omega (arith, one))
    | inr more ↦
        down_root-IsOrdered (swap h 0 (h.len - 1)) (h.len - 1)
          (vacated-Defect h 0 (h.len - 1) (ground arith) (λ c pc hc. o c pc (omega arith)))
  ]

  -- The root precedes every order of the heap, or ties with it.
  root_min :
      (h : Heap) (n : ℕ)
      → IsOrdered less h n
      → (fuel c : ℕ) → c < fuel
      → c < n
      → less (h.at c) (h.at 0) ≡ false
  root_min h n o zero c hf hc = absurd (omega arith)
  root_min h n o (suc fuel) c hf hc = elim (eq-cases c 0) [
    | inl e ↦ rw e (ground (arith, w.asym (h.at 0) (h.at 0)))
    | inr ne ↦
        let pos_c : 0 < c = ground arith in
        w.trans (h.at 0) (h.at (parent c)) (h.at c)
          (root_min h n o fuel (parent c) (omega arith) (omega arith)) (o c pos_c hc)
  ]

  pub IsOrdered-root :
      (h : Heap) (c : ℕ) → IsOrdered less h h.len → c < h.len → less (h.at c) (h.at 0) ≡ false
  IsOrdered-root h c o hc = root_min h h.len o (c + 1) c (omega arith) hc
