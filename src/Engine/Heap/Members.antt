-- ===== src/Engine/Heap/Members.antt =====
-- Which orders a heap holds after `Push`, `Pop` and `Remove`.
use obarena.Prelude.{
  ℕ, zero, suc, ◌+◌, ◌-◌, ◌<◌, ◌≤◌, ◌≡◌, ◌≢◌, ◌⊎◌, refl, ap, inl, inr, arith, ◌==◌, Bool,
  Bool-cases, eq-cases, ◌∙◌, negsuc,
}
use mathlib.Core.Path.{subst}
use obarena.Engine.Heap.{
  Heap, swap, append, drop_last, up_loop, up, child, down_loop, down, settle, push, pop, fix,
  remove, parent,
}
use obarena.Engine.Heap.Index.{
  IsIndexed, Holds, Rearranges, Rearranges-trans, swap-Rearranges, at-injective, up-Rearranges,
  down-Rearranges, settle-Rearranges, child-lt,
}

-- After `Push` the heap holds one order more.
pub record Pushes (h : Heap) (x : ℕ) (g : Heap) : Type 0 where
  pub one_more : g.len ≡ h.len + 1
  pub indexed : IsIndexed g
  pub new : Holds g x
  pub keeps : (r : ℕ) → Holds h r → Holds g r
  pub adds_one : (r : ℕ) → Holds g r → Holds h r ⊎ (r ≡ x)
  pub frame : (r : ℕ) → ¬ Holds h r → r ≢ x → g.index r ≡ h.index r

-- After `Remove` and `Pop` the heap holds all orders but one, whose `index` is -1.
pub record Drops (h : Heap) (x : ℕ) (g : Heap) : Type 0 where
  pub one_less : g.len + 1 ≡ h.len
  pub indexed : IsIndexed g
  pub gone : ¬ Holds g x
  pub gone_index : g.index x ≡ negsuc 0
  pub keeps : (r : ℕ) → Holds h r → r ≢ x → Holds g r
  pub adds_none : (r : ℕ) → Holds g r → Holds h r
  pub frame : (r : ℕ) → ¬ Holds h r → r ≢ x → g.index r ≡ h.index r

drop_last-Drops : (h : Heap) → IsIndexed h → 0 < h.len → Drops h (h.at (h.len - 1)) (drop_last h)
unfolding drop_last
drop_last-Drops h ix pos_len =
    let n = h.len - 1 in
    let inj : (i : ℕ) → i < h.len → h.at i ≡ h.at n → i ≡ n =
      λ i hi e. at-injective h i n ix hi (omega arith) e in
    record {
      one_less = omega arith;
      indexed = λ i hi. ground (arith, ix i (omega arith), inj i (omega arith));
      gone = λ (i, hi, e). omega (arith, inj i (omega arith) e);
      gone_index = ground arith;
      keeps = λ r (i, hi, e) ne. (i, ground arith, e);
      adds_none = λ r (i, hi, e). (i, omega arith, e);
      frame = λ r out ne. ground arith;
    }

drop_last-Drops_at :
    (h : Heap) (n x : ℕ) → IsIndexed h → h.len ≡ n + 1 → h.at n ≡ x → Drops h x (drop_last h)
drop_last-Drops_at h n x ix e there =
    let last : h.at (h.len - 1) ≡ x = ap h.at (omega arith) ∙ there in
    subst (λ y. Drops h y (drop_last h)) last (drop_last-Drops h ix (omega arith))

Rearranges-Drops : {h g k : Heap} {x : ℕ} → Rearranges h g → Drops g x k → Drops h x k
Rearranges-Drops p d = record {
  one_less = d.one_less ∙ p.same_len;
  indexed = d.indexed;
  gone = d.gone;
  gone_index = d.gone_index;
  keeps = λ r held ne. d.keeps r (p.keeps r held) ne;
  adds_none = λ r held. p.adds_none r (d.adds_none r held);
  frame = λ r out ne. d.frame r (λ held. out (p.adds_none r held)) ne ∙ p.frame r out;
}

module _ (less : ℕ → ℕ → Bool) where
  -- What stands at `n` and beyond is not moved.
  up_loop_beyond :
      (fuel : ℕ) (h : Heap) (j n k : ℕ) → j < n → n ≤ k → (up_loop less fuel h j).at k ≡ h.at k
  unfolding up_loop swap
  up_loop_beyond zero h j n k hj hk = refl
  up_loop_beyond (suc fuel) h j n k hj hk =
      ground (arith, up_loop_beyond fuel (swap h (parent j) j) (parent j) n k)

  down_loop_beyond :
      (fuel : ℕ) (h : Heap) (i n k : ℕ)
      → i < n
      → n ≤ k
      → (down_loop less fuel h i n).heap.at k ≡ h.at k
  unfolding down_loop swap
  down_loop_beyond zero h i n k hi hk = refl
  down_loop_beyond (suc fuel) h i n k hi hk = ground (
    arith,
    down_loop_beyond fuel (swap h i (child less h i n)) (child less h i n) n k,
    child-lt less h i n,
  )

  settle_beyond : (h : Heap) (i n k : ℕ) → i < n → n ≤ k → (settle less h i n).at k ≡ h.at k
  unfolding settle down up
  settle_beyond h i n k hi hk = ground (
    arith,
    down_loop_beyond (n + 1) h i n k,
    up_loop_beyond (i + 1) (down_loop less (n + 1) h i n).heap i n k,
  )

  pub push-Pushes : (h : Heap) (x : ℕ) → IsIndexed h → ¬ Holds h x → Pushes h x (push less h x)
  unfolding push append
  push-Pushes h x ix fresh =
      let ne : (i : ℕ) → i < h.len → h.at i ≢ x = λ i hi e. fresh (i, hi, e) in
      let ix' : IsIndexed (append h x) = λ i hi. ground (arith, ix i, ne i) in
      let r = up-Rearranges less (append h x) h.len ix' (omega arith) in
      record {
        one_more = r.same_len;
        indexed = r.indexed;
        new = r.keeps x (h.len, omega arith, ground arith);
        keeps = λ q (i, hi, e). r.keeps q (i, omega arith, ground arith);
        adds_one = λ q held.
            let (i, hi, e) = r.adds_none q held in
            elim (eq-cases i h.len) [
              | inl last ↦ inr (ground arith)
              | inr before ↦ inl (i, ground arith, ground arith)
            ];
        frame = λ q out other.
            r.frame q (λ held.
              let (i, hi, e) = held in
              elim (eq-cases i h.len) [
                | inl last ↦ other (ground arith)
                | inr before ↦ out (i, ground arith, ground arith)
              ])
            ∙ ground arith;
      }

  pub remove-Drops :
      (h : Heap) (i : ℕ) → IsIndexed h → i < h.len → Drops h (h.at i) (remove less h i)
  unfolding remove
  remove-Drops h i ix hi =
      let n = h.len - 1 in
      elim (Bool-cases (n == i)) [
        | inl last ↦ rw last (
            subst (λ k. Drops h (h.at k) (drop_last h)) (ground arith)
              (drop_last-Drops h ix (omega arith)))
        | inr ne ↦ rw ne (
            let s = swap-Rearranges h i n ix hi (omega arith) in
            let r = Rearranges-trans s (
              settle-Rearranges less (swap h i n) i n s.indexed (omega (arith, s.same_len))
                (omega (arith, s.same_len))) in
            let there : (settle less (swap h i n) i n).at n ≡ h.at i =
              settle_beyond (swap h i n) i n n (ground arith) (omega arith)
              ∙ unfold swap in ground arith in
            Rearranges-Drops r (
              drop_last-Drops_at (settle less (swap h i n) i n) n (h.at i) r.indexed
                (omega (arith, r.same_len)) there))
      ]

  -- `Pop` leaves the root at the place that it cuts off.
  pop_last : (h : Heap) (n : ℕ) → h.len ≡ n + 1 → (down less (swap h 0 n) 0 n).heap.at n ≡ h.at 0
  unfolding down swap
  pop_last h n e = elim (eq-cases n 0) [
    | inl one ↦ rw one refl
    | inr more ↦
        down_loop_beyond (n + 1) (swap h 0 n) 0 n n (ground arith) (omega arith) ∙ ground arith
  ]

  pub pop-Drops : (h : Heap) → IsIndexed h → 0 < h.len → Drops h (h.at 0) (pop less h)
  unfolding pop
  pop-Drops h ix pos_len =
      let n = h.len - 1 in
      let s = swap-Rearranges h 0 n ix pos_len (omega arith) in
      let r = Rearranges-trans s (
        down-Rearranges less (swap h 0 n) 0 n s.indexed (omega (arith, s.same_len))
          (omega (arith, s.same_len))) in
      Rearranges-Drops r (
        drop_last-Drops_at (down less (swap h 0 n) 0 n).heap n (h.at 0) r.indexed
          (omega (arith, r.same_len)) (pop_last h n (omega arith)))

  pub fix-Rearranges : (h : Heap) (i : ℕ) → IsIndexed h → i < h.len → Rearranges h (fix less h i)
  unfolding fix
  fix-Rearranges h i ix hi = settle-Rearranges less h i h.len ix hi (omega arith)
