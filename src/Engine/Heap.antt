-- ===== src/Engine/Heap.antt =====
-- A heap of orders: `bidHeap` and `askHeap` of services/stub/main.go, whose methods differ in
-- `Less` alone, under the functions of Go's container/heap.
--
-- An order is an address. The slice is `at` below `len`, and the field `index` of the orders is a
-- component of the memory of its own, since `Swap`, `Push` and `Pop` write to it and to no other.
pub mod Index
pub mod Members
pub mod Order
use obarena.Prelude.{
  ℕ, zero, suc, ◌+◌, ◌-◌, ◌*◌, ◌/◌, ℤ, pos, negsuc, Bool, ◌&&◌, ltb, ◌==◌, if◌then◌else◌, update,
}

pub record Heap : Type 0 where
  pub at : ℕ → ℕ
  pub len : ℕ
  pub index : ℕ → ℤ

-- `h[i], h[j] = h[j], h[i]`, then the two writes of `index`
unfoldable pub swap : Heap → ℕ → ℕ → Heap
swap h i j = record h {
  at = update (update h.at i (h.at j)) j (h.at i);
  index = update (update h.index (h.at j) (pos i)) (h.at i) (pos j);
}

unfoldable pub append : Heap → ℕ → Heap
append h x = record {
  at = update h.at h.len x;
  len = h.len + 1;
  index = update h.index x (pos h.len);
}

-- The slot past the new end is not written to: nothing reads it.
unfoldable pub drop_last : Heap → Heap
drop_last h = record h { len = h.len - 1; index = update h.index (h.at (h.len - 1)) (negsuc 0) }

abbrev pub parent : ℕ → ℕ
parent j = (j - 1) / 2

module _ (less : ℕ → ℕ → Bool) where
  -- `up` of container/heap, on fuel
  unfoldable pub up_loop : ℕ → Heap → ℕ → Heap
  up_loop zero h j = h
  up_loop (suc fuel) h j =
      let rest = up_loop fuel (swap h (parent j) j) (parent j) in
      if parent j == j then h else if less (h.at j) (h.at (parent j)) then rest else h

  unfoldable pub up : Heap → ℕ → Heap
  unfolding up_loop
  up h j = up_loop (j + 1) h j

  -- the child that `down` compares with
  unfoldable pub child : Heap → ℕ → ℕ → ℕ
  child h i n =
      if ltb (2 * i + 2) n && less (h.at (2 * i + 2)) (h.at (2 * i + 1))
      then 2 * i + 2
      else 2 * i + 1

  -- `down` of container/heap, with the place where it stopped
  unfoldable pub down_loop : ℕ → Heap → ℕ → ℕ → record { heap : Heap; stop : ℕ }
  down_loop zero h i n = record { heap = h; stop = i }
  down_loop (suc fuel) h i n =
      let rest = down_loop fuel (swap h i (child h i n)) (child h i n) n in
      if ltb (2 * i + 1) n
      then (if less (h.at (child h i n)) (h.at i) then rest else record { heap = h; stop = i })
      else record { heap = h; stop = i }

  unfoldable pub down : Heap → ℕ → ℕ → record { heap : Heap; moved : Bool }
  unfolding down_loop child
  down h i n = let d = down_loop (n + 1) h i n in record { heap = d.heap; moved = ltb i d.stop }

  -- `if !down(h, i, n) { up(h, i) }`
  unfoldable pub settle : Heap → ℕ → ℕ → Heap
  unfolding down up
  settle h i n = let d = down h i n in if d.moved then d.heap else up d.heap i

  unfoldable pub push : Heap → ℕ → Heap
  unfolding append up
  push h x = up (append h x) h.len

  unfoldable pub pop : Heap → Heap
  unfolding swap down drop_last
  pop h = drop_last (down (swap h 0 (h.len - 1)) 0 (h.len - 1)).heap

  unfoldable pub fix : Heap → ℕ → Heap
  unfolding settle
  fix h i = settle h i h.len

  unfoldable pub remove : Heap → ℕ → Heap
  unfolding swap settle drop_last
  remove h i = let n = h.len - 1 in drop_last (if n == i then h else settle (swap h i n) i n)
