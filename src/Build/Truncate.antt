-- ===== src/Build/Truncate.antt =====
-- The reason that a failed build is published with: `truncate` of publisher.go of
-- services/build-service.
use obarena.Prelude.{
  take, ℕ, zero, suc, ◌+◌, ◌≤◌, ◌≡◌, ◌⊎◌, refl, arith, true, not, ◌&&◌, ltb, leb, if◌then◌else◌,
  List, [], ◌∷◌, length,
}
use obarena.Build.Logs.{drop_last, is_valid_utf8}

-- A round of the loop takes a byte, so the length is rounds enough.
unfoldable pub trim_invalid : ℕ → List ℕ → List ℕ
unfolding is_valid_utf8 drop_last
trim_invalid zero bs = bs
trim_invalid (suc fuel) bs =
    let rest = trim_invalid fuel (drop_last bs) in
    if ltb 0 (length bs) && not (is_valid_utf8 bs) then rest else bs

unfoldable pub truncate : List ℕ → ℕ → List ℕ
unfolding take trim_invalid
truncate s max = if leb (length s) max then s else trim_invalid max (take max s)

length-take_le : (n : ℕ) (xs : List ℕ) → length (take n xs) ≤ n
unfolding take
length-take_le zero xs = omega arith
length-take_le (suc n) [] = omega arith
length-take_le (suc n) (x ∷ xs) = omega (arith, length-take_le n xs)

length-drop_last_lt : (b : ℕ) (bs : List ℕ) → length (drop_last (b ∷ bs)) + 1 ≡ length (b ∷ bs)
unfolding drop_last
length-drop_last_lt b [] = omega arith
length-drop_last_lt b (c ∷ bs) = omega (arith, length-drop_last_lt c bs)

trim_invalid-valid :
    (fuel : ℕ) (bs : List ℕ)
    → length bs ≤ fuel
    → (is_valid_utf8 (trim_invalid fuel bs) ≡ true) × (length (trim_invalid fuel bs) ≤ length bs)
unfolding trim_invalid
trim_invalid-valid zero [] room = unfold is_valid_utf8 in (refl, omega arith)
trim_invalid-valid zero (b ∷ bs) room = absurd (omega (arith, room))
trim_invalid-valid (suc fuel) [] room = unfold is_valid_utf8 in (refl, omega arith)
trim_invalid-valid (suc fuel) (b ∷ bs) room =
    let shorter = length-drop_last_lt b bs in
    ground
      (arith, shorter, trim_invalid-valid fuel (drop_last (b ∷ bs)) (omega (arith, room, shorter)))

-- The reason has at most `max` bytes, and is valid UTF-8 unless it is the text itself.
truncate-bounds :
    (s : List ℕ) (max : ℕ)
    → (length (truncate s max) ≤ max)
      × ((truncate s max ≡ s) ⊎ (is_valid_utf8 (truncate s max) ≡ true))
unfolding truncate
truncate-bounds s max =
    let short = length-take_le max s in
    ground (arith, short, trim_invalid-valid max (take max s) short)
