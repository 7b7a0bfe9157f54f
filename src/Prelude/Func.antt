-- ===== src/Prelude/Func.antt =====
-- Memory and arrays as functions, changed at one place.
use Prim.Native.Nat.{ℕ}
use obarena.Prelude.Tests.{◌==◌, if◌then◌else◌}

abbrev pub update {ℓ} : {A : Type ℓ} → (ℕ → A) → ℕ → A → ℕ → A
update f i v k = if k == i then v else f k
