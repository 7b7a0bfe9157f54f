-- ===== src/Telemetry/Score/Bounds.antt =====
-- The range of the score of services/telemetry-ingester.
use obarena.Prelude.{◌≡◌, arith, true}
use obarena.Telemetry.Score.{Float64, IsFloat64, clamp}

module _ {F : Type 0} (f : Float64 F) (laws : IsFloat64 f) where
  pub clamp-bounds : (x : F) → (f.leb f.zero (clamp f x) ≡ true) × (f.leb (clamp f x) f.one ≡ true)
  unfolding clamp
  clamp-bounds x = ground (
    arith,
    laws.zero_le_one,
    laws.refl_le f.zero,
    laws.refl_le f.one,
    laws.total_le f.one x,
    laws.total_le f.zero x,
    laws.total_le f.zero f.one,
  )

  -- Between 0 and 1.
  abbrev IsUnit : F → Type 0
  IsUnit x = (f.leb f.zero x ≡ true) × (f.leb x f.one ≡ true)
