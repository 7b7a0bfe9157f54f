-- ===== src/Telemetry/Score.antt =====
-- The score: `computeScore` of ingester.go of services/telemetry-ingester.
--
-- A float64 is of a type `F` whose operations are the interface `Float64`; its laws are those that
-- rounding keeps, for numbers that are not NaN.
pub mod Bounds
use obarena.Prelude.{◌≡◌, Bool, true, false, ◌⊎◌, ℤ, String, if◌then◌else◌}

pub record Float64 (F : Type 0) : Type 0 where
  pub of_int : ℤ → F
  pub add : F → F → F
  pub sub : F → F → F
  pub mul : F → F → F
  pub div : F → F → F
  pub leb : F → F → Bool
  pub zero : F
  pub one : F
  pub w20 : F
  pub w30 : F
  pub w35 : F
  pub w50 : F
  pub thousand : F

-- What rounding keeps: the order is total, `add` and `mul` with a weight are monotone, and the
-- weights of the score add up to 1 at most.
pub record IsFloat64 {F : Type 0} (f : Float64 F) : Type 0 where
  pub refl_le : (x : F) → f.leb x x ≡ true
  pub trans_le : (x y z : F) → f.leb x y ≡ true → f.leb y z ≡ true → f.leb x z ≡ true
  pub total_le : (x y : F) → (f.leb x y ≡ true) ⊎ (f.leb y x ≡ true)
  pub zero_le_one : f.leb f.zero f.one ≡ true
  pub add_le :
      (x y z w : F) → f.leb x y ≡ true → f.leb z w ≡ true → f.leb (f.add x z) (f.add y w) ≡ true
  pub mul_w35_le : (x y : F) → f.leb x y ≡ true → f.leb (f.mul x f.w35) (f.mul y f.w35) ≡ true
  pub mul_w30_le : (x y : F) → f.leb x y ≡ true → f.leb (f.mul x f.w30) (f.mul y f.w30) ≡ true
  pub least :
      f.leb f.zero (f.add (f.add (f.mul f.zero f.w35) (f.mul f.zero f.w35)) (f.mul f.zero f.w30))
      ≡ true
  pub most :
      f.leb (f.add (f.add (f.mul f.one f.w35) (f.mul f.one f.w35)) (f.mul f.one f.w30)) f.one ≡ true

-- `metricsv1.BotMetrics`, the fields that the ingester reads.
pub record BotMetrics (F : Type 0) : Type 0 where
  pub submission_id : String
  pub test_run_id : String
  pub team_name : String
  pub ack_p50_us : ℤ
  pub ack_p90_us : ℤ
  pub ack_p99_us : ℤ
  pub tps : F
  pub orders_sent : ℤ
  pub rejects_recv : ℤ
  pub correctness_score : F
  pub duration_ms : ℤ
  pub emitted_at : ℤ

pub record Limits (F : Type 0) : Type 0 where
  pub max_acceptable_latency_us : F
  pub max_acceptable_tps : F

module _ {F : Type 0} (f : Float64 F) where
  abbrev pub min : F → F → F
  min x y = if f.leb x y then x else y

  abbrev pub max : F → F → F
  max x y = if f.leb x y then y else x

  -- `math.Max(0, math.Min(1, x))`
  unfoldable pub clamp : F → F
  clamp x = max f.zero (min f.one x)

  unfoldable pub weighted_latency_us : BotMetrics F → F
  weighted_latency_us e =
      f.add (f.add (f.mul (f.of_int e.ack_p50_us) f.w20) (f.mul (f.of_int e.ack_p90_us) f.w30))
        (f.mul (f.of_int e.ack_p99_us) f.w50)

  unfoldable pub latency_score : Limits F → BotMetrics F → F
  unfolding clamp weighted_latency_us
  latency_score l e =
      clamp (f.sub f.one (f.div (weighted_latency_us e) l.max_acceptable_latency_us))

  unfoldable pub throughput_score : Limits F → BotMetrics F → F
  unfolding clamp
  throughput_score l e = clamp (f.div e.tps l.max_acceptable_tps)

  unfoldable pub compute_score : Limits F → BotMetrics F → F
  unfolding clamp latency_score throughput_score
  compute_score l e =
      f.add (f.add (f.mul (latency_score l e) f.w35) (f.mul (throughput_score l e) f.w35))
        (f.mul (clamp e.correctness_score) f.w30)
