-- ===== src/Engine/Clock.antt =====
-- `now` of services/stub/main.go.
use obarena.Prelude.{ℕ, ◌+◌, ◌<◌, leb, if◌then◌else◌, arith, ◌≡◌, refl}

-- `lastTimestamp`, and the readings of `time.Now().UnixNano()` to come.
pub record Clock : Type 0 where
  pub last : ℕ
  pub wall : ℕ → ℕ
  pub ticks : ℕ

-- Of one goroutine: the `CompareAndSwap` succeeds at once.
unfoldable pub now : Clock → ℕ × Clock
now c =
    let ts = if leb (c.wall c.ticks) c.last then c.last + 1 else c.wall c.ticks in
    (ts, record c { last = ts; ticks = c.ticks + 1 })

pub now-lt : (c : Clock) → c.last < (now c).0
unfolding now
now-lt c = ground arith

pub now-last : (c : Clock) → (now c).1.last ≡ (now c).0
unfolding now
now-last c = refl
