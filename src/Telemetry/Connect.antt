-- ===== src/Telemetry/Connect.antt =====
-- How the ingester of services/telemetry-ingester starts: `NewIngester`, `connectRedis` and
-- `connectPostgres` of ingester.go. What each attempt meets is an argument; a list of attempts that
-- is used up leaves the loop in its retries.
pub mod Open
pub mod Backoff
mod Tests
use obarena.Prelude.{ℕ, ◌+◌, ◌*◌, Bool, true, false, if◌then◌else◌, ltb, List, [], ◌∷◌}

pub data Progress : Type 0 where
  answered : Progress
  context_ended : Progress
  retrying : Progress

-- `waits` are the waits between attempts, in seconds; `opened` and `closed` count clients or pools.
pub record Connection : Type 0 where
  pub progress : Progress
  pub waits : List ℕ
  pub opened : ℕ
  pub closed : ℕ

-- An attempt: whether the pool is made, which is so for Redis at once; whether it answers the ping;
-- and whether the context has ended after it, and in the wait that follows.
pub record Ping : Type 0 where
  pub is_created : Bool
  pub is_answered : Bool
  pub has_ended : Bool
  pub ends_in_wait : Bool

unfoldable pub next_backoff : ℕ → ℕ
next_backoff backoff = if ltb backoff 30 then backoff * 2 else backoff

abbrev pub waited : ℕ → Connection → Connection
waited backoff c = record c { waits = backoff ∷ c.waits }

abbrev pub at : Progress → ℕ → ℕ → Connection
at progress opened closed = record {
  progress = progress;
  waits = [];
  opened = opened;
  closed = closed;
}

-- The loop of `connectRedis`, whose client is made before it.
unfoldable pub ping_redis : ℕ → List Ping → Connection
unfolding next_backoff
ping_redis backoff [] = at retrying 1 0
ping_redis backoff (p ∷ ps) =
    let rest = ping_redis (next_backoff backoff) ps in
    if p.is_answered
    then at answered 1 0
    else if p.has_ended
    then at context_ended 1 1
    else if p.ends_in_wait
    then at context_ended 1 1
    else waited backoff rest

unfoldable pub connect_redis : List Ping → Connection
unfolding ping_redis
connect_redis ps = ping_redis 1 ps

-- A pool that is made and does not answer is closed.
abbrev pub closed_pool : Bool → Connection → Connection
closed_pool is_created c =
    if is_created then record c { opened = c.opened + 1; closed = c.closed + 1 } else c

unfoldable pub ping_postgres : ℕ → List Ping → Connection
unfolding next_backoff
ping_postgres backoff [] = at retrying 0 0
ping_postgres backoff (p ∷ ps) =
    let rest = ping_postgres (next_backoff backoff) ps in
    let failed = closed_pool p.is_created (
      if p.has_ended
      then at context_ended 0 0
      else if p.ends_in_wait
      then at context_ended 0 0
      else waited backoff rest) in
    if p.is_created then (if p.is_answered then at answered 1 0 else failed) else failed

unfoldable pub connect_postgres : List Ping → Connection
unfolding ping_postgres
connect_postgres ps = ping_postgres 1 ps

pub data Start : Type 0 where
  started : Start
  refused : Start
  connecting : Start

-- What `NewIngester` returns, if it has returned, and the connections that it has made.
pub record Startup : Type 0 where
  pub start : Start
  pub redis : Connection
  pub postgres : Connection

-- `rdb.Close()`
abbrev pub close_redis : Connection → Connection
close_redis c = record c { closed = c.closed + 1 }

abbrev pub no_connection : Connection
no_connection = at retrying 0 0

-- `within` is whether MAX_LATENCY_US is more than 0.
unfoldable pub with_postgres : Bool → Connection → Connection → Startup
with_postgres within rdb db = elim db.progress [
  | answered ↦ record { start = if within then started else refused; redis = rdb; postgres = db }
  | context_ended ↦ record { start = refused; redis = close_redis rdb; postgres = db }
  | retrying ↦ record { start = connecting; redis = rdb; postgres = db }
]

unfoldable pub with_redis : Bool → Connection → List Ping → Startup
unfolding connect_postgres with_postgres
with_redis within rdb postgres_pings = elim rdb.progress [
  | answered ↦ with_postgres within rdb (connect_postgres postgres_pings)
  | context_ended ↦ record { start = refused; redis = rdb; postgres = no_connection }
  | retrying ↦ record { start = connecting; redis = rdb; postgres = no_connection }
]

unfoldable pub new_ingester : Bool → List Ping → List Ping → Startup
unfolding connect_redis with_redis
new_ingester within redis_pings postgres_pings =
    with_redis within (connect_redis redis_pings) postgres_pings
