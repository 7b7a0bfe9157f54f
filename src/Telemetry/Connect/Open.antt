-- ===== src/Telemetry/Connect/Open.antt =====
-- Which connections are held when the ingester of services/telemetry-ingester has started or not.
use obarena.Prelude.{ℕ, ◌+◌, ◌-◌, ◌≡◌, refl, arith, Bool, true, false, ◌⊎◌, inl, inr, List, [], ◌∷◌}
use obarena.Telemetry.Connect.{
  Progress, answered, context_ended, retrying, Connection, Ping, next_backoff, ping_redis,
  connect_redis, ping_postgres, connect_postgres, started, refused, connecting, Startup,
  with_postgres, with_redis, new_ingester,
}

-- The connections that are made and not closed.
abbrev pub held : Connection → ℕ
held c = c.opened - c.closed

abbrev redis_held : Progress → ℕ
redis_held answered = 1
redis_held context_ended = 0
redis_held retrying = 1

abbrev postgres_held : Progress → ℕ
postgres_held answered = 1
postgres_held context_ended = 0
postgres_held retrying = 0

ping_redis-held :
    (backoff : ℕ) (ps : List Ping)
    → (ping_redis backoff ps).opened
      ≡ (ping_redis backoff ps).closed + redis_held (ping_redis backoff ps).progress
unfolding ping_redis
ping_redis-held backoff [] = refl
ping_redis-held backoff (p ∷ ps) = ground (arith, ping_redis-held (next_backoff backoff) ps)

ping_postgres-held :
    (backoff : ℕ) (ps : List Ping)
    → (ping_postgres backoff ps).opened
      ≡ (ping_postgres backoff ps).closed + postgres_held (ping_postgres backoff ps).progress
unfolding ping_postgres
ping_postgres-held backoff [] = refl
ping_postgres-held backoff (p ∷ ps) = ground (arith, ping_postgres-held (next_backoff backoff) ps)

-- The four ways in which `NewIngester` stands, with what is held in each.
abbrev pub IsAccounted : Bool → Startup → Type 0
IsAccounted within s =
    ((s.start ≡ started) × (within ≡ true) × (held s.redis ≡ 1) × (held s.postgres ≡ 1))
    ⊎ ((s.start ≡ refused) × (held s.redis ≡ 0) × (held s.postgres ≡ 0))
    ⊎ ((s.start ≡ refused) × (within ≡ false) × (held s.redis ≡ 1) × (held s.postgres ≡ 1))
    ⊎ ((s.start ≡ connecting) × (held s.redis ≡ 1) × (held s.postgres ≡ 0))

with_postgres-IsAccounted :
    (within : Bool) (rdb db : Connection) (g : Progress)
    → db.progress ≡ g
    → rdb.opened ≡ rdb.closed + 1
    → db.opened ≡ db.closed + postgres_held g
    → IsAccounted within (with_postgres within rdb db)
unfolding with_postgres
with_postgres-IsAccounted true rdb db answered is one holds =
    rw is (inl (refl, refl, omega arith, omega arith))
with_postgres-IsAccounted false rdb db answered is one holds =
    rw is (inr (inr (inl (refl, refl, omega arith, omega arith))))
with_postgres-IsAccounted within rdb db context_ended is one holds =
    rw is (inr (inl (refl, omega arith, omega arith)))
with_postgres-IsAccounted within rdb db retrying is one holds =
    rw is (inr (inr (inr (refl, omega arith, omega arith))))

with_redis-IsAccounted :
    (within : Bool) (rdb : Connection) (ps : List Ping) (g : Progress)
    → rdb.progress ≡ g
    → rdb.opened ≡ rdb.closed + redis_held g
    → IsAccounted within (with_redis within rdb ps)
unfolding with_redis connect_postgres
with_redis-IsAccounted within rdb ps answered is holds = rw is (
    with_postgres-IsAccounted within (record rdb { progress = answered }) (ping_postgres 1 ps)
      (ping_postgres 1 ps).progress refl holds (ping_postgres-held 1 ps))
with_redis-IsAccounted within rdb ps context_ended is holds =
    rw is (inr (inl (refl, omega arith, refl)))
with_redis-IsAccounted within rdb ps retrying is holds =
    rw is (inr (inr (inr (refl, omega arith, refl))))

-- However the attempts go: an ingester that starts holds its client and its pool; one that is
-- refused holds neither, unless MAX_LATENCY_US is not above 0, where it may hold both; and while it
-- connects it holds the client alone, between two attempts.
pub new_ingester-IsAccounted :
    (within : Bool) (rs ps : List Ping) → IsAccounted within (new_ingester within rs ps)
unfolding new_ingester connect_redis
new_ingester-IsAccounted within rs ps =
    with_redis-IsAccounted within (ping_redis 1 rs) ps (ping_redis 1 rs).progress refl
      (ping_redis-held 1 rs)
