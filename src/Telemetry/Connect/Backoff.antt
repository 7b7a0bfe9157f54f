-- ===== src/Telemetry/Connect/Backoff.antt =====
-- The retries of the ingester of services/telemetry-ingester when it starts.
use obarena.Prelude.{
  ℕ, suc, ap, ◌∙◌, if-intro, ◌≤◌, ◌≡◌, refl, arith, Bool, true, false, ◌||◌, ◌==◌, List, [], ◌∷◌,
  ◌++◌, length, All,
}
use obarena.Telemetry.Connect.{
  closed_pool, waited, answered, Connection, Ping, next_backoff, ping_redis, connect_redis,
  ping_postgres, connect_postgres, started, with_postgres, new_ingester, with_redis,
}

-- The waits double from 1 to 32 seconds and stay there.
abbrev is_backoff : ℕ → Bool
is_backoff b = b == 1 || b == 2 || b == 4 || b == 8 || b == 16 || b == 32

next_backoff-is_backoff : (b : ℕ) → is_backoff b ≡ true → is_backoff (next_backoff b) ≡ true
unfolding next_backoff
next_backoff-is_backoff b h = ground (arith, h)

is_backoff→le : (b : ℕ) → is_backoff b ≡ true → b ≤ 32
is_backoff→le b h = ground (arith, h)

-- An attempt that is not answered, with the context alive.
abbrev pub IsUnanswered : Ping → Type 0
IsUnanswered p = (p.is_answered ≡ false) × (p.has_ended ≡ false) × (p.ends_in_wait ≡ false)

abbrev pub IsShort : ℕ → Type 0
IsShort wait = wait ≤ 32

-- The connection is there after `n` waits of 32 seconds at most.
pub record IsConnected (n : ℕ) (c : Connection) : Type 0 where
  pub progress : c.progress ≡ answered
  pub waits : length c.waits ≡ n
  pub short : All IsShort c.waits

waited-IsConnected :
    (n b : ℕ) (c : Connection)
    → is_backoff b ≡ true
    → IsConnected n c
    → IsConnected (suc n) (waited b c)
waited-IsConnected n b c ok v = record {
  progress = v.progress;
  waits = ap suc v.waits;
  short = (is_backoff→le b ok, v.short);
}

closed_pool-IsConnected :
    (n : ℕ) (made : Bool) (c : Connection) → IsConnected n c → IsConnected n (closed_pool made c)
closed_pool-IsConnected n true c v = record {
  progress = v.progress;
  waits = v.waits;
  short = v.short;
}
closed_pool-IsConnected n false c v = v

ping_redis-IsConnected :
    (b : ℕ) (before : List Ping) (p : Ping) (later : List Ping)
    → is_backoff b ≡ true
    → All IsUnanswered before
    → p.is_answered ≡ true
    → IsConnected (length before) (ping_redis b (before ++ p ∷ later))
unfolding ping_redis
ping_redis-IsConnected b [] p later ok all answer =
    rw answer (record { progress = refl; waits = refl; short = tt })
ping_redis-IsConnected b (q ∷ before) p later ok ((unanswered, alive, waits), all) answer =
    rw (unanswered, alive, waits)
      (waited-IsConnected (length before) b (ping_redis (next_backoff b) (before ++ p ∷ later)) ok (
        ping_redis-IsConnected (next_backoff b) before p later (next_backoff-is_backoff b ok) all
          answer))

ping_postgres-IsConnected :
    (b : ℕ) (before : List Ping) (p : Ping) (later : List Ping)
    → is_backoff b ≡ true
    → All IsUnanswered before
    → p.is_created ≡ true
    → p.is_answered ≡ true
    → IsConnected (length before) (ping_postgres b (before ++ p ∷ later))
unfolding ping_postgres
ping_postgres-IsConnected b [] p later ok all made answer =
    rw (made, answer) (record { progress = refl; waits = refl; short = tt })
ping_postgres-IsConnected b (q ∷ before) p later ok ((unanswered, alive, waits), all) made answer =
    let again =
      closed_pool-IsConnected (suc (length before)) q.is_created
        (waited b (ping_postgres (next_backoff b) (before ++ p ∷ later)))
        (waited-IsConnected (length before) b (ping_postgres (next_backoff b) (before ++ p ∷ later))
          ok
          (ping_postgres-IsConnected (next_backoff b) before p later (next_backoff-is_backoff b ok)
            all made answer)) in
    rw (unanswered, alive, waits)
      (if-intro (IsConnected (suc (length before))) q.is_created _ _ (λ _. again) (λ _. again))

with_postgres_starts :
    (rdb db : Connection)
    → db.progress ≡ answered
    → with_postgres true rdb db ≡ record { start = started; redis = rdb; postgres = db }
unfolding with_postgres
with_postgres_starts rdb db is = rw is refl

with_redis_starts :
    (rdb : Connection) (ps : List Ping)
    → rdb.progress ≡ answered
    → with_redis true rdb ps ≡ with_postgres true rdb (connect_postgres ps)
unfolding with_redis
with_redis_starts rdb ps is = rw is refl

-- If Redis and then PostgreSQL answer an attempt while the context is alive, and MAX_LATENCY_US is
-- above 0, then the ingester starts, after one wait for each attempt that was not answered, and no
-- wait is longer than 32 seconds.
pub new_ingester_starts :
    (rs : List Ping) (r : Ping) (rs_later : List Ping) (ps : List Ping) (p : Ping)
    (ps_later : List Ping)
    → All IsUnanswered rs
    → r.is_answered ≡ true
    → All IsUnanswered ps
    → p.is_created ≡ true
    → p.is_answered ≡ true
    → let s = new_ingester true (rs ++ r ∷ rs_later) (ps ++ p ∷ ps_later) in
      (s.start ≡ started) × IsConnected (length rs) s.redis × IsConnected (length ps) s.postgres
unfolding new_ingester connect_redis connect_postgres
new_ingester_starts rs r rs_later ps p ps_later unanswered answer unready made there =
    let rdb = ping_redis-IsConnected 1 rs r rs_later refl unanswered answer in
    let db = ping_postgres-IsConnected 1 ps p ps_later refl unready made there in
    rw
      (with_redis_starts (ping_redis 1 (rs ++ r ∷ rs_later)) (ps ++ p ∷ ps_later) rdb.progress
        ∙ with_postgres_starts (ping_redis 1 (rs ++ r ∷ rs_later))
            (ping_postgres 1 (ps ++ p ∷ ps_later)) db.progress)
      (refl, rdb, db)
