-- ===== src/Telemetry/Connect/Tests.antt =====
-- The start of the ingester of services/telemetry-ingester at concrete input.
use obarena.Prelude.{◌≡◌, refl, true, false, List, [], ◌∷◌}
use obarena.Telemetry.Connect.{
  Ping, started, new_ingester, connect_redis, connect_postgres, ping_redis, ping_postgres,
  with_redis, with_postgres, next_backoff, refused,
}
use obarena.Telemetry.Connect.Open.{IsAccounted, new_ingester-IsAccounted, held}
use obarena.Telemetry.Connect.Backoff.{IsConnected, new_ingester_starts}

-- An attempt that fails, one of PostgreSQL that finds no pool, one that is answered, and one in
-- whose wait the context ends.
abbrev silent : Ping
silent = record { is_created = true; is_answered = false; has_ended = false; ends_in_wait = false }

abbrev no_pool : Ping
no_pool = record silent { is_created = false }

abbrev answering : Ping
answering = record silent { is_answered = true }

abbrev cut : Ping
cut = record silent { ends_in_wait = true }

new_ingester-IsAccounted_example :
    IsAccounted true (new_ingester true (silent ∷ answering ∷ []) (silent ∷ cut ∷ []))
new_ingester-IsAccounted_example =
    new_ingester-IsAccounted true (silent ∷ answering ∷ []) (silent ∷ cut ∷ [])

new_ingester_starts_example :
    let s = new_ingester true (silent ∷ answering ∷ []) (no_pool ∷ silent ∷ answering ∷ cut ∷ []) in
    (s.start ≡ started) × IsConnected 1 s.redis × IsConnected 2 s.postgres
new_ingester_starts_example =
    new_ingester_starts (silent ∷ []) answering [] (no_pool ∷ silent ∷ []) answering (cut ∷ [])
      ((refl, refl, refl), tt) refl ((refl, refl, refl), ((refl, refl, refl), tt)) refl refl

abbrev patient : List Ping
patient = silent ∷ silent ∷ silent ∷ silent ∷ silent ∷ silent ∷ silent ∷ answering ∷ []

doubling : (connect_redis patient).waits ≡ 1 ∷ 2 ∷ 4 ∷ 8 ∷ 16 ∷ 32 ∷ 32 ∷ []
unfolding connect_redis ping_redis next_backoff
doubling = refl

-- A limit that is not above 0 refuses to start, with both connections held.
held_when_refused :
    let s = new_ingester false (answering ∷ []) (answering ∷ []) in
    (s.start ≡ refused) × (held s.redis ≡ 1) × (held s.postgres ≡ 1)
unfolding new_ingester connect_redis ping_redis with_redis connect_postgres ping_postgres
    with_postgres
held_when_refused = (refl, refl, refl)
