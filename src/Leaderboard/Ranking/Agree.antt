-- ===== src/Leaderboard/Ranking/Agree.antt =====
-- `buildSnapshot` against `leaderboardHandler`, of services/leaderboard-ws.
use obarena.Prelude.{ℕ, ◌+◌, ◌≡◌, refl, arith, String, List, [], ◌∷◌, Option, some}
use obarena.Leaderboard.Ranking.{
  LeaderboardEntry, Z, leaderboard_entries, fetch, collect, build_snapshot,
}

module _ {F : Type 0} (zero_score : F) (per_mille : F → F) where
  module _ (hget : String → Option String) (unmarshal : String → Option (LeaderboardEntry F)) where
    collect-fetch :
        (i : ℕ) (zs : List (Z F))
        → collect zero_score per_mille hget unmarshal i zs
            (fetch zero_score per_mille hget unmarshal zs)
          ≡ some (leaderboard_entries zero_score per_mille hget unmarshal i zs)
    unfolding collect fetch leaderboard_entries
    collect-fetch i [] = refl
    collect-fetch i (z ∷ zs) = ground (arith, collect-fetch (i + 1) zs)

    -- The pipelined snapshot has the entries of the list over HTTP, and never runs into a command
    -- that it did not make.
    pub build_snapshot-leaderboard_entries :
        (zs : List (Z F))
        → build_snapshot zero_score per_mille hget unmarshal zs
          ≡ some (leaderboard_entries zero_score per_mille hget unmarshal 0 zs)
    unfolding build_snapshot leaderboard_entries
    build_snapshot-leaderboard_entries [] = refl
    build_snapshot-leaderboard_entries (z ∷ zs) = collect-fetch 0 (z ∷ zs)
