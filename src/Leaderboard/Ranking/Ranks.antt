-- ===== src/Leaderboard/Ranking/Ranks.antt =====
-- The ranks of the list of services/leaderboard-ws.
use obarena.Prelude.{
  ℕ, ◌+◌, ◌≤◌, ◌<◌, ◌≡◌, refl, arith, some-cases, inl, inr, String, List, [], ◌∷◌, Option, length,
  All, All-map_of, Chain,
}
use obarena.Leaderboard.Ranking.{
  LeaderboardEntry, Z, submission_id_of, leaderboard_entries, minimal_entry,
}

-- Ranks above `i` and up to `n`, each below the later ones.
pub IsRanked : {F : Type 0} → ℕ → ℕ → List (LeaderboardEntry F) → Type 0
IsRanked i n es = All (λ e. (i < e.rank) × (e.rank ≤ n)) es × Chain (λ d e. d.rank < e.rank) es

IsRanked-cons :
    {F : Type 0} (i n : ℕ) (e : LeaderboardEntry F) (es : List (LeaderboardEntry F))
    → e.rank ≡ i + 1
    → i + 1 ≤ n
    → IsRanked (i + 1) n es
    → IsRanked i n (e ∷ es)
unfolding IsRanked
IsRanked-cons i n e es at_i room (bounds, chain) = (
  ((omega arith, omega arith), All-map_of (λ d (low, high). (omega arith, high)) es bounds),
  (All-map_of (λ d (low, high). omega arith) es bounds, chain),
)

IsRanked-skip :
    {F : Type 0} (i n : ℕ) (es : List (LeaderboardEntry F))
    → IsRanked (i + 1) n es
    → IsRanked i n es
unfolding IsRanked
IsRanked-skip i n es (bounds, chain) =
    (All-map_of (λ d (low, high). (omega arith, high)) es bounds, chain)

module _ {F : Type 0} (zero_score : F) (per_mille : F → F) where
  module _ (hget : String → Option String) (unmarshal : String → Option (LeaderboardEntry F)) where
    entries-IsRanked :
        (i n : ℕ) (zs : List (Z F))
        → i + length zs ≤ n
        → IsRanked i n (leaderboard_entries zero_score per_mille hget unmarshal i zs)
    unfolding leaderboard_entries
    entries-IsRanked i n [] room = unfold IsRanked in (tt, tt)
    entries-IsRanked i n (z ∷ zs) room =
        let es = leaderboard_entries zero_score per_mille hget unmarshal (i + 1) zs in
        let rest : IsRanked (i + 1) n es = entries-IsRanked (i + 1) n zs (omega arith) in
        let cons : (e : LeaderboardEntry F) → e.rank ≡ i + 1 → IsRanked i n (e ∷ es) =
          λ e at_i. IsRanked-cons i n e es at_i (omega arith) rest in
        elim (some-cases z.member) [
          | inl other ↦ rw (other, leaderboard_entries) (IsRanked-skip i n es rest)
          | inr (s, is_text) ↦ elim (some-cases (hget (submission_id_of s))) [
            | inl missing ↦
                rw (is_text, leaderboard_entries, missing)
                  (cons (minimal_entry zero_score per_mille s z.score i) refl)
            | inr (blob, found) ↦ elim (some-cases (unmarshal blob)) [
              | inl broken ↦
                  rw (is_text, leaderboard_entries, found, broken) (IsRanked-skip i n es rest)
              | inr (e, read) ↦
                  rw (is_text, leaderboard_entries, found, read)
                    (cons (record e { rank = i + 1 }) refl)
            ]
          ]
        ]

    -- The ranks of the list count from 1, each is above those before it, and none is above the
    -- number of members, also where members are left out.
    leaderboard_entries-IsRanked :
        (zs : List (Z F))
        → IsRanked 0 (length zs) (leaderboard_entries zero_score per_mille hget unmarshal 0 zs)
    leaderboard_entries-IsRanked zs = entries-IsRanked 0 (length zs) zs (omega arith)
