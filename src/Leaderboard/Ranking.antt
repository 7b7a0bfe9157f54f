-- ===== src/Leaderboard/Ranking.antt =====
-- The ranked list of services/leaderboard-ws: `leaderboardHandler` of main.go and `buildSnapshot`
-- of hub.go, which make the same list in two ways.
--
-- A score is a float64 of a type `F`. What Redis and the JSON decoder answer are arguments.
pub mod Agree
pub mod Ranks
use Prim.Native.Char.{code}
use obarena.Prelude.{
  ℕ, ◌+◌, ℤ, pos, String, Bool, ◌==◌, if◌then◌else◌, List, [], ◌∷◌, Option, none, some,
}

pub record LeaderboardEntry (F : Type 0) : Type 0 where
  pub submission_id : String
  pub team_name : String
  pub score : F
  pub tps : F
  pub ack_p50_us : ℤ
  pub ack_p90_us : ℤ
  pub ack_p99_us : ℤ
  pub orders_sent : ℤ
  pub rejects_recv : ℤ
  pub correctness : F
  pub duration_ms : ℤ
  pub timestamp : String
  pub rank : ℕ

-- `redis.Z`: a member that is not a string is `none`.
pub record Z (F : Type 0) : Type 0 where
  pub member : Option String
  pub score : F

-- `strings.SplitN(s, ":", 2)`: the part before the first colon, and the part after it.
unfoldable pub split_n : String → String × Option String
split_n String.[] = ("", none)
split_n (String.◌∷◌ c s) =
    let (head, rest) = split_n s in
    if code c == b':' then ("", some s) else (String.◌∷◌ c head, rest)

abbrev pub submission_id_of : String → String
submission_id_of s = (split_n s).0

-- `teamName`, empty without a colon.
abbrev pub team_name_of : Option String → String
team_name_of none = ""
team_name_of (some s) = s

module _ {F : Type 0} (zero_score : F) (per_mille : F → F) where
  -- The record of a member without details.
  abbrev pub minimal_entry : String → F → ℕ → LeaderboardEntry F
  minimal_entry s score i = record {
    submission_id = submission_id_of s;
    team_name = team_name_of (split_n s).1;
    score = per_mille score;
    tps = zero_score;
    ack_p50_us = pos 0;
    ack_p90_us = pos 0;
    ack_p99_us = pos 0;
    orders_sent = pos 0;
    rejects_recv = pos 0;
    correctness = zero_score;
    duration_ms = pos 0;
    timestamp = "";
    rank = i + 1;
  }

  module _ (hget : String → Option String) (unmarshal : String → Option (LeaderboardEntry F)) where
    -- The loop of `leaderboardHandler` from index `i`: one fetch for each member.
    unfoldable pub leaderboard_entries : ℕ → List (Z F) → List (LeaderboardEntry F)
    leaderboard_entries i [] = []
    leaderboard_entries i (z ∷ zs) =
        let rest = leaderboard_entries (i + 1) zs in
        elim z.member [
          | none ↦ rest
          | some s ↦ elim (hget (submission_id_of s)) [
            | none ↦ minimal_entry s z.score i ∷ rest
            | some blob ↦ elim (unmarshal blob) [
              | none ↦ rest
              | some e ↦ record e { rank = i + 1 } ∷ rest
            ]
          ]
        ]

    -- The pipeline of `buildSnapshot`: no command for a member that is not a string.
    unfoldable pub fetch : List (Z F) → List (Option (Option String))
    fetch [] = []
    fetch (z ∷ zs) =
        let rest = fetch zs in
        elim z.member [ none ↦ none ∷ rest | some s ↦ some (hget (submission_id_of s)) ∷ rest ]

    -- Its second loop. The result `none` is a panic: an index out of range or a nil command.
    unfoldable pub collect :
        ℕ → List (Z F) → List (Option (Option String)) → Option (List (LeaderboardEntry F))
    collect i [] cmds = some []
    collect i (z ∷ zs) [] = none
    collect i (z ∷ zs) (cmd ∷ cmds) = elim (collect (i + 1) zs cmds) [
      | none ↦ none
      | some rest ↦ elim z.member [
        | none ↦ some rest
        | some s ↦ elim cmd [
          | none ↦ none
          | some none ↦ some (minimal_entry s z.score i ∷ rest)
          | some (some blob) ↦ elim (unmarshal blob) [
            | none ↦ some rest
            | some e ↦ some (record e { rank = i + 1 } ∷ rest)
          ]
        ]
      ]
    ]

    unfoldable pub build_snapshot : List (Z F) → Option (List (LeaderboardEntry F))
    unfolding fetch collect
    build_snapshot [] = some []
    build_snapshot (z ∷ zs) = collect 0 (z ∷ zs) (fetch (z ∷ zs))
