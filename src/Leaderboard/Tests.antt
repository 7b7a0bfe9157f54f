-- ===== src/Leaderboard/Tests.antt =====
-- The hub and the ranked list at concrete input.
use obarena.Prelude.{
  ℕ, ◌≡◌, pos, String, str_eq, true, List, [], ◌∷◌, Option, none, some, if◌then◌else◌,
}
use obarena.Leaderboard.Hub.{
  Hub, gone, Event, connects, snapshot, writes, leaves, broadcast, takes_register, takes_unregister,
  takes_message, contains, new_hub, run,
}
use obarena.Leaderboard.Hub.Safety.{IsSafe, new_hub-IsSafe, run-IsSafe}
use obarena.Leaderboard.Hub.Leak.{wrong_order, registered_for_good}
use obarena.Leaderboard.Ranking.{LeaderboardEntry, Z, leaderboard_entries, build_snapshot}
use obarena.Leaderboard.Ranking.Agree.{build_snapshot-leaderboard_entries}

-- A client joins, gets an update and leaves.
abbrev visit : List Event
visit =
    connects 7
    ∷ takes_register
    ∷ snapshot 7 "all"
    ∷ broadcast "new"
    ∷ takes_message
    ∷ writes 7
    ∷ leaves 7
    ∷ takes_unregister
    ∷ []

run-IsSafe_example : (h : Hub) × (run visit new_hub ≡ some h) × IsSafe h
run-IsSafe_example = run-IsSafe visit new_hub new_hub-IsSafe

registered_for_good_example :
    (h : Hub) × (run (wrong_order 7 visit) new_hub ≡ some h)
    × (h.phase 7 ≡ gone)
    × (contains 7 h.clients ≡ true)
registered_for_good_example = registered_for_good 7 visit

-- Two teams, of which one has details, and a member that is not a text.
abbrev members : List (Z ℕ)
members =
    record { member = some "s1:red"; score = 900 }
    ∷ record { member = none; score = 800 }
    ∷ record { member = some "s2"; score = 700 }
    ∷ []

abbrev entry : LeaderboardEntry ℕ
entry = record {
  submission_id = "s2";
  team_name = "blue";
  score = 7;
  tps = 1;
  ack_p50_us = pos 1;
  ack_p90_us = pos 2;
  ack_p99_us = pos 3;
  orders_sent = pos 4;
  rejects_recv = pos 0;
  correctness = 1;
  duration_ms = pos 9;
  timestamp = "now";
  rank = 0;
}

abbrev details : String → Option String
details id = if str_eq id "s2" then some "blob" else none

abbrev decode : String → Option (LeaderboardEntry ℕ)
decode blob = some entry

abbrev halved : ℕ → ℕ
halved n = n

build_snapshot-leaderboard_entries_example :
    build_snapshot 0 halved details decode members
    ≡ some (leaderboard_entries 0 halved details decode 0 members)
build_snapshot-leaderboard_entries_example =
    build_snapshot-leaderboard_entries 0 halved details decode members
