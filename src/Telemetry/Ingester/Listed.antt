-- ===== src/Telemetry/Ingester/Listed.antt =====
-- The leaderboard that services/telemetry-ingester keeps in Redis.
use obarena.Prelude.{
  ◌≡◌, refl, arith, String, str_eq, eq_iff, Bool, true, false, List, [], ◌∷◌, lookup, lookup-insert,
  some, Bool-cases, inl, inr,
}
use obarena.Telemetry.Score.{Float64, BotMetrics, Limits, compute_score}
use obarena.Telemetry.Ingester.{
  EventScorePair, LeaderboardEntry, Redis, Ingester, Attempt, flush_buffer, flush, run_script,
  entry_of, update_leaderboard, handle, Step, handles, flushes, step, run,
}

module _ {F : Type 0} (f : Float64 F) where
  -- A member of the sorted set has its details, with its score.
  pub record IsListed (r : Redis F) : Type 0 where
    pub listed :
        (id : String) (z : F)
        → lookup id r.leaderboard ≡ some z
        → (e : LeaderboardEntry F) × (lookup id r.leaderboard_details ≡ some e)
          × (e.submission_id ≡ id)
          × (z ≡ f.mul e.score f.thousand)

  update_leaderboard-IsListed :
      (ok : Bool) (timestamp : String) (e : BotMetrics F) (score : F) (r : Redis F)
      → IsListed r
      → IsListed (update_leaderboard f ok timestamp e score r)
  unfolding update_leaderboard run_script
  update_leaderboard-IsListed false timestamp e score r v = v
  update_leaderboard-IsListed true timestamp e score r v = record {
    listed = λ id z there. elim (Bool-cases (str_eq e.submission_id id)) [
      | inl same ↦ (
        entry_of f timestamp e score,
        ground (
          arith,
          same,
          lookup-insert e.submission_id id (entry_of f timestamp e score) r.leaderboard_details,
        ),
        (eq_iff e.submission_id id).0 same,
        ground (
          arith,
          same,
          there,
          lookup-insert e.submission_id id (f.mul score f.thousand) r.leaderboard,
        ),
      )
      | inr other ↦
          let (d, found, own, scaled) = v.listed id z (
            ground (
              arith,
              other,
              there,
              lookup-insert e.submission_id id (f.mul score f.thousand) r.leaderboard,
            )) in
          (
            d,
            ground (
              arith,
              other,
              found,
              lookup-insert e.submission_id id (entry_of f timestamp e score) r.leaderboard_details,
            ),
            own,
            scaled,
          )
    ];
  }

  flush_buffer-redis :
      (tries : List Attempt) (ps : List (EventScorePair F)) (i : Ingester F)
      → (flush_buffer tries ps i).redis ≡ i.redis
  unfolding flush_buffer
  flush_buffer-redis tries [] i = refl
  flush_buffer-redis tries (p ∷ ps) i = refl

  flush-IsListed :
      (tries : List Attempt) (i : Ingester F) → IsListed i.redis → IsListed (flush tries i).redis
  unfolding flush
  flush-IsListed tries i v = rw (flush_buffer-redis tries i.event_buffer i) v

  -- Whatever comes and whatever fails: a submission on the leaderboard has its details there, under
  -- its own id, and its rank is by the score that they show.
  pub run-IsListed :
      (l : Limits F) (ss : List (Step F)) (i : Ingester F)
      → IsListed i.redis
      → IsListed (run f l ss i).redis
  unfolding run step handle
  run-IsListed l [] i v = v
  run-IsListed l (handles ok timestamp e ∷ ss) i v =
      run-IsListed l ss (handle f l ok timestamp e i)
        (update_leaderboard-IsListed ok timestamp e (compute_score f l e) i.redis v)
  run-IsListed l (flushes tries ∷ ss) i v =
      run-IsListed l ss (flush tries i) (flush-IsListed tries i v)
