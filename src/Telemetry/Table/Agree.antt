-- ===== src/Telemetry/Table/Agree.antt =====
-- The table of the scores and the leaderboard, in services/telemetry-ingester.
use obarena.Prelude.{
  ℕ, ◌≡◌, refl, sym, ap, ◌∙◌, arith, String, str_eq, eq_iff, Bool, true, false, if◌then◌else◌, ℤ,
  Dict, lookup, insert, lookup-insert, List, [], ◌∷◌, ◌++◌, Option, none, some, ◌&&◌, append-nil,
  false≢true, Bool-cases, inl, inr, eq_refl,
}
use obarena.Telemetry.Score.{BotMetrics, Float64, Limits, compute_score}
use obarena.Telemetry.Ingester.{
  EventScorePair, LeaderboardEntry, Batch, Ingester, Redis, handle, flush, flush_buffer, Attempt,
  update_leaderboard, run_script, entry_of, Step, handles, flushes, step, run,
}
use obarena.Telemetry.Ingester.Batches.{arrived, flushed, kept-run}
use obarena.Telemetry.Table.{
  SubmissionScore, Database, score_row, on_conflict, write_pair, write_batch, write_batches,
}

abbrev pub first_named : Bool → String → Option String → Option String
first_named is_of team none = if is_of then some team else none
first_named is_of team (some old) = some old

first_named_other :
    (name : String) (before : Option String) → first_named false name before ≡ before
first_named_other name none = refl
first_named_other name (some old) = refl

module _ {F : Type 0} where
  -- The last score of a submission among pairs, or else the one before them.
  unfoldable pub last_score : String → List (EventScorePair F) → Option F → Option F
  last_score id [] before = before
  last_score id (p ∷ ps) before =
      last_score id ps (if str_eq p.event.submission_id id then some p.score else before)

  -- Who is named first for a submission, unless someone was before.
  unfoldable pub first_team : String → List (EventScorePair F) → Option String → Option String
  first_team id [] before = before
  first_team id (p ∷ ps) before =
      first_team id ps (first_named (str_eq p.event.submission_id id) p.event.team_name before)

  unfoldable pub composite : Option (SubmissionScore F) → Option F
  composite none = none
  composite (some row) = some row.composite

  unfoldable pub score_shown : Option (LeaderboardEntry F) → Option F
  score_shown none = none
  score_shown (some e) = some e.score

  -- No write to Redis fails.
  unfoldable pub all_accepted : List (Step F) → Bool
  all_accepted [] = true
  all_accepted (handles ok timestamp e ∷ ss) = ok && all_accepted ss
  all_accepted (flushes tries ∷ ss) = all_accepted ss

  -- No batch is dropped.
  unfoldable pub all_written : List (Batch F) → Bool
  all_written [] = true
  all_written (b ∷ bs) = b.written && all_written bs

  composite-on_conflict :
      (row : SubmissionScore F) (old : Option (SubmissionScore F))
      → (on_conflict row old).composite ≡ row.composite
  unfolding on_conflict
  composite-on_conflict row none = refl
  composite-on_conflict row (some old) = refl

  composite-write_pair :
      (now : ℕ → ℤ) (id : String) (p : EventScorePair F) (db : Database F)
      → composite (lookup id (write_pair now p db).submission_scores) ≡ (
          if str_eq p.event.submission_id id
          then some p.score
          else composite (lookup id db.submission_scores))
  unfolding write_pair composite
  composite-write_pair now id p db = ground (
    arith,
    lookup-insert p.event.submission_id id
        (on_conflict (score_row (now db.readings) p)
          (lookup p.event.submission_id db.submission_scores))
        db.submission_scores,
    composite-on_conflict (score_row (now db.readings) p)
        (lookup p.event.submission_id db.submission_scores),
  )

  unfoldable pub team : Option (SubmissionScore F) → Option String
  team none = none
  team (some row) = some row.team_name

  team-on_conflict :
      (row : SubmissionScore F) (old : Option (SubmissionScore F))
      → team (some (on_conflict row old)) ≡ first_named true row.team_name (team old)
  unfolding team on_conflict
  team-on_conflict row none = refl
  team-on_conflict row (some old) = refl

  team-insert :
      (k id : String) (row : SubmissionScore F) (m : Dict (SubmissionScore F))
      → team (lookup id (insert k (on_conflict row (lookup k m)) m))
        ≡ first_named (str_eq k id) row.team_name (team (lookup id m))
  team-insert k id row m = elim (Bool-cases (str_eq k id)) [
    | inl same ↦ rw ((eq_iff k id).0 same) (
        rw (lookup-insert id id (on_conflict row (lookup id m)) m, eq_refl id)
          (team-on_conflict row (lookup id m)))
    | inr other ↦
        rw (lookup-insert k id (on_conflict row (lookup k m)) m, other)
          (sym (first_named_other row.team_name (team (lookup id m))))
  ]

  team-write_batch :
      (now : ℕ → ℤ) (id : String) (ps : List (EventScorePair F)) (db : Database F)
      → team (lookup id (write_batch now ps db).submission_scores)
        ≡ first_team id ps (team (lookup id db.submission_scores))
  unfolding write_batch first_team write_pair
  team-write_batch now id [] db = refl
  team-write_batch now id (p ∷ ps) db =
      team-write_batch now id ps (write_pair now p db)
      ∙ ap (first_team id ps) (
          team-insert p.event.submission_id id (score_row (now db.readings) p) db.submission_scores)

  composite-write_batch :
      (now : ℕ → ℤ) (id : String) (ps : List (EventScorePair F)) (db : Database F)
      → composite (lookup id (write_batch now ps db).submission_scores)
        ≡ last_score id ps (composite (lookup id db.submission_scores))
  unfolding write_batch last_score
  composite-write_batch now id [] db = refl
  composite-write_batch now id (p ∷ ps) db =
      composite-write_batch now id ps (write_pair now p db)
      ∙ ap (last_score id ps) (composite-write_pair now id p db)

  write_batch-append :
      (now : ℕ → ℤ) (ps qs : List (EventScorePair F)) (db : Database F)
      → write_batch now (ps ++ qs) db ≡ write_batch now qs (write_batch now ps db)
  unfolding write_batch
  write_batch-append now [] qs db = refl
  write_batch-append now (p ∷ ps) qs db = write_batch-append now ps qs (write_pair now p db)

  write_batches-flushed :
      (now : ℕ → ℤ) (bs : List (Batch F)) (db : Database F)
      → all_written bs ≡ true
      → write_batches now bs db ≡ write_batch now (flushed bs) db
  unfolding write_batches write_batch flushed all_written
  write_batches-flushed now [] db all = refl
  write_batches-flushed now (b ∷ bs) db all = ground (
    arith,
    all,
    write_batches-flushed now bs (write_batch now b.pairs db),
    write_batch-append now b.pairs (flushed bs) db,
  )

module _ {F : Type 0} (f : Float64 F) where
  score_shown-update_leaderboard :
      (l : Limits F) (id timestamp : String) (e : BotMetrics F) (r : Redis F)
      → score_shown (
          lookup id
            (update_leaderboard f true timestamp e (compute_score f l e) r).leaderboard_details)
        ≡ (if str_eq e.submission_id id
            then some (compute_score f l e)
            else score_shown (lookup id r.leaderboard_details))
  unfolding update_leaderboard run_script score_shown
  score_shown-update_leaderboard l id timestamp e r = ground (
    arith,
    lookup-insert e.submission_id id (entry_of f timestamp e (compute_score f l e))
        r.leaderboard_details,
  )

  flush_buffer-redis :
      (tries : List Attempt) (ps : List (EventScorePair F)) (i : Ingester F)
      → (flush_buffer tries ps i).redis ≡ i.redis
  unfolding flush_buffer
  flush_buffer-redis tries [] i = refl
  flush_buffer-redis tries (p ∷ ps) i = refl

  score_shown-run :
      (l : Limits F) (id : String) (ss : List (Step F)) (i : Ingester F)
      → all_accepted ss ≡ true
      → score_shown (lookup id (run f l ss i).redis.leaderboard_details)
        ≡ last_score id (arrived f l ss) (score_shown (lookup id i.redis.leaderboard_details))
  unfolding run step arrived handle all_accepted last_score flush
  score_shown-run l id [] i ok = refl
  score_shown-run l id (handles true timestamp e ∷ ss) i ok =
      score_shown-run l id ss (handle f l true timestamp e i) ok
      ∙ ap (last_score id (arrived f l ss))
          (score_shown-update_leaderboard l id timestamp e i.redis)
  score_shown-run l id (handles false timestamp e ∷ ss) i ok = absurd (false≢true ok)
  score_shown-run l id (flushes tries ∷ ss) i ok =
      score_shown-run l id ss (flush tries i) ok
      ∙ ap (λ r. last_score id (arrived f l ss) (score_shown (lookup id r.leaderboard_details)))
          (flush_buffer-redis tries i.event_buffer i)

  -- If Redis takes every update and every batch is written, then with an empty buffer the table has
  -- the score that the leaderboard shows for a submission, if the two agreed on it before, and it
  -- has the team of the first event of the submission that ever came to the table.
  pub run_writes :
      (l : Limits F) (now : ℕ → ℤ) (ss : List (Step F)) (i : Ingester F) (db : Database F)
      (id : String)
      → i.event_buffer ≡ []
      → i.batches ≡ []
      → composite (lookup id db.submission_scores)
        ≡ score_shown (lookup id i.redis.leaderboard_details)
      → all_accepted ss ≡ true
      → all_written (run f l ss i).batches ≡ true
      → (run f l ss i).event_buffer ≡ []
      → (composite (lookup id (write_batches now (run f l ss i).batches db).submission_scores)
          ≡ score_shown (lookup id (run f l ss i).redis.leaderboard_details))
        × (team (lookup id (write_batches now (run f l ss i).batches db).submission_scores)
            ≡ first_team id (arrived f l ss) (team (lookup id db.submission_scores)))
  unfolding flushed
  run_writes l now ss i db id empty unflushed agreed ok all done = (
    ap (λ d. composite (lookup id d.submission_scores)) table
        ∙ composite-write_batch now id (arrived f l ss) db
        ∙ ap (last_score id (arrived f l ss)) agreed
        ∙ sym (score_shown-run l id ss i ok),
    ap (λ d. team (lookup id d.submission_scores)) table
        ∙ team-write_batch now id (arrived f l ss) db,
  )
    where
      come : flushed (run f l ss i).batches ≡ arrived f l ss
      come =
          sym (append-nil _)
          ∙ ap (λ ps. flushed (run f l ss i).batches ++ ps) (sym done)
          ∙ kept-run f l ss i
          ∙ ap (λ ps. ps ++ arrived f l ss)
              (ap (λ bs. flushed bs ++ i.event_buffer) unflushed ∙ empty)

      table : write_batches now (run f l ss i).batches db ≡ write_batch now (arrived f l ss) db
      table =
          write_batches-flushed now (run f l ss i).batches db all
          ∙ ap (λ ps. write_batch now ps db) come
