-- ===== src/Telemetry/Consumer/Ingests.antt =====
-- What the consumer of services/telemetry-ingester makes of the records of a partition.
use obarena.Prelude.{
  ℕ, ◌≡◌, refl, sym, ap, ◌∙◌, String, Bool, true, false, false≢true, not, ◌&&◌, Bool-cases, inl,
  inr, if-intro, List, [], ◌∷◌, ◌++◌, append-nil, append_assoc, if◌then◌else◌,
}
use obarena.Telemetry.Score.{Float64, Limits, compute_score}
use obarena.Telemetry.Ingester.{EventScorePair, Ingester, flush}
use obarena.Telemetry.Ingester.Batches.{kept, kept-flush, kept-handle}
use obarena.Telemetry.Consumer.{
  Decoded, broken, other_type, bot_metrics, Consumer, Move, takes, commits, ends, flushes,
  is_malformed, handle_decoded, take_record, step, run,
}

module _ {F : Type 0} (f : Float64 F) (decode : List ℕ → Decoded F) where
  -- The event of a record with its score, if it is one.
  unfoldable pub scored : Limits F → Decoded F → List (EventScorePair F)
  scored l (bot_metrics e) = record { event = e; score = compute_score f l e } ∷ []
  scored l _ = []

  abbrev pub event_of : Limits F → List ℕ → List (EventScorePair F)
  event_of l value = if is_malformed value then [] else scored l (decode value)

  -- The events of a schedule, until the context ends.
  unfoldable pub events : Limits F → List Move → List (EventScorePair F)
  events l [] = []
  events l (takes value ok timestamp ∷ ms) = event_of l value ++ events l ms
  events l (ends ∷ ms) = []
  events l (commits ok ∷ ms) = events l ms
  events l (flushes tries ∷ ms) = events l ms

  kept-handle_decoded :
      (l : Limits F) (ok : Bool) (timestamp : String) (d : Decoded F) (i : Ingester F)
      → kept (handle_decoded f decode l ok timestamp d i) ≡ kept i ++ scored l d
  unfolding handle_decoded scored
  kept-handle_decoded l ok timestamp (bot_metrics e) i = kept-handle f l ok timestamp e i
  kept-handle_decoded l ok timestamp broken i = sym (append-nil (kept i))
  kept-handle_decoded l ok timestamp other_type i = sym (append-nil (kept i))

  kept-take_record :
      (l : Limits F) (value : List ℕ) (ok : Bool) (timestamp : String) (c : Consumer F)
      → kept (take_record f decode l value ok timestamp c).ingester
        ≡ kept c.ingester ++ event_of l value
  unfolding take_record
  kept-take_record l value ok timestamp c = elim (Bool-cases (is_malformed value)) [
    | inl bad ↦ rw bad (sym (append-nil (kept c.ingester)))
    | inr good ↦ rw good (kept-handle_decoded l ok timestamp (decode value) c.ingester)
  ]

  run_ended :
      (l : Limits F) (ms : List Move) (c : Consumer F)
      → c.has_ended ≡ true
      → kept (run f decode l ms c).ingester ≡ kept c.ingester
  unfolding run step
  run_ended l [] c ended = refl
  run_ended l (takes value ok timestamp ∷ ms) c ended =
      if-intro (λ c'. kept (run f decode l ms c').ingester ≡ kept c.ingester) c.has_ended c
        (take_record f decode l value ok timestamp c) (λ _. run_ended l ms c ended)
        (λ polls. absurd (false≢true (sym polls ∙ ended)))
  run_ended l (commits ok ∷ ms) c ended =
      if-intro (λ c'. kept (run f decode l ms c').ingester ≡ kept c.ingester)
        (ok && not c.has_ended) (record c { committed = c.position }) c
        (λ _. run_ended l ms (record c { committed = c.position }) ended)
        (λ _. run_ended l ms c ended)
  run_ended l (ends ∷ ms) c ended = run_ended l ms (record c { has_ended = true }) refl
  run_ended l (flushes tries ∷ ms) c ended =
      run_ended l ms (record c { ingester = flush tries c.ingester }) ended
      ∙ kept-flush tries c.ingester

  -- Whatever else fails: each record that is taken before the context ends, has a header and is of
  -- a test, is in one batch or in the buffer, with its score, once and in the order of the records;
  -- and nothing else is.
  pub run_keeps_events :
      (l : Limits F) (ms : List Move) (c : Consumer F)
      → c.has_ended ≡ false
      → kept (run f decode l ms c).ingester ≡ kept c.ingester ++ events l ms
  unfolding run step events
  run_keeps_events l [] c polls = sym (append-nil (kept c.ingester))
  run_keeps_events l (takes value ok timestamp ∷ ms) c polls =
      if-intro
        (λ c'.
          kept (run f decode l ms c').ingester
          ≡ kept c.ingester ++ (event_of l value ++ events l ms))
        c.has_ended c (take_record f decode l value ok timestamp c)
        (λ ended. absurd (false≢true (sym polls ∙ ended)))
        (λ _.
          run_keeps_events l ms (take_record f decode l value ok timestamp c) polls
          ∙ ap (λ ps. ps ++ events l ms) (kept-take_record l value ok timestamp c)
          ∙ append_assoc (kept c.ingester) (event_of l value) (events l ms))
  run_keeps_events l (commits ok ∷ ms) c polls =
      if-intro (λ c'. kept (run f decode l ms c').ingester ≡ kept c.ingester ++ events l ms)
        (ok && not c.has_ended) (record c { committed = c.position }) c
        (λ _. run_keeps_events l ms (record c { committed = c.position }) polls)
        (λ _. run_keeps_events l ms c polls)
  run_keeps_events l (ends ∷ ms) c polls =
      run_ended l ms (record c { has_ended = true }) refl ∙ sym (append-nil (kept c.ingester))
  run_keeps_events l (flushes tries ∷ ms) c polls =
      run_keeps_events l ms (record c { ingester = flush tries c.ingester }) polls
      ∙ ap (λ ps. ps ++ events l ms) (kept-flush tries c.ingester)
