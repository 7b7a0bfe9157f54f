-- ===== src/Telemetry/Ingester/Batches.antt =====
-- Where an event goes, in services/telemetry-ingester.
use obarena.Prelude.{
  Bool, String, ◌≡◌, refl, sym, ap, ◌∙◌, List, [], ◌∷◌, ◌++◌, append_assoc, append-nil,
}
use obarena.Telemetry.Score.{Float64, BotMetrics, Limits, compute_score}
use obarena.Telemetry.Ingester.{
  EventScorePair, Batch, Ingester, Attempt, write_attempts, flush_buffer, flush, handle, Step,
  handles, flushes, step, run,
}

module _ {F : Type 0} where
  unfoldable pub flushed : List (Batch F) → List (EventScorePair F)
  flushed [] = []
  flushed (b ∷ bs) = b.pairs ++ flushed bs

  -- What has been flushed, then what waits.
  abbrev pub kept : Ingester F → List (EventScorePair F)
  kept i = flushed i.batches ++ i.event_buffer

  flushed-append : (bs cs : List (Batch F)) → flushed (bs ++ cs) ≡ flushed bs ++ flushed cs
  unfolding flushed
  flushed-append [] cs = refl
  flushed-append (b ∷ bs) cs =
      ap (λ ps. b.pairs ++ ps) (flushed-append bs cs)
      ∙ sym (append_assoc b.pairs (flushed bs) (flushed cs))

  kept-flush_buffer :
      (tries : List Attempt) (ps : List (EventScorePair F)) (i : Ingester F)
      → i.event_buffer ≡ ps
      → kept (flush_buffer tries ps i) ≡ kept i
  unfolding flush_buffer flushed
  kept-flush_buffer tries [] i e = refl
  kept-flush_buffer tries (p ∷ ps) i e =
      append-nil _
      ∙ flushed-append i.batches (record { pairs = p ∷ ps; written = write_attempts tries } ∷ [])
      ∙ ap (λ qs. flushed i.batches ++ qs) (append-nil (p ∷ ps) ∙ sym e)

  pub kept-flush : (tries : List Attempt) (i : Ingester F) → kept (flush tries i) ≡ kept i
  unfolding flush
  kept-flush tries i = kept-flush_buffer tries i.event_buffer i refl

module _ {F : Type 0} (f : Float64 F) where
  pub kept-handle :
      (l : Limits F) (ok : Bool) (timestamp : String) (e : BotMetrics F) (i : Ingester F)
      → kept (handle f l ok timestamp e i)
        ≡ kept i ++ record { event = e; score = compute_score f l e } ∷ []
  unfolding handle
  kept-handle l ok timestamp e i = sym (
      append_assoc (flushed i.batches) i.event_buffer
        (record { event = e; score = compute_score f l e } ∷ []))

  -- The events of a schedule with their scores, in the order in which they come.
  unfoldable pub arrived : Limits F → List (Step F) → List (EventScorePair F)
  arrived l [] = []
  arrived l (handles ok timestamp e ∷ ss) =
      record { event = e; score = compute_score f l e } ∷ arrived l ss
  arrived l (flushes tries ∷ ss) = arrived l ss

  -- Every event that comes is in one batch or in the buffer, once and in the order in which it
  -- came, whatever fails.
  pub kept-run :
      (l : Limits F) (ss : List (Step F)) (i : Ingester F)
      → kept (run f l ss i) ≡ kept i ++ arrived l ss
  unfolding run step arrived handle
  kept-run l [] i = sym (append-nil (kept i))
  kept-run l (handles ok timestamp e ∷ ss) i =
      let p : EventScorePair F = record { event = e; score = compute_score f l e } in
      kept-run l ss (handle f l ok timestamp e i)
      ∙ ap (λ ps. ps ++ arrived l ss) (kept-handle l ok timestamp e i)
      ∙ append_assoc (kept i) (p ∷ []) (arrived l ss)
  kept-run l (flushes tries ∷ ss) i =
      kept-run l ss (flush tries i) ∙ ap (λ ps. ps ++ arrived l ss) (kept-flush tries i)
