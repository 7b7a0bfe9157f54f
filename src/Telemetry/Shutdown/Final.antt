-- ===== src/Telemetry/Shutdown/Final.antt =====
-- The last flush of services/telemetry-ingester.
use obarena.Prelude.{◌≡◌, ◌≢◌, refl, Bool, true, false, List, [], ◌∷◌, ◌++◌, All}
use obarena.Telemetry.Ingester.{
  EventScorePair, Ingester, Attempt, retry, write_attempts, flush_buffer, flush,
}
use obarena.Telemetry.Shutdown.{Process, close_loop, close, shut_down}

-- An attempt in a context that has ended: a write returns its error, and a wait ends at once.
abbrev pub IsEnded : Attempt → Type 0
IsEnded a = (a.is_cancelled ≡ true) × (a.succeeds ≡ false)

write_attempts_ended : (tries : List Attempt) → All IsEnded tries → write_attempts tries ≡ false
unfolding write_attempts retry
write_attempts_ended [] ended = refl
write_attempts_ended (a ∷ []) (one, none_left) = rw (one.1) refl
write_attempts_ended (a ∷ b ∷ tries) (one, (two, more)) = rw (one.1, two.0) refl

module _ {F : Type 0} where
  flush_buffer_ended :
      (tries : List Attempt) (ps : List (EventScorePair F)) (i : Ingester F)
      → All IsEnded tries
      → ps ≢ []
      → (flush_buffer tries ps i).batches ≡ i.batches ++ record { pairs = ps; written = false } ∷ []
  unfolding flush_buffer
  flush_buffer_ended tries [] i ended some_left = absurd (some_left refl)
  flush_buffer_ended tries (p ∷ ps) i ended some_left = rw (write_attempts_ended tries ended) refl

  flush_buffer-empties :
      (tries : List Attempt) (ps : List (EventScorePair F)) (i : Ingester F)
      → i.event_buffer ≡ ps
      → (flush_buffer tries ps i).event_buffer ≡ []
  unfolding flush_buffer
  flush_buffer-empties tries [] i is = is
  flush_buffer-empties tries (p ∷ ps) i is = refl

  -- If an attempt in a context that has ended fails, then the last flush never writes: when the
  -- process stops, what is in the buffer becomes a batch that is not written, and everything is
  -- closed with an empty buffer.
  pub shut_down_drops :
      (tries : Bool → List Attempt) (p : Process F)
      → All IsEnded (tries true)
      → p.consumer.has_ended ≡ true
      → p.consumer.ingester.event_buffer ≢ []
      → let i = p.consumer.ingester in
        let q = shut_down tries p in
        (q.consumer.ingester.batches
          ≡ i.batches ++ record { pairs = i.event_buffer; written = false } ∷ [])
        × (q.consumer.ingester.event_buffer ≡ [])
        × (q.database_open ≡ false)
        × (q.redis_open ≡ false)
  unfolding shut_down close close_loop flush
  shut_down_drops tries p ended stopped some_left = rw stopped (
    flush_buffer_ended (tries true) p.consumer.ingester.event_buffer p.consumer.ingester ended
        some_left,
    flush_buffer-empties (tries true) p.consumer.ingester.event_buffer p.consumer.ingester refl,
    refl,
    refl,
  )
