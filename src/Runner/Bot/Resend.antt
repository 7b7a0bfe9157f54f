-- ===== src/Runner/Bot/Resend.antt =====
-- What the orders that are counted and not pending do to the writer, and how a failed write makes
-- one.
use obarena.Prelude.{
  ℕ, ◌+◌, ◌<◌, ◌≡◌, refl, ◌∙◌, arith, pos, String, Bool, true, false, insert, Dict, delete, List,
  [], ◌∷◌, eq_iff,
}
use obarena.Runner.Sequence.{StepKind, step_order, step_cancel, Step, order_id}
use obarena.Runner.Bot.{
  Bot, Phase, dialing, between, writing, is_full, settle, stale, clear_loop, clear, write,
  send_order, send_cancel, send_step, Event, dials, begins, writes, receives, clears, answer,
  receive, act, step, run,
}
use obarena.Runner.Bot.InFlight.{IsHeld, IsHeld-full, act-Grows}

module _ {H : Type 0} where
  clear_loop-sent :
      (now : ℕ) (m : Dict ℕ) (b : Bot H)
      → (clear_loop now m b).metrics.orders_sent ≡ b.metrics.orders_sent
  unfolding clear_loop
  clear_loop-sent now [] b = refl
  clear_loop-sent now ((oid, sent_at) ∷ m) b =
      ground (arith, clear_loop-sent now m b, clear_loop-sent now m (stale (settle oid b)))

  send_step-sent :
      (now : ℕ) (ok : Bool) (kind : StepKind) (s : Step) (todo : List Step) (b : Bot H)
      → is_full b.in_flight ≡ true
      → (send_step now ok kind s todo b).metrics.orders_sent ≡ b.metrics.orders_sent
  unfolding send_step send_order send_cancel write
  send_step-sent now ok step_order s todo b full = ground arith
  send_step-sent now ok step_cancel s todo b full = ground arith

module _ {H : Type 0} (record_value : ℕ → H → H) where
  act-sent :
      (e : Event) (p : Phase) (b : Bot H)
      → is_full b.in_flight ≡ true
      → (act record_value e p b).metrics.orders_sent ≡ b.metrics.orders_sent
  unfolding act clear receive answer
  act-sent (dials ok) dialing b full = ground arith
  act-sent (begins failed) between b full = ground arith
  act-sent (writes now ok) (writing []) b full = refl
  act-sent (writes now ok) (writing (s ∷ todo)) b full = send_step-sent now ok s.kind s todo b full
  act-sent (receives now msg) p b full = ground arith
  act-sent (clears now) p b full = clear_loop-sent now b.pending b
  act-sent _ _ b full = refl

  -- Once 21 orders are counted that are not pending, no schedule sends another order.
  run-stuck :
      (es : List Event) (k : ℕ) (b : Bot H)
      → 20 < k
      → IsHeld k b.pending b.in_flight
      → (run record_value es b).metrics.orders_sent ≡ b.metrics.orders_sent
  unfolding run step
  run-stuck [] k b many h = refl
  run-stuck (e ∷ es) k b many h =
      let (k', more, h') = act-Grows record_value e b.phase k b h in
      run-stuck es k' (step record_value e b) (omega (arith, more, many)) h'
      ∙ act-sent e b.phase b (IsHeld-full k b.pending b.in_flight many h)

delete-twice : (k : String) (m : Dict ℕ) → delete k (delete k m) ≡ delete k m
unfolding delete
delete-twice k [] = refl
delete-twice k ((j, v) ∷ m) = ground (arith, delete-twice k m)

-- A write of the first order of a round that fails, and the round after the next connection.
abbrev pub resend : ℕ → ℕ → List Event
resend now later = writes now false ∷ dials true ∷ begins false ∷ writes later true ∷ []

module _ {H : Type 0} (record_value : ℕ → H → H) where
  -- The order has the id that it had, so it is pending once and counted twice.
  pub run-resend :
      (now later n : ℕ) (s : Step) (todo : List Step) (b : Bot H)
      → b.phase ≡ writing (s ∷ todo)
      → b.steps ≡ s ∷ todo
      → s.kind ≡ step_order
      → b.in_flight ≡ pos n
      → n < 20
      → let b' = run record_value (resend now later) b in
        (b'.pending ≡ insert (order_id b.id b.iteration s.tag) later b.pending)
        × (b'.in_flight ≡ pos (n + 2))
        × (b'.metrics.orders_sent ≡ b.metrics.orders_sent + 2)
  unfolding run step act send_step send_order write insert delete
  run-resend now later n s todo b at_first whole is_order flight room =
      let oid = order_id b.id b.iteration s.tag in
      ground
        (arith, at_first, whole, is_order, flight, room, delete-twice oid b.pending, eq_iff oid oid)
