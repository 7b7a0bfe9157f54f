-- ===== src/Orchestrator/Consumer/Lost.antt =====
-- A test of services/bot-orchestrator that the process has not finished when a later one commits.
use obarena.Prelude.{
  is_among, ℕ, ◌+◌, ◌<◌, ◌≡◌, arith, Bool, true, false, if-intro, List, [], ◌∷◌, Option, none, some,
  All,
}
use obarena.Orchestrator.Consumer.{
  Payload, broken, other_type, other_event, sandbox_ready, Consumer, Move, polls, returns, panics,
  restarts, payload_at, take_record, finish_record, step, run,
}
use obarena.Orchestrator.Consumer.Passed.{All-leaves, All-among}

-- The group and the process are past the offset, and it is not handled.
record IsLost (o : ℕ) (c : Consumer) : Type 0 where
  unhandled : is_among o c.handled ≡ false
  behind : o < c.committed
  polled : o < c.position
  later : All (λ p. o < p) c.running

take_record-IsLost :
    (o : ℕ) (p : Option Payload) (c : Consumer) → IsLost o c → IsLost o (take_record p c)
unfolding take_record
take_record-IsLost o none c v = v
take_record-IsLost o (some (sandbox_ready e)) c v = record {
  unhandled = v.unhandled;
  behind = v.behind;
  polled = omega (arith, v.polled);
  later = (v.polled, v.later);
}
take_record-IsLost o (some broken) c v = record {
  unhandled = v.unhandled;
  behind = v.behind;
  polled = omega (arith, v.polled);
  later = v.later;
}
take_record-IsLost o (some other_type) c v = record {
  unhandled = v.unhandled;
  behind = v.behind;
  polled = omega (arith, v.polled);
  later = v.later;
}
take_record-IsLost o (some other_event) c v = record {
  unhandled = v.unhandled;
  behind = v.behind;
  polled = omega (arith, v.polled);
  later = v.later;
}

finish_record-IsLost :
    (o p : ℕ) (ok : Bool) (c : Consumer) → o < p → IsLost o c → IsLost o (finish_record p ok c)
unfolding finish_record
finish_record-IsLost o p ok c less v = record {
  unhandled = ground (arith, less, v.unhandled);
  behind = if-intro (λ n. o < n) ok (p + 1) c.committed (λ _. omega (arith, less)) (λ _. v.behind);
  polled = v.polled;
  later = All-leaves (λ q. o < q) p c.running v.later;
}

step-IsLost :
    (log : List Payload) (o : ℕ) (m : Move) (c : Consumer) → IsLost o c → IsLost o (step log m c)
unfolding step
step-IsLost log o polls c v = take_record-IsLost o (payload_at c.position log) c v
step-IsLost log o (returns p ok) c v =
    if-intro (IsLost o) (is_among p c.running) (finish_record p ok c) c
      (λ there. finish_record-IsLost o p ok c (All-among (λ q. o < q) p c.running v.later there) v)
      (λ _. v)
step-IsLost log o (panics p) c v = record {
  unhandled = v.unhandled;
  behind = v.behind;
  polled = v.polled;
  later = All-leaves (λ q. o < q) p c.running v.later;
}
step-IsLost log o restarts c v = record {
  unhandled = v.unhandled;
  behind = v.behind;
  polled = v.behind;
  later = tt;
}

run-IsLost :
    (log : List Payload) (o : ℕ) (ms : List Move) (c : Consumer)
    → IsLost o c
    → IsLost o (run log ms c)
unfolding run
run-IsLost log o [] c v = v
run-IsLost log o (m ∷ ms) c v = run-IsLost log o ms (step log m c) (step-IsLost log o m c v)

-- If the goroutine of a later record returns and commits before a record has been handled, and the
-- process then starts again, then the earlier record is never handled, whatever comes.
pub overtaken_for_good :
    (log : List Payload) (o p : ℕ) (ms : List Move) (c : Consumer)
    → o < p
    → is_among p c.running ≡ true
    → is_among o c.handled ≡ false
    → is_among o (run log ms (run log (returns p true ∷ restarts ∷ []) c)).handled ≡ false
unfolding run step finish_record
overtaken_for_good log o p ms c less runs waits =
    let v : IsLost o (run log (returns p true ∷ restarts ∷ []) c) = rw runs (record {
      unhandled = ground (arith, less, waits);
      behind = omega (arith, less);
      polled = omega (arith, less);
      later = tt;
    }) in
    (run-IsLost log o ms (run log (returns p true ∷ restarts ∷ []) c) v).unhandled
