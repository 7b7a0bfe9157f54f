-- ===== src/Orchestrator/Consumer/Passed.antt =====
-- What the offset of the group of services/bot-orchestrator has passed.
use obarena.Prelude.{
  is_among, ℕ, ◌+◌, ◌≤◌, ◌<◌, ◌≡◌, ap, sym, ◌∙◌, ◌⊎◌, inl, inr, refl, arith, Bool, true, false,
  List, [], ◌∷◌, Option, none, some, All, All-map_of, if-intro, ◌==◌, eq-cases, false≢true,
}
use obarena.Orchestrator.Consumer.{
  Payload, broken, other_type, other_event, sandbox_ready, Consumer, Move, polls, returns, panics,
  restarts, payload_at, leaves, take_record, finish_record, step, run, new_consumer,
}

abbrev is_ready : Option Payload → Bool
is_ready (some (sandbox_ready e)) = true
is_ready _ = false

abbrev pub IsReady : List Payload → ℕ → Type 0
IsReady log o = is_ready (payload_at o log) ≡ true

-- The oldest goroutine returns first, and none panics.
abbrev IsFirst : Move → Consumer → Type 0
IsFirst polls c = Unit
IsFirst (returns o ok) c = All (λ p. o ≤ p) c.running
IsFirst (panics o) c = ⊥
IsFirst restarts c = Unit

abbrev pub InOrder : List Payload → List Move → Consumer → Type 0
InOrder log [] c = Unit
InOrder log (m ∷ ms) c = IsFirst m c × InOrder log ms (step log m c)

-- What has been polled runs or has been handled, and what runs is not behind the group.
record IsTracked (log : List Payload) (c : Consumer) : Type 0 where
  seen :
      (o : ℕ)
      → o < c.position
      → IsReady log o
      → (is_among o c.running ≡ true) ⊎ (is_among o c.handled ≡ true)
  behind : All (λ o. c.committed ≤ o) c.running
  ahead : All (λ o. o < c.position) c.running
  passed : c.committed ≤ c.position

among-leaves :
    (o p : ℕ) (ps : List ℕ) → is_among o ps ≡ true → (o ≡ p) ⊎ (is_among o (leaves p ps) ≡ true)
unfolding leaves
among-leaves o p [] there = inr there
among-leaves o p (q ∷ qs) there = ground (arith, there, among-leaves o p qs)

pub All-leaves : (P : ℕ → Type 0) (o : ℕ) (ps : List ℕ) → All P ps → All P (leaves o ps)
unfolding leaves
All-leaves P o [] all = tt
All-leaves P o (p ∷ ps) all =
    if-intro (All P) (o == p) (leaves o ps) (p ∷ leaves o ps) (λ _. All-leaves P o ps all.1)
      (λ _. (all.0, All-leaves P o ps all.1))

later-leaves : (o : ℕ) (ps : List ℕ) → All (λ p. o ≤ p) ps → All (λ p. o + 1 ≤ p) (leaves o ps)
unfolding leaves
later-leaves o [] all = tt
later-leaves o (p ∷ ps) all =
    if-intro (All (λ q. o + 1 ≤ q)) (o == p) (leaves o ps) (p ∷ leaves o ps)
      (λ _. later-leaves o ps all.1)
      (λ other. (ground (arith, other, all.0), later-leaves o ps all.1))

pub All-among : (P : ℕ → Type 0) (o : ℕ) (ps : List ℕ) → All P ps → is_among o ps ≡ true → P o
All-among P o [] all there = absurd (false≢true there)
All-among P o (p ∷ ps) all there = elim (eq-cases o p) [
  | inl same ↦ rw same all.0
  | inr other ↦ All-among P o ps all.1 (ground (arith, there, other))
]

-- A record that is no sandbox.ready is passed over.
skip-IsTracked :
    (log : List Payload) (c : Consumer)
    → is_ready (payload_at c.position log) ≡ false
    → IsTracked log c
    → IsTracked log (record c { position = c.position + 1 })
skip-IsTracked log c other v = record {
  seen = λ o less ready. elim (eq-cases o c.position) [
    | inl same ↦
        absurd (false≢true (sym other ∙ ap (λ q. is_ready (payload_at q log)) (sym same) ∙ ready))
    | inr older ↦ v.seen o (ground (arith, less, older)) ready
  ];
  behind = v.behind;
  ahead = All-map_of (λ o h. omega (arith, h)) c.running v.ahead;
  passed = omega (arith, v.passed);
}

poll-IsTracked :
    (log : List Payload) (c : Consumer) (p : Option Payload)
    → payload_at c.position log ≡ p
    → IsTracked log c
    → IsTracked log (take_record p c)
unfolding take_record
poll-IsTracked log c none is v = v
poll-IsTracked log c (some (sandbox_ready e)) is v = record {
  seen = λ o less ready. elim (eq-cases o c.position) [
    | inl same ↦ inl (ground (arith, same))
    | inr older ↦ elim (v.seen o (ground (arith, less, older)) ready) [
      | inl runs ↦ inl (ground (arith, runs))
      | inr done ↦ inr done
    ]
  ];
  behind = (v.passed, v.behind);
  ahead = (omega arith, All-map_of (λ o h. omega (arith, h)) c.running v.ahead);
  passed = omega (arith, v.passed);
}
poll-IsTracked log c (some broken) is v = skip-IsTracked log c (ap is_ready is) v
poll-IsTracked log c (some other_type) is v = skip-IsTracked log c (ap is_ready is) v
poll-IsTracked log c (some other_event) is v = skip-IsTracked log c (ap is_ready is) v

finish-IsTracked :
    (log : List Payload) (c : Consumer) (o : ℕ) (ok : Bool)
    → All (λ p. o ≤ p) c.running
    → is_among o c.running ≡ true
    → IsTracked log c
    → IsTracked log (finish_record o ok c)
unfolding finish_record
finish-IsTracked log c o ok first there v = record {
  seen = λ q less ready. elim (eq-cases q o) [
    | inl same ↦ inr (ground (arith, same))
    | inr other ↦ elim (v.seen q less ready) [
      | inl runs ↦ elim (among-leaves q o c.running runs) [
        | inl same ↦ inr (ground (arith, same))
        | inr still ↦ inl still
      ]
      | inr done ↦ inr (ground (arith, done))
    ]
  ];
  behind =
      if-intro (λ n. All (λ p. n ≤ p) (leaves o c.running)) ok (o + 1) c.committed
        (λ _. later-leaves o c.running first)
        (λ _. All-leaves (λ p. c.committed ≤ p) o c.running v.behind);
  ahead = All-leaves (λ p. p < c.position) o c.running v.ahead;
  passed =
      if-intro (λ n. n ≤ c.position) ok (o + 1) c.committed
        (λ _. ground (arith, All-among (λ p. p < c.position) o c.running v.ahead there))
        (λ _. v.passed);
}

restart-IsTracked :
    (log : List Payload) (c : Consumer)
    → IsTracked log c
    → IsTracked log (record c { position = c.committed; running = [] })
restart-IsTracked log c v = record {
  seen = λ o less ready. elim (v.seen o (omega (arith, less, v.passed)) ready) [
    | inl runs ↦
        absurd (ground (arith, less, All-among (λ p. c.committed ≤ p) o c.running v.behind runs))
    | inr done ↦ inr done
  ];
  behind = tt;
  ahead = tt;
  passed = omega arith;
}

step-IsTracked :
    (log : List Payload) (m : Move) (c : Consumer)
    → IsFirst m c
    → IsTracked log c
    → IsTracked log (step log m c)
unfolding step
step-IsTracked log polls c first v = poll-IsTracked log c (payload_at c.position log) refl v
step-IsTracked log (returns o ok) c first v =
    if-intro (IsTracked log) (is_among o c.running) (finish_record o ok c) c
      (λ there. finish-IsTracked log c o ok first there v) (λ _. v)
step-IsTracked log (panics o) c first v = absurd first
step-IsTracked log restarts c first v = restart-IsTracked log c v

run-IsTracked :
    (log : List Payload) (ms : List Move) (c : Consumer)
    → InOrder log ms c
    → IsTracked log c
    → IsTracked log (run log ms c)
unfolding run
run-IsTracked log [] c order v = v
run-IsTracked log (m ∷ ms) c order v =
    run-IsTracked log ms (step log m c) order.1 (step-IsTracked log m c order.0 v)

-- If of the goroutines that run at once the oldest returns first, and none panics, then whatever
-- commits fail and whenever the process starts again: each sandbox.ready that the group has passed
-- has been handled.
pub run-handles_passed :
    (log : List Payload) (ms : List Move) (o : ℕ)
    → InOrder log ms new_consumer
    → o < (run log ms new_consumer).committed
    → IsReady log o
    → is_among o (run log ms new_consumer).handled ≡ true
unfolding new_consumer
run-handles_passed log ms o order less ready =
    let v = run-IsTracked log ms new_consumer order (record {
      seen = λ o less ready. absurd (omega (arith, less));
      behind = tt;
      ahead = tt;
      passed = omega arith;
    }) in
    elim (v.seen o (omega (arith, less, v.passed)) ready) [
      | inl runs ↦ absurd (
          ground (
            arith,
            less,
            All-among (λ p. (run log ms new_consumer).committed ≤ p) o
                (run log ms new_consumer).running v.behind runs,
          ))
      | inr done ↦ done
    ]
