-- ===== src/Sandbox/Consumer/Skipped.antt =====
-- A record that a poll of services/sandbox-orchestrator brings beside an error.
use obarena.Prelude.{
  ℕ, ◌+◌, ◌<◌, ◌≡◌, arith, true, false, not, if-intro, is_among, List, [], ◌∷◌, ◌++◌,
}
use obarena.Sandbox.Consumer.{
  Delivery, Poll, cancelled, fails, brings, Consumer, Ending, handle_payload, done, take_records,
  goes_on, polled, poll_loop,
}

-- The group and the process are past the offset, and it is not handled.
record IsSkipped (o : ℕ) (c : Consumer) : Type 0 where
  unhandled : is_among o c.handled ≡ false
  behind : o < c.committed
  polled : o < c.position

among-append :
    (o p : ℕ) (ps : List ℕ) → o < p → is_among o ps ≡ false → is_among o (ps ++ p ∷ []) ≡ false
among-append o p [] less without = ground (arith, less)
among-append o p (q ∷ qs) less without = ground (arith, without, among-append o p qs less)

take_records-IsSkipped :
    (o offset : ℕ) (ds : List Delivery) (c : Consumer)
    → o < offset
    → IsSkipped o c
    → IsSkipped o (take_records offset ds c).1
unfolding take_records
take_records-IsSkipped o offset [] c less v = v
take_records-IsSkipped o offset (d ∷ ds) c less v =
    let r = handle_payload d.answers d.payload c.state in
    let unhandled = among-append o offset c.handled less v.unhandled in
    let P : Ending × Consumer → Type 0 = λ (r : Ending × Consumer). IsSkipped o r.1 in
    if-intro P (not r.0) _ _
      (λ _. record { unhandled = v.unhandled; behind = v.behind; polled = v.polled })
      (λ _.
        if-intro P d.commits _ _
          (λ _.
            take_records-IsSkipped o (offset + 1) ds
              (record (done offset r.1 c) { committed = offset + 1 }) (omega (arith, less))
              (record { unhandled = unhandled; behind = omega (arith, less); polled = v.polled }))
          (λ _. record { unhandled = unhandled; behind = v.behind; polled = v.polled }))

polled-IsSkipped :
    (o : ℕ) (ds : List Delivery) (c : Consumer) → IsSkipped o c → IsSkipped o (polled ds c)
polled-IsSkipped o ds c v = record {
  unhandled = v.unhandled;
  behind = v.behind;
  polled = omega (arith, v.polled);
}

poll_loop-IsSkipped :
    (o : ℕ) (ps : List Poll) (c : Consumer) → IsSkipped o c → IsSkipped o (poll_loop ps c).1
unfolding poll_loop
poll_loop-IsSkipped o [] c v = v
poll_loop-IsSkipped o (cancelled ∷ ps) c v = v
poll_loop-IsSkipped o (fails ends ds ∷ ps) c v =
    let v' = polled-IsSkipped o ds c v in
    if-intro (λ (r : Ending × Consumer). IsSkipped o r.1) ends _ _ (λ _. v')
      (λ _. poll_loop-IsSkipped o ps (polled ds c) v')
poll_loop-IsSkipped o (brings ds ∷ ps) c v =
    let r = take_records c.position ds (polled ds c) in
    let v' =
      take_records-IsSkipped o c.position ds (polled ds c) v.polled (polled-IsSkipped o ds c v) in
    if-intro (λ (r : Ending × Consumer). IsSkipped o r.1) (goes_on r.0) _ _
      (λ _. poll_loop-IsSkipped o ps r.1 v') (λ _. v')

take_first-IsSkipped :
    (o offset : ℕ) (e : Delivery) (es : List Delivery) (c : Consumer)
    → o < offset
    → o < c.position
    → is_among o c.handled ≡ false
    → (handle_payload e.answers e.payload c.state).0 ≡ true
    → e.commits ≡ true
    → IsSkipped o (take_records offset (e ∷ es) c).1
unfolding take_records
take_first-IsSkipped o offset e es c less at new ok commits =
    let r = handle_payload e.answers e.payload c.state in
    let P : Ending × Consumer → Type 0 = λ (r : Ending × Consumer). IsSkipped o r.1 in
    if-intro P (not r.0) _ _ (λ no. absurd (ground (arith, no, ok)))
      (λ _.
        if-intro P e.commits _ _
          (λ _.
            take_records-IsSkipped o (offset + 1) es
              (record (done offset r.1 c) { committed = offset + 1 }) (omega (arith, less))
              (record {
                unhandled = among-append o offset c.handled less new;
                behind = omega (arith, less);
                polled = at;
              }))
          (λ no. absurd (ground (arith, no, commits))))

-- If a poll brings a record beside an error, and the next poll brings one that is handled and
-- committed, then whatever comes after: the first record is not handled, and the group is past it.
pub skipped_for_good :
    (c : Consumer) (d e : Delivery) (ds es : List Delivery) (ps : List Poll)
    → is_among c.position c.handled ≡ false
    → (handle_payload e.answers e.payload c.state).0 ≡ true
    → e.commits ≡ true
    → let c' = (poll_loop (fails false (d ∷ ds) ∷ brings (e ∷ es) ∷ ps) c).1 in
      (is_among c.position c'.handled ≡ false) × (c.position < c'.committed)
unfolding poll_loop
skipped_for_good c d e ds es ps new ok commits =
    let next = polled (d ∷ ds) c in
    let less : c.position < next.position = omega arith in
    let r = take_records next.position (e ∷ es) (polled (e ∷ es) next) in
    let v =
      take_first-IsSkipped c.position next.position e es (polled (e ∷ es) next) less (omega arith)
        new ok commits in
    let last : IsSkipped c.position (poll_loop (brings (e ∷ es) ∷ ps) next).1 =
      if-intro (λ (r : Ending × Consumer). IsSkipped c.position r.1) (goes_on r.0) _ _
        (λ _. poll_loop-IsSkipped c.position ps r.1 v) (λ _. v) in
    (last.unhandled, last.behind)
