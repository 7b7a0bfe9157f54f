-- ===== src/Sandbox/Consumer/Passed.antt =====
-- What the offset of the group of services/sandbox-orchestrator has passed.
use obarena.Prelude.{
  ℕ, zero, suc, ◌+◌, ◌≡◌, ◌⊎◌, inl, inr, refl, ap, ◌∙◌, arith, true, false≢true, not, if-intro,
  length, List, [], ◌∷◌, ◌++◌,
}
use obarena.Sandbox.{State}
use obarena.Sandbox.Consumer.{
  Delivery, Poll, cancelled, fails, brings, Consumer, Ending, goes_on, handle_payload, done,
  take_records, polled, poll_loop,
}

-- The offsets from one on.
unfoldable pub offsets : ℕ → ℕ → List ℕ
offsets from zero = []
offsets from (suc n) = from ∷ offsets (from + 1) n

offsets-append : (from n : ℕ) → offsets from n ++ (from + n) ∷ [] ≡ offsets from (suc n)
unfolding offsets
offsets-append from zero = ap (λ o. o ∷ []) (omega arith)
offsets-append from (suc n) =
    ap (λ os. from ∷ os)
      (ap (λ o. offsets (from + 1) n ++ o ∷ []) (omega arith) ∙ offsets-append (from + 1) n)

-- Where the consumer stands: `n` records are handled from `from` on, and committed, the last one
-- perhaps not.
pub record IsPassed (from n : ℕ) (c : Consumer) : Type 0 where
  pub handled : c.handled ≡ offsets from n
  pub committed : (c.committed ≡ from + n) ⊎ (c.committed + 1 ≡ from + n)

-- Between two records, the last one is committed.
record IsLevel (from n : ℕ) (c : Consumer) : Type 0 where
  handled : c.handled ≡ offsets from n
  committed : c.committed ≡ from + n

-- What the records of a poll lead to, where `total` are handled if the loop goes on.
record IsTaken (from total at : ℕ) (r : Ending × Consumer) : Type 0 where
  count : ℕ
  passed : IsPassed from count r.1
  position : r.1.position ≡ at
  level : goes_on r.0 ≡ true → IsLevel from total r.1

done-handled :
    (from n offset : ℕ) (s : State) (c : Consumer)
    → offset ≡ from + n
    → c.handled ≡ offsets from n
    → (done offset s c).handled ≡ offsets from (suc n)
done-handled from n offset s c at h =
    ap (λ os. os ++ offset ∷ []) h ∙ ap (λ o. offsets from n ++ o ∷ []) at ∙ offsets-append from n

take_records-IsTaken :
    (from n offset : ℕ) (ds : List Delivery) (c : Consumer)
    → offset ≡ from + n
    → IsLevel from n c
    → IsTaken from (n + length ds) c.position (take_records offset ds c)
unfolding take_records
take_records-IsTaken from n offset [] c at v = record {
  count = n;
  passed = record { handled = v.handled; committed = inl v.committed };
  position = refl;
  level = λ _. record {
    handled = v.handled ∙ ap (offsets from) (omega arith);
    committed = omega (arith, v.committed);
  };
}
take_records-IsTaken from n offset (d ∷ ds) c at v =
    let r = handle_payload d.answers d.payload c.state in
    let total : n + length (d ∷ ds) ≡ suc n + length ds = omega arith in
    if-intro (IsTaken from (n + length (d ∷ ds)) c.position) (not r.0) _ _
      (λ _. record {
        count = n;
        passed = record { handled = v.handled; committed = inl v.committed };
        position = refl;
        level = λ on. absurd (false≢true on);
      })
      (λ _.
        if-intro (IsTaken from (n + length (d ∷ ds)) c.position) d.commits _ _
          (λ _. rw total (
            take_records-IsTaken from (suc n) (offset + 1) ds
              (record (done offset r.1 c) { committed = offset + 1 }) (omega (arith, at))
              (record {
                handled = done-handled from n offset r.1 c at v.handled;
                committed = omega (arith, at);
              })))
          (λ _. record {
            count = suc n;
            passed = record {
              handled = done-handled from n offset r.1 c at v.handled;
              committed = inr (omega (arith, v.committed));
            };
            position = refl;
            level = λ on. absurd (false≢true on);
          }))

-- No poll that has an error brings records.
abbrev pub IsClean : List Poll → Type 0
IsClean [] = Unit
IsClean (cancelled ∷ ps) = IsClean ps
IsClean (fails ends [] ∷ ps) = IsClean ps
IsClean (fails ends (d ∷ ds) ∷ ps) = ⊥
IsClean (brings ds ∷ ps) = IsClean ps

level-IsPassed : (from n : ℕ) (c : Consumer) → IsLevel from n c → IsPassed from n c
level-IsPassed from n c v = record { handled = v.handled; committed = inl v.committed }

poll_loop-IsPassed :
    (from n : ℕ) (ps : List Poll) (c : Consumer)
    → IsClean ps
    → c.position ≡ from + n
    → IsLevel from n c
    → (m : ℕ) × IsPassed from m (poll_loop ps c).1
unfolding poll_loop
poll_loop-IsPassed from n [] c clean at v = (n, level-IsPassed from n c v)
poll_loop-IsPassed from n (cancelled ∷ ps) c clean at v = (n, level-IsPassed from n c v)
poll_loop-IsPassed from n (fails ends [] ∷ ps) c clean at v =
    if-intro (λ (r : Ending × Consumer). (m : ℕ) × IsPassed from m r.1) ends _ _
      (λ _. (n, record { handled = v.handled; committed = inl v.committed }))
      (λ _.
        poll_loop-IsPassed from n ps (polled [] c) clean (omega (arith, at))
          (record { handled = v.handled; committed = v.committed }))
poll_loop-IsPassed from n (fails ends (d ∷ ds) ∷ ps) c clean at v = absurd clean
poll_loop-IsPassed from n (brings ds ∷ ps) c clean at v =
    let t =
      take_records-IsTaken from n c.position ds (polled ds c) at
        (record { handled = v.handled; committed = v.committed }) in
    let r = take_records c.position ds (polled ds c) in
    if-intro (λ (r : Ending × Consumer). (m : ℕ) × IsPassed from m r.1) (goes_on r.0) _ _
      (λ on.
        poll_loop-IsPassed from (n + length ds) ps r.1 clean (omega (arith, t.position, at))
          (t.level on))
      (λ _. (t.count, t.passed))

-- If no poll with an error brings records, then wherever the group stands and whatever fails: the
-- records that are handled are the next ones, each once and in their order, and the group is past
-- them, the last one perhaps not, and past no other.
pub passes_in_order :
    (ps : List Poll) (c : Consumer)
    → IsClean ps
    → c.handled ≡ []
    → c.position ≡ c.committed
    → (m : ℕ) × IsPassed c.committed m (poll_loop ps c).1
unfolding offsets
passes_in_order ps c clean none_yet at =
    poll_loop-IsPassed c.committed 0 ps c clean (omega (arith, at))
      (record { handled = none_yet; committed = omega arith })
