-- ===== src/Runner/Correctness/Score.antt =====
-- What the score of the correctness bot means, whatever answers it.
use obarena.Prelude.{
  ℕ, ◌+◌, ◌≤◌, ◌<◌, ◌≡◌, ◌⊎◌, inl, inr, refl, arith, String, Bool, true, false, ltb, Dict, List, [],
  ◌∷◌, length, length-append, sum_of, All, Bool-cases, some-cases,
}
use obarena.Engine.Message
use obarena.Engine.Message.{zero_price}
use obarena.Runner.Sequence.{
  Step, Sequence, correctness_sequences, cx_basic_match, cx_priority_fill, cx_partial_fill,
  cx_cancel, cx_reject_market_no_liquidity, float64,
}
use obarena.Runner.Correctness.{
  Service, Failure, Got, Tally, nothing, assert, plus, when, is_cancel, is_positive, is_natural,
  check_cancel, check_reject, check_levels, check_fill, check_book, check_step, read_replies,
  message_of, run_step, run_steps, run_sequence, run_sequences, result_of, run_correctness,
}

abbrev bit : Bool → ℕ
bit true = 1
bit false = 0

abbrev if_so : Bool → ℕ → ℕ
if_so true n = n
if_so false n = 0

-- How many assertions a step, a sequence has.
pub assertions_of : Step → ℕ
assertions_of s =
    bit (is_cancel s.kind)
    + (if_so s.expect_fill
          (1 + (bit (ltb zero_price s.expect_fill_price) + bit (is_positive s.expect_fill_qty)))
        + (bit s.expect_reject
            + (bit (is_natural s.expect_book_bids) + bit (is_natural s.expect_book_asks))))

abbrev pub assertions : Sequence → ℕ
assertions seq = sum_of assertions_of seq.steps

-- No more results than assertions, and without a failure all of them have passed.
IsTallied : ℕ → Tally → Type 0
IsTallied n t = (t.0 + length t.1 ≤ n) × ((n ≤ t.0) ⊎ (0 < length t.1))

plus-IsTallied :
    (m n : ℕ) (s t : Tally) → IsTallied m s → IsTallied n t → IsTallied (m + n) (plus s t)
unfolding IsTallied
plus-IsTallied m n s t hs ht = ground (arith, hs, ht, length-append s.1 t.1)

assert-IsTallied : (b : Bool) (f : Failure) → IsTallied 1 (assert b f)
unfolding IsTallied
assert-IsTallied b f = ground arith

when-IsTallied : (b : Bool) (n : ℕ) (t : Tally) → IsTallied n t → IsTallied (if_so b n) (when b t)
unfolding IsTallied
when-IsTallied b n t h = ground (arith, h)

when-assert-IsTallied : (b c : Bool) (f : Failure) → IsTallied (bit b) (when b (assert c f))
unfolding IsTallied
when-assert-IsTallied b c f = ground arith

failed-IsTallied : (n : ℕ) (f : Failure) → 0 < n → IsTallied n (0, f ∷ [])
unfolding IsTallied
failed-IsTallied n f h = ground arith

-- A sequence that has ended early has failed, whatever was left.
ended-IsTallied : (m n : ℕ) (t : Tally) → IsTallied m t → 0 < length t.1 → IsTallied (m + n) t
unfolding IsTallied
ended-IsTallied m n t h failed = ground (arith, h, failed)

-- What a sequence has to be.
abbrev IsChecking : Sequence → Type 0
IsChecking seq = (0 < assertions seq) × All (λ s. 0 < assertions_of s) seq.steps

correctness_sequences-IsChecking : All IsChecking correctness_sequences
unfolding correctness_sequences cx_basic_match cx_priority_fill cx_partial_fill cx_cancel
    cx_reject_market_no_liquidity float64 assertions_of
correctness_sequences-IsChecking = ground arith

sum_of-assertions : sum_of assertions correctness_sequences ≡ 33
unfolding correctness_sequences cx_basic_match cx_priority_fill cx_partial_fill cx_cancel
    cx_reject_market_no_liquidity float64 assertions_of
sum_of-assertions = refl

check_levels-IsTallied :
    (i : ℕ) (s : Step) (levels : ℕ × ℕ)
    → IsTallied
        (bit (is_natural s.expect_book_bids) + bit (is_natural s.expect_book_asks))
        (check_levels i s levels)
unfolding check_levels
check_levels-IsTallied i s (bids, asks) =
    plus-IsTallied (bit (is_natural s.expect_book_bids)) (bit (is_natural s.expect_book_asks)) _ _
      (when-assert-IsTallied _ _ _) (when-assert-IsTallied _ _ _)

result_of-IsTallied :
    (t : Tally)
    → IsTallied 33 t
    → let r = result_of t in (r.total_assertions ≤ 33) × ((r.passed ≡ 33) ⊎ (0 < r.failed))
unfolding result_of IsTallied
result_of-IsTallied t h = ground (arith, h)

module _ (is_apart : ℕ → ℕ → Bool) where
  check_fill-IsTallied :
      (i : ℕ) (s : Step) (got : Got)
      → IsTallied
          (if_so s.expect_fill
            (1 + (bit (ltb zero_price s.expect_fill_price) + bit (is_positive s.expect_fill_qty))))
          (check_fill is_apart i s got)
  unfolding check_fill IsTallied
  check_fill-IsTallied i s got = ground arith

  module _ {S : Type 0} (service : Service S) where
    check_book-IsTallied :
        (i : ℕ) (s : Step) (state : S)
        → IsTallied
            (bit (is_natural s.expect_book_bids) + bit (is_natural s.expect_book_asks))
            (check_book is_apart service i s state).0
    unfolding check_book IsTallied
    check_book-IsTallied i s state = elim (some-cases (service.query state).0) [
      | inl failed ↦ ground (arith, failed)
      | inr (levels, answered) ↦ ground (arith, answered, check_levels-IsTallied i s levels)
    ]

    check_step-IsTallied :
        (i : ℕ) (s : Step) (got : Got) (state : S)
        → IsTallied (assertions_of s) (check_step is_apart service i s got state).0
    unfolding check_step assertions_of check_cancel check_reject
    check_step-IsTallied i s got state = plus-IsTallied _ _ _ _ (when-assert-IsTallied _ _ _) (
        plus-IsTallied _ _ _ _ (check_fill-IsTallied i s got)
          (plus-IsTallied _ _ _ _ (when-assert-IsTallied _ _ _) (check_book-IsTallied i s state)))

    -- A step that ends the sequence has failed.
    run_step-IsTallied :
        (i : ℕ) (s : Step) (msg : Message.IncomingMessage) (state : S)
        → 0 < assertions_of s
        → let r = (run_step is_apart service i s msg state).0 in
          IsTallied (assertions_of s) r.0 × ((r.1 ≡ true) ⊎ (0 < length r.0.1))
    unfolding run_step
    run_step-IsTallied i s msg state some_assertion =
        let sent = service.write msg state in
        elim (Bool-cases sent.0) [
          | inr unsent ↦
              rw (unsent, run_step)
                (failed-IsTallied (assertions_of s) _ some_assertion, inr (omega arith))
          | inl ok ↦
              elim (some-cases (read_replies is_apart service service.reads s nothing sent.1).0) [
                | inl ended ↦
                    rw (ok, run_step, ended)
                      (failed-IsTallied (assertions_of s) _ some_assertion, inr (omega arith))
                | inr (got, answered) ↦
                    rw (ok, run_step, answered) (check_step-IsTallied i s got _, inl refl)
              ]
        ]

    run_steps-IsTallied :
        (i : ℕ) (steps : List Step) (tags : Dict String) (state : S)
        → All (λ s. 0 < assertions_of s) steps
        → IsTallied (sum_of assertions_of steps) (run_steps is_apart service i steps tags state).0
    unfolding run_steps
    run_steps-IsTallied i [] tags state all = unfold IsTallied in ground arith
    run_steps-IsTallied i (s ∷ steps) tags state (one, all) =
        let sending = message_of is_apart service i s.kind s tags in
        elim (some-cases sending.0) [
          | inl unknown ↦
              rw (unknown, run_steps)
                (plus-IsTallied (assertions_of s) (sum_of assertions_of steps) _ _
                  (failed-IsTallied (assertions_of s) _ one)
                  (run_steps-IsTallied (i + 1) steps sending.1 state all))
          | inr (msg, known) ↦
              let (now, ends) = run_step-IsTallied i s msg state one in
              let r = run_step is_apart service i s msg state in
              let later = run_steps-IsTallied (i + 1) steps sending.1 r.1 all in
              elim (Bool-cases r.0.1) [
                | inl goes_on ↦ rw (known, run_steps, goes_on) (plus-IsTallied _ _ _ _ now later)
                | inr stops ↦
                    rw (known, run_steps, stops)
                      (ended-IsTallied (assertions_of s) (sum_of assertions_of steps) r.0.0 now
                        (ground (arith, ends, stops)))
              ]
        ]

    run_sequence-IsTallied :
        (seq : Sequence) (state : S)
        → IsChecking seq
        → IsTallied (assertions seq) (run_sequence is_apart service seq state).0
    unfolding run_sequence
    run_sequence-IsTallied seq state (some_assertion, all) =
        elim (Bool-cases (service.dial state).0) [
          | inl connected ↦ rw connected (run_steps-IsTallied 0 seq.steps [] _ all)
          | inr refused ↦ rw refused (failed-IsTallied (assertions seq) _ some_assertion)
        ]

    run_sequences-IsTallied :
        (seqs : List Sequence) (state : S)
        → All IsChecking seqs
        → IsTallied (sum_of assertions seqs) (run_sequences is_apart service seqs state).0
    unfolding run_sequences
    run_sequences-IsTallied [] state all = unfold IsTallied in ground arith
    run_sequences-IsTallied (seq ∷ seqs) state (one, all) =
        let (tally, state') = run_sequence is_apart service seq state in
        plus-IsTallied _ _ _ _ (run_sequence-IsTallied seq state one)
          (run_sequences-IsTallied seqs state' all)

    -- Whatever answers the bot: it counts no more than 33 assertions, and if none has failed, all
    -- 33 have passed.
    pub run_correctness-counts :
        (state : S)
        → let r = run_correctness is_apart service state in
          (r.total_assertions ≤ 33) × ((r.passed ≡ 33) ⊎ (0 < r.failed))
    unfolding run_correctness
    run_correctness-counts state =
        result_of-IsTallied (run_sequences is_apart service correctness_sequences state).0 (
          rw sum_of-assertions at
            (run_sequences-IsTallied correctness_sequences state correctness_sequences-IsChecking))
