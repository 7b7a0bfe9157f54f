-- ===== src/Runner/Correctness.antt =====
-- The correctness bot of services/bot-runner: `runSequence` and `Run` of correctness_bot.go.
--
-- What the bot talks to is a `Service`: its operations are what the WebSocket, the HTTP client and
-- the context answer. A failure is a value in place of its text.
pub mod Score
pub mod Stub
use Prim.Native.String.{◌++◌}
use obarena.Prelude.{
  ℕ, zero, suc, ◌+◌, ℤ, pos, negsuc, String, str_eq, Bool, true, false, not, ◌&&◌, ◌||◌, ltb, ◌==◌,
  if◌then◌else◌, Dict, lookup, insert, List, [], ◌∷◌, ◌++◌ as append, length, Option, none, some,
}
use obarena.Engine.Message
use obarena.Engine.Message.{zero_price}
use obarena.Runner.Sequence.{
  StepKind, step_order, step_cancel, Step, Sequence, itoa, correctness_sequences,
}
use obarena.Runner.Bot.{IncomingMessage, order_message, cancel_message}

-- `read`: an error, or a message, which is `none` if it does not decode. `is_cancelled` is
-- `ctx.Err() != nil`. `query` is `queryOrderbook`, `reads` the reads that a step has time for.
pub record Service (S : Type 0) : Type 0 where
  pub dial : S → Bool × S
  pub write : Message.IncomingMessage → S → Bool × S
  pub read : S → Option (Option IncomingMessage) × S
  pub query : S → Option (ℕ × ℕ) × S
  pub close : S → S
  pub is_cancelled : S → Bool
  pub reads : ℕ

pub data Failure : Type 0 where
  no_connection : Failure
  no_cancel_tag no_write cancelled no_cancel_ack no_fill bad_fill_price bad_fill_qty : ℕ → Failure
  no_reject no_book bad_bids bad_asks : ℕ → Failure

-- What a step has been answered so far.
pub record Got : Type 0 where
  pub fill : Bool
  pub fill_price : ℕ
  pub fill_qty : ℤ
  pub reject : Bool
  pub ack : Bool
  pub cancel_ack : Bool

abbrev pub nothing : Got
nothing = record {
  fill = false;
  fill_price = zero_price;
  fill_qty = pos 0;
  reject = false;
  ack = false;
  cancel_ack = false;
}

-- The `switch` on the type of a message.
unfoldable pub note : IncomingMessage → Got → Got
note msg got =
    if str_eq msg.type "ack"
    then record got { ack = true }
    else if str_eq msg.type "fill"
    then record got { fill = true; fill_price = msg.fill_price; fill_qty = msg.filled_qty }
    else if str_eq msg.type "reject"
    then record got { reject = true }
    else if str_eq msg.type "cancel_ack"
    then record got { cancel_ack = true }
    else got

abbrev pub is_cancel : StepKind → Bool
is_cancel step_order = false
is_cancel step_cancel = true

-- The step has the answers that it waits for.
unfoldable pub is_answered : Step → Got → Bool
is_answered s got =
    is_cancel s.kind && got.cancel_ack
    || s.expect_reject && got.reject
    || s.expect_fill && got.ack && got.fill
    || not s.expect_fill && not s.expect_reject && got.ack

abbrev pub is_positive : ℤ → Bool
is_positive (pos n) = ltb 0 n
is_positive (negsuc _) = false

abbrev pub is_natural : ℤ → Bool
is_natural (pos _) = true
is_natural (negsuc _) = false

abbrev pub eq_int : ℤ → ℤ → Bool
eq_int (pos m) (pos n) = m == n
eq_int (negsuc m) (negsuc n) = m == n
eq_int _ _ = false

-- What assertions add up to: how many passed, and the failures.
abbrev pub Tally : Type 0
Tally = ℕ × List Failure

abbrev pub assert : Bool → Failure → Tally
assert true f = (1, [])
assert false f = (0, f ∷ [])

abbrev pub plus : Tally → Tally → Tally
plus s t = (s.0 + t.0, append s.1 t.1)

-- `if expected { assert }`
abbrev pub when : Bool → Tally → Tally
when true t = t
when false t = (0, [])

unfoldable pub check_cancel : ℕ → Step → Got → Tally
check_cancel i s got = when (is_cancel s.kind) (assert got.cancel_ack (no_cancel_ack i))

unfoldable pub check_reject : ℕ → Step → Got → Tally
check_reject i s got = when s.expect_reject (assert got.reject (no_reject i))

-- The levels of the book, each only if it is expected.
unfoldable pub check_levels : ℕ → Step → ℕ × ℕ → Tally
check_levels i s (bids, asks) =
    plus
      (when (is_natural s.expect_book_bids)
        (assert (eq_int s.expect_book_bids (pos bids)) (bad_bids i)))
      (when (is_natural s.expect_book_asks)
        (assert (eq_int s.expect_book_asks (pos asks)) (bad_asks i)))

-- Two prices are more than 0.01 apart: float arithmetic, so an argument.
module _ (is_apart : ℕ → ℕ → Bool) where
  unfoldable pub check_fill : ℕ → Step → Got → Tally
  check_fill i s got = when s.expect_fill (
      if got.fill
      then plus (1, [])
          (plus
            (when (ltb zero_price s.expect_fill_price)
              (assert (not (is_apart got.fill_price s.expect_fill_price)) (bad_fill_price i)))
            (when (is_positive s.expect_fill_qty)
              (assert (eq_int got.fill_qty s.expect_fill_qty) (bad_fill_qty i))))
      else (0, no_fill i ∷ []))

  module _ {S : Type 0} (service : Service S) where
    unfoldable pub check_book : ℕ → Step → S → Tally × S
    unfolding check_levels
    check_book i s state =
        if is_natural s.expect_book_bids || is_natural s.expect_book_asks
        then (let (answer, state') = service.query state in
            (
              elim answer [ none ↦ (0, no_book i ∷ []) | some levels ↦ check_levels i s levels ],
              state',
            ))
        else ((0, []), state)

    -- The loop of reads of a step: `none` is a context that is cancelled.
    unfoldable pub read_replies : ℕ → Step → Got → S → Option Got × S
    unfolding note is_answered
    read_replies zero s got state = (some got, state)
    read_replies (suc n) s got state =
        let (answer, state') = service.read state in
        elim answer [
          | none ↦ if service.is_cancelled state' then (none, state') else (some got, state')
          | some none ↦ read_replies n s got state'
          | some (some msg) ↦
              let got' = note msg got in
              let more = read_replies n s got' state' in
              if is_answered s got' then (some got', state') else more
        ]

    -- All assertions of a step.
    unfoldable pub check_step : ℕ → Step → Got → S → Tally × S
    unfolding check_cancel check_fill check_reject check_book
    check_step i s got state =
        let (book, state') = check_book i s state in
        (
          plus (check_cancel i s got)
              (plus (check_fill i s got) (plus (check_reject i s got) book)),
          state',
        )

    -- The message of a step, and the map of tags after it: `none` for a tag that is not known.
    unfoldable pub message_of :
        ℕ → StepKind → Step → Dict String → Option Message.IncomingMessage × Dict String
    unfolding itoa
    message_of i step_cancel s tags = (
      elim (lookup s.cancel_tag tags) [ none ↦ none | some oid ↦ some (cancel_message oid) ],
      tags,
    )
    message_of i step_order s tags =
        let oid = "cx-s" ++ (itoa i ++ ("-" ++ s.tag)) in
        (some (order_message oid s), insert s.tag oid tags)

    -- A step that is sent: the tally, and whether the sequence goes on.
    unfoldable pub run_step : ℕ → Step → Message.IncomingMessage → S → (Tally × Bool) × S
    unfolding read_replies check_step
    run_step i s msg state =
        let (ok, state') = service.write msg state in
        elim ok [
          | false ↦ (((0, no_write i ∷ []), false), state')
          | true ↦
              let (got, state'') = read_replies service.reads s nothing state' in
              elim got [
                | none ↦ (((0, cancelled i ∷ []), false), state'')
                | some answers ↦
                    let (tally, after) = check_step i s answers state'' in ((tally, true), after)
              ]
        ]

    unfoldable pub run_steps : ℕ → List Step → Dict String → S → Tally × S
    unfolding message_of run_step
    run_steps i [] tags state = ((0, []), state)
    run_steps i (s ∷ steps) tags state =
        let (msg, tags') = message_of i s.kind s tags in
        elim msg [
          | none ↦
              let (rest, after) = run_steps (i + 1) steps tags' state in
              (plus (0, no_cancel_tag i ∷ []) rest, after)
          | some m ↦
              let ((tally, goes_on), state') = run_step i s m state in
              let (rest, after) = run_steps (i + 1) steps tags' state' in
              if goes_on then (plus tally rest, after) else (tally, state')
        ]

    unfoldable pub run_sequence : Sequence → S → Tally × S
    unfolding run_steps
    run_sequence seq state =
        let (connected, state') = service.dial state in
        if connected
        then (let (tally, after) = run_steps 0 seq.steps [] state' in (tally, service.close after))
        else ((0, no_connection ∷ []), state')

    unfoldable pub run_sequences : List Sequence → S → Tally × S
    unfolding run_sequence
    run_sequences [] state = ((0, []), state)
    run_sequences (seq ∷ seqs) state =
        let (tally, state') = run_sequence seq state in
        let (rest, after) = run_sequences seqs state' in (plus tally rest, after)

-- The score as a fraction.
pub record CorrectnessResult : Type 0 where
  pub score : ℕ × ℕ
  pub passed : ℕ
  pub failed : ℕ
  pub total_assertions : ℕ
  pub failure_details : List Failure

unfoldable pub result_of : Tally → CorrectnessResult
result_of (passed, failures) =
    let total = passed + length failures in
    record {
      score = if total == 0 then (1, 1) else (passed, total);
      passed = passed;
      failed = length failures;
      total_assertions = total;
      failure_details = failures;
    }

unfoldable pub run_correctness : {S : Type 0} → (ℕ → ℕ → Bool) → Service S → S → CorrectnessResult
unfolding run_sequences correctness_sequences result_of
run_correctness is_apart service state =
    result_of (run_sequences is_apart service correctness_sequences state).0
