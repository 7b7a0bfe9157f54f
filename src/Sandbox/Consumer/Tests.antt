-- ===== src/Sandbox/Consumer/Tests.antt =====
-- The consumer of services/sandbox-orchestrator at concrete input.
use obarena.Prelude.{◌≡◌, ◌<◌, refl, ℕ, true, false, is_among, List, [], ◌∷◌, some}
use obarena.Sandbox.{Answers, created, pod, running}
use obarena.Sandbox.Consumer.{
  other_event, build_complete, Delivery, Poll, fails, brings, cancelled, Consumer, poll_loop,
  handle_payload,
}
use obarena.Sandbox.Consumer.Passed.{IsPassed, passes_in_order}
use obarena.Sandbox.Consumer.Skipped.{skipped_for_good}

abbrev answers : Answers
answers = record {
  create = λ name pods. created;
  watch = some (pod running true ∷ []);
  get = some "10.0.0.1";
  delete = true;
  publish = true;
}

abbrev built : Delivery
built = record {
  payload =
      build_complete
        (record { submission_id = "s1"; binary_path = "builds/s1/binary"; team_name = "red" });
  answers = answers;
  commits = true;
}

abbrev other : Delivery
other = record { payload = other_event; answers = answers; commits = true }

abbrev uncommitted : Delivery
uncommitted = record other { commits = false }

abbrev at_seven : Consumer
at_seven = record {
  state = record { pods = []; topic = [] };
  position = 7;
  committed = 7;
  handled = [];
}

abbrev polls : List Poll
polls = fails false [] ∷ brings (built ∷ other ∷ []) ∷ brings (uncommitted ∷ built ∷ []) ∷ []

passes_in_order_example : (m : ℕ) × IsPassed 7 m (poll_loop polls at_seven).1
passes_in_order_example = passes_in_order polls at_seven tt refl refl

abbrev after_error : Consumer
after_error =
    (poll_loop (fails false (built ∷ []) ∷ brings (other ∷ []) ∷ cancelled ∷ []) at_seven).1

skipped_for_good_example : (is_among 7 after_error.handled ≡ false) × (7 < after_error.committed)
unfolding handle_payload
skipped_for_good_example =
    skipped_for_good at_seven built other [] [] (cancelled ∷ []) refl refl refl
