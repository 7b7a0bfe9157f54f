-- ===== src/Submission/Tests.antt =====
-- Submissions at concrete input.
use obarena.Prelude.{◌≡◌, refl, String, true, some, Option, lookup, delete, Bool, [], ◌∷◌}
use obarena.Submission.{
  Handler, SubmitInitRequest, SubmitInitResponse, SubmissionCreated, handle_submit_init,
  handle_confirm, submission_created, allowed_language, matches_team_name, confirmed, failure,
}
use obarena.Submission.Pending.{confirm-init, submitted}
use obarena.Submission.Race.{State, Reach, both_started, done, published_twice}

abbrev empty : Handler
empty = record { pending = [] }

abbrev request : SubmitInitRequest
request = record { language = "go"; team_name = "red-1" }

abbrev signed : String → Option String
signed key = some "http://store/upload"

abbrev stored : Handler
stored = (handle_submit_init "id-1" signed 0 (some request) empty).1

abbrev taken : SubmissionCreated → Bool
taken _ = true

abbrev response : SubmitInitResponse
response = record {
  submission_id = "id-1";
  presigned_url = "http://store/upload";
  artifact_key = "submissions/id-1.tar.gz";
  expires_at = 900;
}

confirm-init_example :
    let first = handle_confirm taken 5 "id-1" stored in
    (first.0 ≡ confirmed 202 "id-1")
    × (first.1 ≡ some (submission_created "id-1" (submitted request) 5))
    × ((handle_confirm taken 5 "id-1" first.2).0 ≡ failure 404 "submission not found or expired")
unfolding handle_submit_init allowed_language matches_team_name
confirm-init_example =
    confirm-init "id-1" signed 0 5 request empty taken 202 response refl refl refl

abbrev one_pending : State
one_pending = both_started "id-1" (("id-1", submitted request) ∷ [])

published_twice_example : Reach one_pending (record {
  pending = delete "id-1" (delete "id-1" (("id-1", submitted request) ∷ []));
  topic =
      submission_created "id-1" (submitted request) 2
      ∷ submission_created "id-1" (submitted request) 1
      ∷ [];
  one = done;
  two = done;
})
unfolding lookup
published_twice_example =
    published_twice "id-1" (submitted request) (("id-1", submitted request) ∷ []) 1 2 refl
