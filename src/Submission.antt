-- ===== src/Submission.antt =====
-- services/submission-api: `Handler` of handler.go, with what publisher.go puts on the topic.
--
-- The uuid, the answer of the object store to a presign, the clock and the outcome of a publish
-- come from outside, so they are arguments.
pub mod Pending
pub mod Race
mod Tests
use Prim.Native.Char.{code}
use Prim.Native.String.{len, ◌++◌}
use obarena.Prelude.{
  ℕ, ◌+◌, ◌*◌, String, str_eq, Bool, true, false, ◌&&◌, ◌||◌, not, ltb, leb, ◌==◌, if◌then◌else◌,
  Dict, lookup, insert, delete, Option, none, some,
}

-- `allowedLanguages`
unfoldable pub allowed_language : String → Bool
allowed_language s = str_eq s "cpp" || str_eq s "rust" || str_eq s "go"

is_team_name_char : ℕ → Bool
is_team_name_char c =
    leb b'A' c && leb c b'Z'
    || leb b'a' c && leb c b'z'
    || leb b'0' c && leb c b'9'
    || c == b'_'
    || c == b'-'

all_team_name_chars : String → Bool
all_team_name_chars String.[] = true
all_team_name_chars (String.◌∷◌ c s) = is_team_name_char (code c) && all_team_name_chars s

-- `teamNameRe`, ^[A-Za-z0-9_-]+$
unfoldable pub matches_team_name : String → Bool
unfolding is_team_name_char all_team_name_chars
matches_team_name s = not (str_eq s "") && all_team_name_chars s

abbrev pub max_team_name_len : ℕ
max_team_name_len = 64

pub record PendingSubmit : Type 0 where
  pub language : String
  pub team_name : String

pub record SubmitInitRequest : Type 0 where
  pub language : String
  pub team_name : String

pub record SubmitInitResponse : Type 0 where
  pub submission_id : String
  pub presigned_url : String
  pub artifact_key : String
  pub expires_at : ℕ

-- `pending` of the handler: the store and the publisher are outside.
pub record Handler : Type 0 where
  pub pending : Dict PendingSubmit

-- What `writeJSON` is given: a status with an error, an init response, or an id.
pub data Response : Type 0 where
  failure : ℕ → String → Response
  initiated : ℕ → SubmitInitResponse → Response
  confirmed : ℕ → String → Response

pub record SubmissionCreated : Type 0 where
  pub submission_id : String
  pub language : String
  pub team_name : String
  pub artifact_path : String
  pub created_at : ℕ

abbrev pub artifact_path_of : String → String
artifact_path_of id = "submissions/" ++ (id ++ ".tar.gz")

-- 15 minutes, in seconds
abbrev pub lifetime : ℕ
lifetime = 15 * 60

-- From a request that decodes: `none` is one that does not.
unfoldable pub handle_submit_init :
    String → (String → Option String) → ℕ → Option SubmitInitRequest → Handler → Response × Handler
handle_submit_init uuid presign unix_now none h = (failure 400 "invalid JSON", h)
handle_submit_init uuid presign unix_now (some req) h =
    if not (allowed_language req.language)
    then (failure 400 "unsupported language", h)
    else if str_eq req.team_name ""
    then (failure 400 "team_name required", h)
    else if ltb max_team_name_len (len req.team_name)
    then (failure 400 "team_name too long", h)
    else if not (matches_team_name req.team_name)
    then (failure 400 "team_name contains invalid characters", h)
    else elim (presign (artifact_path_of uuid)) [
      | none ↦ (failure 500 "internal error", h)
      | some url ↦ (
        initiated 202 (record {
          submission_id = uuid;
          presigned_url = url;
          artifact_key = artifact_path_of uuid;
          expires_at = unix_now + lifetime;
        }),
        record h {
          pending =
              insert uuid (record { language = req.language; team_name = req.team_name }) h.pending;
        },
      )
    ]

-- `PublishSubmissionCreated`
abbrev pub submission_created : String → PendingSubmit → ℕ → SubmissionCreated
submission_created id p now = record {
  submission_id = id;
  language = p.language;
  team_name = p.team_name;
  artifact_path = artifact_path_of id;
  created_at = now;
}

-- `publish` says whether the broker takes an event. What is on the topic afterwards is the second
-- result.
unfoldable pub handle_confirm :
    (SubmissionCreated → Bool)
    → ℕ
    → String
    → Handler
    → Response × Option SubmissionCreated × Handler
handle_confirm publish now id h =
    if str_eq id ""
    then (failure 400 "submission_id required", none, h)
    else elim (lookup id h.pending) [
      | none ↦ (failure 404 "submission not found or expired", none, h)
      | some p ↦
          if publish (submission_created id p now)
          then (
            confirmed 202 id,
            some (submission_created id p now),
            record h { pending = delete id h.pending },
          )
          else (failure 500 "internal error", none, h)
    ]
