-- ===== src/Build/Tests.antt =====
-- The build service at concrete input.
use obarena.Prelude.{holds, ◌≡◌, refl, ℕ, arith, true, List, [], ◌∷◌, none, some}
use obarena.Build.Logs.{read_logs}
use obarena.Build.Logs.Limit.{read_logs-over_limit}
use obarena.Build.Lifecycle.{
  Answers, SubmissionCreated, build, build_image, build_command, pod, succeeded,
}
use obarena.Build.Lifecycle.Cleanup.{build-pods, build_leaves_pod}

abbrev no_bytes : List ℕ
no_bytes = []

read_logs-over_limit_example :
    read_logs 4 (record { chunks = (1 ∷ 2 ∷ []) ∷ (3 ∷ 4 ∷ 5 ∷ []) ∷ []; ends = true }) ≡ none
read_logs-over_limit_example =
    read_logs-over_limit 4 ((1 ∷ 2 ∷ []) ∷ []) (3 ∷ 4 ∷ 5 ∷ []) [] true (omega arith) (omega arith)

abbrev answers : ℕ → Answers
answers seconds = record {
  presign_get = λ key. some "http://store/source";
  presign_put = λ key. some "http://store/binary";
  create = true;
  watch = some (pod succeeded ∷ []);
  get = none;
  logs = λ container. none;
  seconds = seconds;
  delete = true;
}

abbrev created : SubmissionCreated
created = record {
  submission_id = "s1";
  language = "go";
  team_name = "red";
  artifact_path = "submissions/s1.tar.gz";
}

build-pods_example : (build 4096 (answers 20) created []).1 ≡ []
unfolding holds
build-pods_example = build-pods 4096 (answers 20) created [] (omega arith) refl refl

build_leaves_pod_example : (build 4096 (answers 90) created []).1 ≡ "build-s1" ∷ []
unfolding build_image build_command
build_leaves_pod_example =
    build_leaves_pod 4096 (answers 90) created [] "golang:1.26-alpine"
      "cd /workspace && CGO_ENABLED=0 go build -mod=vendor -o /workspace/binary ."
      "http://store/source" "http://store/binary" refl refl refl refl refl (omega arith)
