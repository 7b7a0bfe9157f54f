-- ===== src/Build/Lifecycle.antt =====
-- A build and the consumer of the build service: `Build`, `waitForPodCompletion` and `readPodLogs`
-- of builder.go, `handleRecord` and `Run` of consumer.go.
--
-- What S3, Kubernetes and Kafka answer is an argument. The namespace is the list of its pods.
pub mod Cleanup
pub mod Consume
use Prim.Native.String.{◌++◌}
use obarena.Prelude.{
  without, ℕ, ◌+◌, String, str_eq, Bool, true, false, not, ◌&&◌, ◌||◌, leb, ltb, if◌then◌else◌, ℤ,
  pos, negsuc, List, [], ◌∷◌, Option, none, some,
}
use obarena.Build.Logs.{Stream, read_logs}

-- The keys of `buildImages`, and of `buildCommands`.
unfoldable pub build_image : String → Option String
build_image s =
    if str_eq s "cpp"
    then some "gcc:16-trixie"
    else if str_eq s "rust"
    then some "rust:1.95-alpine"
    else if str_eq s "go"
    then some "golang:1.26-alpine"
    else none

unfoldable pub build_command : String → Option String
build_command s =
    if str_eq s "cpp"
    then some "g++ -static -O2 -o /workspace/binary /workspace/main.cpp"
    else if str_eq s "rust"
    then some (
        "cd /workspace && RUSTFLAGS=\"-C target-feature=+crt-static\" cargo build --release --offline && "
        ++ "cp $(find target/release -maxdepth 1 -type f -perm -111 ! -name '*.d' | head -1) /workspace/binary")
    else if str_eq s "go"
    then some "cd /workspace && CGO_ENABLED=0 go build -mod=vendor -o /workspace/binary ."
    else none

pub record SubmissionCreated : Type 0 where
  pub submission_id : String
  pub language : String
  pub team_name : String
  pub artifact_path : String

pub data PodPhase : Type 0 where
  pending running succeeded failed unknown : PodPhase

-- An event of the watch: a pod with its phase, or another object.
pub data WatchEvent : Type 0 where
  pod : PodPhase → WatchEvent
  other : WatchEvent

-- The exit code of an init container that has terminated.
pub record ContainerStatus : Type 0 where
  pub name : String
  pub exit_code : Option ℤ

-- In place of the text of an error.
pub data BuildError : Type 0 where
  unsupported_language no_build_command : BuildError
  no_source_url no_binary_url no_pod : BuildError
  build_failed : BuildError
  build_error : List ℕ → BuildError

pub data BuildResult : Type 0 where
  built : String → BuildResult
  refused : BuildError → BuildResult

-- What is answered to one build. `seconds` is from the creation of the pod to its cleanup.
pub record Answers : Type 0 where
  pub presign_get : String → Option String
  pub presign_put : String → Option String
  pub create : Bool
  pub watch : Option (List WatchEvent)
  pub get : Option (List ContainerStatus)
  pub logs : String → Option Stream
  pub seconds : ℕ
  pub delete : Bool

-- `waitForPodCompletion`, true for success: a watch that closes is a failure.
unfoldable pub watch_pod : List WatchEvent → Bool
watch_pod [] = false
watch_pod (pod succeeded ∷ es) = true
watch_pod (pod failed ∷ es) = false
watch_pod (_ ∷ es) = watch_pod es

unfoldable pub wait_for_pod_completion : Option (List WatchEvent) → Bool
unfolding watch_pod
wait_for_pod_completion none = false
wait_for_pod_completion (some es) = watch_pod es

abbrev pub is_failure : Option ℤ → Bool
is_failure none = false
is_failure (some (pos n)) = ltb 0 n
is_failure (some (negsuc _)) = true

-- The first init container that failed.
unfoldable pub failed_container : List ContainerStatus → String
failed_container [] = "done"
failed_container (cs ∷ css) =
    let rest = failed_container css in if is_failure cs.exit_code then cs.name else rest

unfoldable pub read_pod_logs : ℕ → Answers → Option (List ℕ)
unfolding failed_container
read_pod_logs max_log_bytes a = elim a.get [
  | none ↦ none
  | some css ↦ elim (a.logs (failed_container css)) [
    | none ↦ none
    | some s ↦ read_logs max_log_bytes s
  ]
]

-- `cleanupPod`, whose context ends 30 seconds after the pod was created.
unfoldable pub cleanup_pod : Answers → String → List String → List String
cleanup_pod a name pods = if leb a.seconds 30 && a.delete then without name pods else pods

abbrev pub pod_name : String → String
pod_name id = "build-" ++ id

abbrev pub binary_path : String → String
binary_path id = "builds/" ++ (id ++ "/binary")

-- From the creation of the pod on.
unfoldable pub watch_build : ℕ → Answers → String → List String → BuildResult × List String
unfolding wait_for_pod_completion read_pod_logs cleanup_pod
watch_build max_log_bytes a id pods =
    let after = cleanup_pod a (pod_name id) (pod_name id ∷ pods) in
    if wait_for_pod_completion a.watch
    then (built (binary_path id), after)
    else elim (read_pod_logs max_log_bytes a) [
      | none ↦ (refused build_failed, after)
      | some logs ↦ (refused (build_error logs), after)
    ]

unfoldable pub build : ℕ → Answers → SubmissionCreated → List String → BuildResult × List String
unfolding build_image build_command watch_build
build max_log_bytes a event pods = elim (build_image event.language) [
  | none ↦ (refused unsupported_language, pods)
  | some image ↦ elim (build_command event.language) [
    | none ↦ (refused no_build_command, pods)
    | some command ↦ elim (a.presign_get event.artifact_path) [
      | none ↦ (refused no_source_url, pods)
      | some source_url ↦ elim (a.presign_put (binary_path event.submission_id)) [
        | none ↦ (refused no_binary_url, pods)
        | some binary_url ↦
            if a.create
            then watch_build max_log_bytes a event.submission_id pods
            else (refused no_pod, pods)
      ]
    ]
  ]
]

-- What a record decodes to: nothing, another type, another event, or a submission.
pub data Decoded : Type 0 where
  malformed other_type other_event : Decoded
  submission_created : SubmissionCreated → Decoded

pub data Publication : Type 0 where
  build_complete : String → String → String → String → Publication
  build_failure : String → BuildError → Publication

-- A record with what its build and the topic answer.
pub record Delivery : Type 0 where
  pub decoded : Decoded
  pub answers : Answers
  pub published : Bool
  pub committed : Bool

-- What is on the topic, which pods there are, and how many records are committed.
pub record State : Type 0 where
  pub topic : List Publication
  pub pods : List String
  pub offset : ℕ

abbrev pub put : Bool → Publication → State → State
put ok p s = record s { topic = if ok then p ∷ s.topic else s.topic }

-- `handleRecord`: whether it returns no error.
unfoldable pub publish_result : Delivery → SubmissionCreated → BuildResult → State → Bool × State
publish_result d sc (refused e) s = (true, put d.published (build_failure sc.submission_id e) s)
publish_result d sc (built path) s =
    (d.published, put d.published (build_complete sc.submission_id path sc.language sc.team_name) s)

unfoldable pub handle_submission : ℕ → Delivery → SubmissionCreated → State → Bool × State
unfolding publish_result
handle_submission max_log_bytes d sc s =
    let (result, pods) = build max_log_bytes d.answers sc s.pods in
    publish_result d sc result (record s { pods = pods })

unfoldable pub handle_record : ℕ → Delivery → Decoded → State → Bool × State
unfolding handle_submission
handle_record max_log_bytes d (submission_created sc) s = handle_submission max_log_bytes d sc s
handle_record max_log_bytes d _ s = (true, s)

-- `Run` over the records that are fetched: it ends at the first error.
unfoldable pub consume : ℕ → List Delivery → State → Bool × State
unfolding handle_record
consume max_log_bytes [] s = (true, s)
consume max_log_bytes (d ∷ ds) s =
    let (ok, s') = handle_record max_log_bytes d d.decoded s in
    let rest = consume max_log_bytes ds (record s' { offset = s'.offset + 1 }) in
    if ok && d.committed then rest else (false, s')
