-- ===== src/Orchestrator/Jobs.antt =====
-- One test of a submission: `Handle`, `runTest`, `waitForJob` and the deletions in orchestrator.go
-- of services/bot-orchestrator. What Kubernetes, Kafka and the context answer is an argument.
pub mod Outcome
use Prim.Native.String.{◌++◌}
use obarena.Prelude.{
  without, ℕ, String, str_eq, Bool, true, false, ltb, if◌then◌else◌, ℤ, pos, negsuc, List, [], ◌∷◌,
  Option, none, some,
}

pub record SandboxReadyEvent : Type 0 where
  pub submission_id : String
  pub pod_name : String
  pub pod_ip : String
  pub http_port : ℤ
  pub ws_port : ℤ
  pub team_name : String

-- `err` of `runTest`.
pub data TestError : Type 0 where
  no_job : TestError
  context_done : TestError
  no_watch job_failed watch_error timed_out : TestError

pub record TestCompleteEvent : Type 0 where
  pub submission_id : String
  pub team_name : String
  pub success : Bool
  pub reason : Option TestError

-- An event of the watch of a job: its counts of succeeded and failed pods, another object, an
-- error, another type of event.
pub data WatchEvent : Type 0 where
  modified : ℤ → ℤ → WatchEvent
  modified_other : WatchEvent
  error : WatchEvent
  other : WatchEvent

-- `warmed_up` is whether the warm-up ends before the context, `is_cancelled` is `ctx.Err()` after
-- the watch has closed.
pub record Answers : Type 0 where
  pub create : Bool
  pub warmed_up : Bool
  pub watch : Option (List WatchEvent)
  pub is_cancelled : Bool
  pub delete_job : Bool
  pub delete_pod : Bool
  pub publish : Bool

pub record Cluster : Type 0 where
  pub jobs : List String
  pub pods : List String
  pub topic : List TestCompleteEvent

abbrev pub is_positive : ℤ → Bool
is_positive (pos n) = ltb 0 n
is_positive (negsuc _) = false

-- The result `none` is no error.
unfoldable pub watch_job : Bool → List WatchEvent → Option TestError
watch_job is_cancelled [] = if is_cancelled then some context_done else some timed_out
watch_job is_cancelled (modified succeeded failed ∷ es) =
    let rest = watch_job is_cancelled es in
    if is_positive succeeded then none else if is_positive failed then some job_failed else rest
watch_job is_cancelled (error ∷ es) = some watch_error
watch_job is_cancelled (_ ∷ es) = watch_job is_cancelled es

unfoldable pub wait_for_job : Answers → Option TestError
unfolding watch_job
wait_for_job a = elim a.watch [ none ↦ some no_watch | some es ↦ watch_job a.is_cancelled es ]

unfoldable pub delete_job : Answers → String → Cluster → Cluster
delete_job a name c = if a.delete_job then record c { jobs = without name c.jobs } else c

unfoldable pub delete_sandbox_pod : Answers → String → Cluster → Cluster
delete_sandbox_pod a name c =
    if str_eq name ""
    then c
    else if a.delete_pod
    then record c { pods = without name c.pods }
    else c

abbrev pub job_name : SandboxReadyEvent → String
job_name event = "bot-runner-" ++ event.submission_id

-- The job is deleted after the wait, whether it failed or not.
unfoldable pub run_test : Answers → SandboxReadyEvent → Cluster → Option TestError × Cluster
unfolding wait_for_job delete_job
run_test a event c =
    let started = record c { jobs = job_name event ∷ c.jobs } in
    if a.create
    then (if a.warmed_up
        then (wait_for_job a, delete_job a (job_name event) started)
        else (some context_done, started))
    else (some no_job, c)

abbrev pub is_success : Option TestError → Bool
is_success none = true
is_success (some _) = false

-- `PublishTestComplete`
unfoldable pub publish_test_complete : Answers → TestCompleteEvent → Cluster → Cluster
publish_test_complete a e c = if a.publish then record c { topic = e ∷ c.topic } else c

unfoldable pub handle : Answers → SandboxReadyEvent → Cluster → Cluster
unfolding run_test delete_sandbox_pod publish_test_complete
handle a event c =
    let (err, tested) = run_test a event c in
    publish_test_complete a
      (record {
        submission_id = event.submission_id;
        team_name = event.team_name;
        success = is_success err;
        reason = err;
      })
      (delete_sandbox_pod a event.pod_name tested)
