-- ===== src/Sandbox.antt =====
-- services/sandbox-orchestrator: `Deploy`, the check of `createSandboxPod`, `waitForPodRunning` and `cleanupPod`
-- of orchestrator.go, `handleRecord` of consumer.go. What Kubernetes and Kafka answer is an
-- argument.
pub mod Deploys
pub mod Pod
pub mod Settings
pub mod Logs
pub mod Consumer
mod Tests
use Prim.Native.Char.{code}
use Prim.Native.String.{◌++◌}
use obarena.Prelude.{
  without, ℕ, String, str_eq, Bool, true, false, not, ◌&&◌, ◌||◌, leb, ◌==◌, if◌then◌else◌, List,
  [], ◌∷◌, Option, none, some,
}

pub record BuildComplete : Type 0 where
  pub submission_id : String
  pub binary_path : String
  pub team_name : String

pub record DeployResult : Type 0 where
  pub pod_name : String
  pub pod_ip : String

pub data PodPhase : Type 0 where
  pending running succeeded failed unknown : PodPhase

-- A pod with whether its condition `Ready` is true, or another object.
pub data WatchEvent : Type 0 where
  pod : PodPhase → Bool → WatchEvent
  other : WatchEvent

pub data CreateAnswer : Type 0 where
  created already_exists rejected : CreateAnswer

-- In place of the text of an error.
pub data DeployError : Type 0 where
  invalid_binary_path pod_exists no_pod : DeployError
  not_running no_get no_ip : DeployError

pub data Deployment : Type 0 where
  deployed : DeployResult → Deployment
  not_deployed : DeployError → Deployment

-- What is answered to one deployment: `get` has the address of the pod.
pub record Answers : Type 0 where
  pub create : String → List String → CreateAnswer
  pub watch : Option (List WatchEvent)
  pub get : Option String
  pub delete : Bool
  pub publish : Bool

is_binary_path_char : ℕ → Bool
is_binary_path_char c =
    leb b'A' c && leb c b'Z'
    || leb b'a' c && leb c b'z'
    || leb b'0' c && leb c b'9'
    || c == b'/'
    || c == b'_'
    || c == b'.'
    || c == b'-'

all_binary_path_chars : String → Bool
all_binary_path_chars String.[] = true
all_binary_path_chars (String.◌∷◌ c s) = is_binary_path_char (code c) && all_binary_path_chars s

-- `binaryPathRegex`, ^[A-Za-z0-9/_.-]+$
unfoldable pub matches_binary_path : String → Bool
unfolding is_binary_path_char all_binary_path_chars
matches_binary_path s = not (str_eq s "") && all_binary_path_chars s

abbrev pub pod_name : String → String
pod_name id = "sandbox-" ++ id

-- Whether a pod is running and ready before it has ended or the watch has closed.
unfoldable pub watch_pod : List WatchEvent → Bool
watch_pod [] = false
watch_pod (pod failed ready ∷ es) = false
watch_pod (pod succeeded ready ∷ es) = false
watch_pod (pod running ready ∷ es) = let rest = watch_pod es in if ready then true else rest
watch_pod (_ ∷ es) = watch_pod es

unfoldable pub wait_for_pod_running : Option (List WatchEvent) → Bool
unfolding watch_pod
wait_for_pod_running none = false
wait_for_pod_running (some es) = watch_pod es

unfoldable pub cleanup_pod : Answers → String → List String → List String
cleanup_pod a name pods = if a.delete then without name pods else pods

-- From the creation on: the pod stays only on success.
unfoldable pub await_pod : Answers → String → List String → Deployment × List String
unfolding wait_for_pod_running cleanup_pod
await_pod a name pods =
    if wait_for_pod_running a.watch
    then elim a.get [
      | none ↦ (not_deployed no_get, cleanup_pod a name pods)
      | some ip ↦
          if str_eq ip ""
          then (not_deployed no_ip, cleanup_pod a name pods)
          else (deployed (record { pod_name = name; pod_ip = ip }), pods)
    ]
    else (not_deployed not_running, cleanup_pod a name pods)

unfoldable pub deploy : Answers → BuildComplete → List String → Deployment × List String
unfolding matches_binary_path await_pod
deploy a event pods =
    let name = pod_name event.submission_id in
    if not (matches_binary_path event.binary_path)
    then (not_deployed invalid_binary_path, pods)
    else elim (a.create name pods) [
      | created ↦ await_pod a name (name ∷ pods)
      | already_exists ↦ (not_deployed pod_exists, pods)
      | rejected ↦ (not_deployed no_pod, pods)
    ]

pub data Publication : Type 0 where
  sandbox_ready : String → DeployResult → String → Publication
  sandbox_failed : String → DeployError → Publication

-- The namespace and the topic.
pub record State : Type 0 where
  pub pods : List String
  pub topic : List Publication

abbrev pub put : Bool → Publication → State → State
put ok p s = record s { topic = if ok then p ∷ s.topic else s.topic }

-- After the deployment: whether `handleRecord` returns no error.
unfoldable pub publish_deployment : Answers → BuildComplete → Deployment → State → Bool × State
publish_deployment a event (not_deployed pod_exists) s = (true, s)
publish_deployment a event (not_deployed e) s =
    (true, put a.publish (sandbox_failed event.submission_id e) s)
publish_deployment a event (deployed r) s =
    (a.publish, put a.publish (sandbox_ready event.submission_id r event.team_name) s)

unfoldable pub handle_record : Answers → BuildComplete → State → Bool × State
unfolding deploy publish_deployment
handle_record a event s =
    let (result, pods) = deploy a event s.pods in
    publish_deployment a event result (record s { pods = pods })
