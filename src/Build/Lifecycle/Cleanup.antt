-- ===== src/Build/Lifecycle/Cleanup.antt =====
-- What is left of `Build` in the namespace, and what a build that succeeds has gone through.
use obarena.Prelude.{
  holds, without-added, ◌≡◌, ◌≤◌, ◌<◌, ℕ, arith, String, true, false, List, ◌∷◌, some,
}
use obarena.Build.Lifecycle.{
  Answers, SubmissionCreated, built, cleanup_pod, pod_name, binary_path, watch_build, build,
  build_image, build_command, wait_for_pod_completion,
}

-- Whether it succeeds or fails, and wherever: a build whose cleanup comes within 30 seconds and is
-- accepted leaves the namespace as it was, if it had no pod of that name.
pub build-pods :
    (max_log_bytes : ℕ) (a : Answers) (event : SubmissionCreated) (pods : List String)
    → a.seconds ≤ 30
    → a.delete ≡ true
    → holds (pod_name event.submission_id) pods ≡ false
    → (build max_log_bytes a event pods).1 ≡ pods
unfolding build watch_build cleanup_pod
build-pods max_log_bytes a event pods quick deleted absent =
    ground (arith, quick, deleted, without-added (pod_name event.submission_id) pods absent)

-- A build that creates its pod and takes more than 30 seconds leaves it in the namespace, whatever
-- else is answered.
pub build_leaves_pod :
    (max_log_bytes : ℕ) (a : Answers) (event : SubmissionCreated) (pods : List String)
    (image command source binary : String)
    → build_image event.language ≡ some image
    → build_command event.language ≡ some command
    → a.presign_get event.artifact_path ≡ some source
    → a.presign_put (binary_path event.submission_id) ≡ some binary
    → a.create ≡ true
    → 30 < a.seconds
    → (build max_log_bytes a event pods).1 ≡ pod_name event.submission_id ∷ pods
unfolding build watch_build cleanup_pod
build_leaves_pod max_log_bytes a event pods image command source binary i c g p created slow =
    rw (i, build, c, g, p, created) (ground (arith, slow))

-- A build that succeeds is of a language that has an image and a command, has put its binary where
-- the result says, and its pod was seen to succeed.
build-built :
    (max_log_bytes : ℕ) (a : Answers) (event : SubmissionCreated) (pods : List String)
    (path : String)
    → (build max_log_bytes a event pods).0 ≡ built path
    → (path ≡ binary_path event.submission_id)
      × (a.create ≡ true)
      × (wait_for_pod_completion a.watch ≡ true)
unfolding build watch_build
build-built max_log_bytes a event pods path e = ground (arith, e)
