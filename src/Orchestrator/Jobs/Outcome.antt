-- ===== src/Orchestrator/Jobs/Outcome.antt =====
-- What a test leaves behind and reports.
use obarena.Prelude.{holds, without-added, holds-without, ◌≡◌, arith, str_eq, true, false, ◌∷◌}
use obarena.Orchestrator.Jobs.{
  SandboxReadyEvent, Answers, Cluster, delete_job, delete_sandbox_pod, job_name, run_test,
  publish_test_complete, handle,
}

-- However the test ends, the pod of the sandbox is gone if its deletion is accepted.
handle_deletes_pod :
    (a : Answers) (event : SandboxReadyEvent) (c : Cluster)
    → a.delete_pod ≡ true
    → str_eq event.pod_name "" ≡ false
    → holds event.pod_name (handle a event c).pods ≡ false
unfolding handle run_test delete_sandbox_pod publish_test_complete delete_job
handle_deletes_pod a event c deleted named =
    ground (arith, deleted, named, holds-without event.pod_name c.pods)

-- A test whose warm-up was not cut short leaves no job, if the deletion is accepted.
jobs-handle :
    (a : Answers) (event : SandboxReadyEvent) (c : Cluster)
    → a.warmed_up ≡ true
    → a.delete_job ≡ true
    → holds (job_name event) c.jobs ≡ false
    → (handle a event c).jobs ≡ c.jobs
unfolding handle run_test delete_sandbox_pod publish_test_complete delete_job
jobs-handle a event c warmed deleted absent =
    ground (arith, warmed, deleted, without-added (job_name event) c.jobs absent)

-- A test whose warm-up is cut short leaves its job, even if every deletion would be accepted.
handle_leaves_job :
    (a : Answers) (event : SandboxReadyEvent) (c : Cluster)
    → a.create ≡ true
    → a.warmed_up ≡ false
    → (handle a event c).jobs ≡ job_name event ∷ c.jobs
unfolding handle run_test delete_sandbox_pod publish_test_complete delete_job
handle_leaves_job a event c created cut_short = ground (arith, created, cut_short)
