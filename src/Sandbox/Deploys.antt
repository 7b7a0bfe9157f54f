-- ===== src/Sandbox/Deploys.antt =====
-- What a deployment leaves in the namespace, and what comes of an event that is delivered again.
use obarena.Prelude.{
  holds, without-added, ◌≡◌, ◌⊎◌, inl, inr, refl, arith, String, str_eq, Bool-cases, some-cases,
  true, false, List, ◌∷◌,
}
use obarena.Sandbox.{
  BuildComplete, DeployResult, CreateAnswer, created, already_exists, rejected, DeployError,
  invalid_binary_path, pod_exists, no_pod, not_running, no_get, no_ip, Deployment, deployed,
  not_deployed, Answers, matches_binary_path, pod_name, wait_for_pod_running, cleanup_pod,
  await_pod, deploy, State, publish_deployment, handle_record,
}

-- A deployment that leaves the namespace as it was, or one that leaves its pod.
abbrev pub Fails : List String → Deployment × List String → Type 0
Fails pods d = (e : DeployError) × (d.0 ≡ not_deployed e) × (d.1 ≡ pods)

abbrev pub Stays : Answers → String → List String → Deployment × List String → Type 0
Stays a name pods d =
    (r : DeployResult) × (d.0 ≡ deployed r)
    × (d.1 ≡ name ∷ pods)
    × (wait_for_pod_running a.watch ≡ true)
    × (str_eq r.pod_ip "" ≡ false)

await_pod-cases :
    (a : Answers) (name : String) (pods : List String)
    → a.delete ≡ true
    → holds name pods ≡ false
    → Fails pods (await_pod a name (name ∷ pods))
      ⊎ Stays a name pods (await_pod a name (name ∷ pods))
unfolding await_pod cleanup_pod
await_pod-cases a name pods deleted absent =
    let gone = without-added name pods absent in
    elim (Bool-cases (wait_for_pod_running a.watch)) [
      | inr not_up ↦ rw (not_up, await_pod, deleted) (inl (not_running, refl, gone))
      | inl up ↦ elim (some-cases a.get) [
        | inl failed ↦ rw (up, await_pod, failed, deleted) (inl (no_get, refl, gone))
        | inr (ip, found) ↦ elim (Bool-cases (str_eq ip "")) [
          | inl no_address ↦
              rw (up, await_pod, found, no_address, deleted) (inl (no_ip, refl, gone))
          | inr address ↦
              rw (up, await_pod, found, address)
                (inr (record { pod_name = name; pod_ip = ip }, refl, refl, refl, address))
        ]
      ]
    ]

-- A pod stays exactly if the deployment succeeds, and then it was seen running and ready, has an
-- address, and its download names a path of plain characters; else the namespace is as it was, if
-- the deletion is accepted and there was no pod of that name.
pub deploy-pods :
    (a : Answers) (event : BuildComplete) (pods : List String)
    → a.delete ≡ true
    → holds (pod_name event.submission_id) pods ≡ false
    → let d = deploy a event pods in
      Fails pods d
      ⊎ (Stays a (pod_name event.submission_id) pods d
          × (matches_binary_path event.binary_path ≡ true))
unfolding deploy
deploy-pods a event pods deleted absent =
    elim (Bool-cases (matches_binary_path event.binary_path)) [
      | inr strange ↦ rw (strange, deploy) (inl (invalid_binary_path, refl, refl))
      | inl plain ↦ by_answer (a.create (pod_name event.submission_id) pods) refl plain
    ]
  where
    by_answer :
        (c : CreateAnswer)
        → a.create (pod_name event.submission_id) pods ≡ c
        → matches_binary_path event.binary_path ≡ true
        → Fails pods (deploy a event pods)
          ⊎ (Stays a (pod_name event.submission_id) pods (deploy a event pods)
              × (matches_binary_path event.binary_path ≡ true))
    by_answer already_exists e plain = rw (plain, deploy, e) (inl (pod_exists, refl, refl))
    by_answer rejected e plain = rw (plain, deploy, e) (inl (no_pod, refl, refl))
    by_answer created e plain =
        elim (await_pod-cases a (pod_name event.submission_id) pods deleted absent) [
          | inl fails ↦ rw (plain, deploy, e) (inl fails)
          | inr stays ↦ rw (plain, deploy, e) (inr (stays, refl))
        ]

-- If the event of a sandbox that is ready is not taken by the broker, the record is delivered
-- again; then the pod exists, and the record is done with nothing published.
pub handle_record-redelivered :
    (a again : Answers) (event : BuildComplete) (s : State) (r : DeployResult)
    → (deploy a event s.pods).0 ≡ deployed r
    → a.publish ≡ false
    → ((name : String) (pods : List String) → again.create name (name ∷ pods) ≡ already_exists)
    → let (ok, s') = handle_record a event s in
      let (ok', s'') = handle_record again event s' in
      (ok ≡ false) × (ok' ≡ true) × (s''.topic ≡ s.topic)
unfolding handle_record deploy publish_deployment await_pod
handle_record-redelivered a again event s r ready refused exists =
    let there = exists (pod_name event.submission_id) s.pods in
    ground (arith, ready, refused, there)
