-- ===== src/Build/Lifecycle/Consume.antt =====
-- What the consumer of services/build-service commits.
use obarena.Prelude.{◌≡◌, ◌<◌, ◌+◌, ◌⊎◌, inl, ℕ, refl, arith, true, false, List, [], ◌∷◌, length}
use obarena.Build.Lifecycle.{
  State, Delivery, Decoded, submission_created, built, refused, BuildResult, SubmissionCreated,
  publish_result, handle_submission, handle_record, consume, build,
}

publish_result-offset :
    (d : Delivery) (sc : SubmissionCreated) (r : BuildResult) (s : State)
    → (publish_result d sc r s).1.offset ≡ s.offset
unfolding publish_result
publish_result-offset d sc (built path) s = refl
publish_result-offset d sc (refused e) s = refl

handle_record-offset :
    (n : ℕ) (d : Delivery) (r : Decoded) (s : State) → (handle_record n d r s).1.offset ≡ s.offset
unfolding handle_record handle_submission
handle_record-offset n d (submission_created sc) s =
    let (result, pods) = build n d.answers sc s.pods in
    publish_result-offset d sc result (record s { pods = pods })
handle_record-offset n d _ s = refl

-- The consumer goes on only while it commits: without an error it has committed every record, and
-- with one it has committed none from the one that failed on.
consume-offset :
    (max_log_bytes : ℕ) (ds : List Delivery) (s : State)
    → let (ok, s') = consume max_log_bytes ds s in
      ((ok ≡ true) × (s'.offset ≡ s.offset + length ds))
      ⊎ ((ok ≡ false) × (s'.offset < s.offset + length ds))
unfolding consume
consume-offset n [] s = inl (refl, omega arith)
consume-offset n (d ∷ ds) s =
    let (ok, s') = handle_record n d d.decoded s in
    ground (
      arith,
      handle_record-offset n d d.decoded s,
      consume-offset n ds (record s' { offset = s'.offset + 1 }),
    )
