-- ===== src/Sandbox/Logs.antt =====
-- The reason of a failed deployment in services/sandbox-orchestrator: `collectPodLogs` of
-- orchestrator.go, and the cut in `Deploy`. A text is its bytes.
pub mod Cut
use obarena.Prelude.{
  take, ℕ, zero, suc, Bool, true, false, ltb, if◌then◌else◌, length, ℤ, pos, negsuc, List, [], ◌∷◌,
  ◌++◌, Option, none, some,
}

-- What is answered: no stream, or its bytes and whether it ends well. An error is its text.
pub data Answer : Type 0 where
  no_stream : List ℕ → Answer
  read_error : List ℕ → Answer
  stream : List ℕ → Answer

-- `io.LimitReader`, where a limit below 0 reads nothing.
unfoldable pub limited : ℤ → List ℕ → List ℕ
unfolding take
limited (pos n) bs = take n bs
limited (negsuc n) bs = []

-- The texts around an error are the arguments.
unfoldable pub collect_pod_logs : (List ℕ → List ℕ) → (List ℕ → List ℕ) → ℤ → Answer → List ℕ
unfolding limited
collect_pod_logs no_fetch no_read max_log_bytes (no_stream e) = no_fetch e
collect_pod_logs no_fetch no_read max_log_bytes (read_error e) = no_read e
collect_pod_logs no_fetch no_read max_log_bytes (stream data_) = limited max_log_bytes data_

-- `reason[:max]` if the reason is longer: none is a panic.
unfoldable pub cut : ℤ → List ℕ → Option (List ℕ)
unfolding take
cut (pos n) bs = if ltb n (length bs) then some (take n bs) else some bs
cut (negsuc n) bs = none

-- `head` is the error with the line before the logs.
unfoldable pub failure_reason :
    (List ℕ → List ℕ) → (List ℕ → List ℕ) → ℤ → List ℕ → Answer → Option (List ℕ)
unfolding collect_pod_logs cut
failure_reason no_fetch no_read max_log_bytes head a =
    cut max_log_bytes (head ++ collect_pod_logs no_fetch no_read max_log_bytes a)
