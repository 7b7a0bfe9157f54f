-- ===== src/Runner/Main/Quorum.antt =====
-- The warm-up loop of `run` of main.go of services/bot-runner, and the bots that it waits for.
use obarena.Prelude.{
  ℕ, zero, suc, ◌+◌, ◌%◌, ◌<◌, ◌≤◌, ◌≡◌, refl, inl, inr, arith, eq-cases, List, [], ◌∷◌, ◌++◌, some,
}
use obarena.Runner.Sequence.{Sequence, basic_match, partial_fill_ladder, cancel_correctness}
use obarena.Runner.Main.{
  Select, ready, warmup_timeout, test_done, warmup_loop, warm_up, quorum_of, sequence_of,
  nth_sequence,
}

-- So many bots that are ready.
abbrev pub readies : ℕ → List Select
readies zero = []
readies (suc n) = ready ∷ readies n

warmup_loop-le :
    (n quorum r : ℕ) (es : List Select)
    → r < quorum
    → (warmup_loop n quorum r es ≤ quorum) × (warmup_loop n quorum r es ≤ r + n)
unfolding warmup_loop
warmup_loop-le zero quorum r es h = (omega (arith, h), omega arith)
warmup_loop-le (suc n) quorum r [] h = (omega (arith, h), omega arith)
warmup_loop-le (suc n) quorum r (ready ∷ es) h =
    ground (arith, h, warmup_loop-le n quorum (r + 1) es)
warmup_loop-le (suc n) quorum r (warmup_timeout ∷ es) h = (omega (arith, h), omega arith)
warmup_loop-le (suc n) quorum r (test_done ∷ es) h = (omega (arith, h), omega arith)

warmup_loop-readies :
    (n quorum r k : ℕ) (es : List Select)
    → r < quorum
    → quorum ≤ r + n
    → quorum ≡ r + k
    → warmup_loop n quorum r (readies k ++ es) ≡ quorum
unfolding warmup_loop
warmup_loop-readies zero quorum r k es h le e = absurd (omega (arith, h, le))
warmup_loop-readies (suc n) quorum r zero es h le e = absurd (omega (arith, h, e))
warmup_loop-readies (suc n) quorum r (suc k) es h le e =
    ground (arith, h, le, e, warmup_loop-readies n quorum (r + 1) k es)

-- With two bots or more, the warm-up never waits for more than four fifths of them: it counts no
-- more, and once so many are ready, it ends with that count, whatever else would come.
warm_up-quorum :
    (num_bots : ℕ) (es : List Select)
    → 2 ≤ num_bots
    → (warm_up num_bots es ≤ quorum_of num_bots)
      × (quorum_of num_bots < num_bots)
      × (warm_up num_bots (readies (quorum_of num_bots) ++ es) ≡ quorum_of num_bots)
unfolding warm_up
warm_up-quorum num_bots es h = (
  (warmup_loop-le num_bots (quorum_of num_bots) 0 es (omega (arith, h))).0,
  omega (arith, h),
  warmup_loop-readies num_bots (quorum_of num_bots) 0 (quorum_of num_bots) es (omega (arith, h))
      (omega (arith, h)) (omega arith),
)

-- Every bot has a sequence.
sequence_of-some : (i : ℕ) → (s : Sequence) × (sequence_of i ≡ some s)
unfolding sequence_of nth_sequence
sequence_of-some i = elim (eq-cases (i % 3) 0) [
  | inl e ↦ (basic_match i, rw e refl)
  | inr not_first ↦ elim (eq-cases (i % 3) 1) [
    | inl e ↦ (partial_fill_ladder i, rw e refl)
    | inr not_second ↦
        let e : i % 3 ≡ 2 = ground (arith, not_first, not_second) in
        (cancel_correctness i, rw e refl)
  ]
]
