-- ===== src/Sandbox/Logs/Cut.antt =====
-- The bounds of a reason in services/sandbox-orchestrator.
use obarena.Prelude.{
  take, ℕ, zero, suc, ◌≤◌, ◌≡◌, refl, ap, sym, ◌∙◌, arith, ltb, if-intro, length, pos, List, [],
  ◌∷◌, ◌++◌, some,
}
use obarena.Sandbox.Logs.{stream, limited, collect_pod_logs, cut, failure_reason}

length-take_le : (n : ℕ) (bs : List ℕ) → length (take n bs) ≤ n
unfolding take
length-take_le zero bs = omega arith
length-take_le (suc n) [] = omega arith
length-take_le (suc n) (b ∷ bs) = omega (arith, length-take_le n bs)

take_all : (n : ℕ) (bs : List ℕ) → length bs ≤ n → take n bs ≡ bs
unfolding take
take_all zero [] h = refl
take_all zero (b ∷ bs) h = absurd (omega (arith, h))
take_all (suc n) [] h = refl
take_all (suc n) (b ∷ bs) h = ap (λ cs. b ∷ cs) (take_all n bs (omega (arith, h)))

-- What is cut after the first cut is the same.
take-take : (n m : ℕ) (bs : List ℕ) → n ≤ m → take n (take m bs) ≡ take n bs
unfolding take
take-take zero m bs h = refl
take-take (suc n) zero bs h = absurd (omega (arith, h))
take-take (suc n) (suc m) [] h = refl
take-take (suc n) (suc m) (b ∷ bs) h = ap (λ cs. b ∷ cs) (take-take n m bs (omega (arith, h)))

take-append :
    (n m : ℕ) (head bs : List ℕ) → n ≤ m → take n (head ++ take m bs) ≡ take n (head ++ bs)
unfolding take
take-append n m [] bs h = take-take n m bs h
take-append zero m (c ∷ head) bs h = refl
take-append (suc n) m (c ∷ head) bs h =
    ap (λ cs. c ∷ cs) (take-append n m head bs (omega (arith, h)))

cut-take : (n : ℕ) (bs : List ℕ) → cut (pos n) bs ≡ some (take n bs)
unfolding cut
cut-take n bs =
    if-intro (λ o. o ≡ some (take n bs)) (ltb n (length bs)) (some (take n bs)) (some bs)
      (λ longer. refl) (λ short. ap some (sym (take_all n bs (ground (arith, short)))))

-- With a limit that is not negative: the reason is what the error with the whole logs has within
-- the limit, although the logs were read within the same limit, and it is never longer.
failure_reason-within :
    (no_fetch no_read : List ℕ → List ℕ) (n : ℕ) (head logs : List ℕ)
    → (failure_reason no_fetch no_read (pos n) head (stream logs) ≡ some (take n (head ++ logs)))
      × (length (take n (head ++ logs)) ≤ n)
unfolding failure_reason collect_pod_logs limited
failure_reason-within no_fetch no_read n head logs = (
  cut-take n (head ++ take n logs) ∙ ap some (take-append n n head logs (omega arith)),
  length-take_le n (head ++ logs),
)
