-- ===== src/Runner/Metrics/Sums.antt =====
-- What the counters add up to, and what becomes of the values of the histograms.
use obarena.Prelude.{ℕ, ◌+◌, ◌≡◌, arith, List, [], ◌∷◌, sum_of}
use obarena.Runner.Bot.{BotMetrics}
use obarena.Runner.Metrics.{AggregateMetrics, no_metrics, add_metrics, merge_loop, merge}

module _ {H : Type 0} (new_histogram : H) (merge_histogram : H → H → H × ℕ) (count : H → ℕ) where
  -- The values of both are in the merged histogram or dropped.
  abbrev pub IsCounting : Type 0
  IsCounting =
      (g h : H) → count (merge_histogram g h).0 + (merge_histogram g h).1 ≡ count g + count h

  merge_loop-counts :
      (agg : AggregateMetrics H) (bots : List (BotMetrics H))
      → IsCounting
      → let r = merge_loop new_histogram merge_histogram agg bots in
        (r.orders_sent ≡ agg.orders_sent + sum_of (λ b. b.orders_sent) bots)
        × (r.acks_recv ≡ agg.acks_recv + sum_of (λ b. b.acks_recv) bots)
        × (r.fills_recv ≡ agg.fills_recv + sum_of (λ b. b.fills_recv) bots)
        × (r.rejects_recv ≡ agg.rejects_recv + sum_of (λ b. b.rejects_recv) bots)
        × (r.stale_orders ≡ agg.stale_orders + sum_of (λ b. b.stale_orders) bots)
        × (count r.ack_latency + r.ack_dropped
            ≡ count agg.ack_latency + agg.ack_dropped + sum_of (λ b. count b.ack_latency) bots)
        × (count r.fill_latency + r.fill_dropped
            ≡ count agg.fill_latency + agg.fill_dropped + sum_of (λ b. count b.fill_latency) bots)
  unfolding merge_loop
  merge_loop-counts agg [] law = ground arith
  merge_loop-counts agg (b ∷ bs) law =
      let next = add_metrics new_histogram merge_histogram agg b in
      ground (
        arith,
        merge_loop-counts next bs law,
        law agg.ack_latency b.ack_latency,
        law agg.fill_latency b.fill_latency,
      )

  -- If merging two histograms keeps or drops each value: each counter of the whole is the sum over
  -- the bots, and each latency that a bot recorded is in the whole or counted as dropped.
  pub merge-counts :
      (bots : List (BotMetrics H))
      → ((g h : H) → count (merge_histogram g h).0 + (merge_histogram g h).1 ≡ count g + count h)
      → count new_histogram ≡ 0
      → let r = merge new_histogram merge_histogram bots in
        (r.orders_sent ≡ sum_of (λ b. b.orders_sent) bots)
        × (r.acks_recv ≡ sum_of (λ b. b.acks_recv) bots)
        × (r.fills_recv ≡ sum_of (λ b. b.fills_recv) bots)
        × (r.rejects_recv ≡ sum_of (λ b. b.rejects_recv) bots)
        × (r.stale_orders ≡ sum_of (λ b. b.stale_orders) bots)
        × (count r.ack_latency + r.ack_dropped ≡ sum_of (λ b. count b.ack_latency) bots)
        × (count r.fill_latency + r.fill_dropped ≡ sum_of (λ b. count b.fill_latency) bots)
  unfolding merge
  merge-counts bots law empty =
      ground (arith, empty, merge_loop-counts (no_metrics new_histogram merge_histogram) bots law)
