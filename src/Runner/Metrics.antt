-- ===== src/Runner/Metrics.antt =====
-- The counters of all bots together: `merge` of services/bot-runner/metrics.go. A histogram is of
-- a type `H`; merging two also returns how many values were dropped.
pub mod Sums
use obarena.Prelude.{ℕ, ◌+◌, List, [], ◌∷◌}
use obarena.Runner.Bot.{BotMetrics}

pub record AggregateMetrics (H : Type 0) : Type 0 where
  pub ack_latency : H
  pub fill_latency : H
  pub orders_sent : ℕ
  pub acks_recv : ℕ
  pub fills_recv : ℕ
  pub rejects_recv : ℕ
  pub stale_orders : ℕ
  pub ack_dropped : ℕ
  pub fill_dropped : ℕ

module _ {H : Type 0} (new_histogram : H) (merge_histogram : H → H → H × ℕ) where
  abbrev pub no_metrics : AggregateMetrics H
  no_metrics = record {
    ack_latency = new_histogram;
    fill_latency = new_histogram;
    orders_sent = 0;
    acks_recv = 0;
    fills_recv = 0;
    rejects_recv = 0;
    stale_orders = 0;
    ack_dropped = 0;
    fill_dropped = 0;
  }

  -- One round of the loop.
  abbrev pub add_metrics : AggregateMetrics H → BotMetrics H → AggregateMetrics H
  add_metrics agg b =
      let (ack_latency, ack_dropped) = merge_histogram agg.ack_latency b.ack_latency in
      let (fill_latency, fill_dropped) = merge_histogram agg.fill_latency b.fill_latency in
      record {
        ack_latency = ack_latency;
        fill_latency = fill_latency;
        orders_sent = agg.orders_sent + b.orders_sent;
        acks_recv = agg.acks_recv + b.acks_recv;
        fills_recv = agg.fills_recv + b.fills_recv;
        rejects_recv = agg.rejects_recv + b.rejects_recv;
        stale_orders = agg.stale_orders + b.stale_orders;
        ack_dropped = agg.ack_dropped + ack_dropped;
        fill_dropped = agg.fill_dropped + fill_dropped;
      }

  unfoldable pub merge_loop : AggregateMetrics H → List (BotMetrics H) → AggregateMetrics H
  merge_loop agg [] = agg
  merge_loop agg (b ∷ bs) = merge_loop (add_metrics agg b) bs

  unfoldable pub merge : List (BotMetrics H) → AggregateMetrics H
  unfolding merge_loop
  merge bots = merge_loop no_metrics bots
