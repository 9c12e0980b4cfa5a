-- ===== src/Metrics.antt =====
-- src/metrics.rs: the latency and counter aggregators, and the clock arithmetic. Each atomic is a
-- number of the state, and each method is one step. Children prove what a flush reports.
pub mod Flush
use qlaster_public.Base.{
  fetch_add, if◌then◌else◌, max, min, saturating_sub, u64_max, ℕ, ◌+◌, ◌/◌, ◌==◌,
}

-- `u64::saturating_add`.
abbrev pub saturating_add : ℕ → ℕ → ℕ
saturating_add a b = min (a + b) u64_max

-- `nanos` is the time since the epoch, or 0 for a clock before it.
unfoldable pub unix_time_nanos : ℕ → ℕ
unix_time_nanos nanos = min nanos u64_max

-- `now` is what `unix_time_nanos` returns.
unfoldable pub elapsed_since_unix_time_nanos_us : ℕ → ℕ → ℕ
elapsed_since_unix_time_nanos_us start_nanos now =
    if start_nanos == 0
    then 0
    else (let elapsed_nanos = saturating_sub now start_nanos in
        if elapsed_nanos == 0 then 0 else saturating_add elapsed_nanos 999 / 1000)

pub record LatencyAggregator : Type 0 where
  pub sum_us : ℕ
  pub count : ℕ
  pub min_us : ℕ
  pub max_us : ℕ

pub record LatencySnapshot : Type 0 where
  pub count : ℕ
  pub total_us : ℕ
  pub min_us : ℕ
  pub max_us : ℕ

unfoldable pub default : LatencyAggregator
default = record { sum_us = 0; count = 0; min_us = u64_max; max_us = 0 }

unfoldable pub record_us : LatencyAggregator → ℕ → LatencyAggregator
record_us a elapsed_us = record {
  sum_us = fetch_add a.sum_us elapsed_us;
  count = fetch_add a.count 1;
  min_us = min a.min_us elapsed_us;
  max_us = max a.max_us elapsed_us;
}

unfoldable pub flush : LatencyAggregator → LatencySnapshot × LatencyAggregator
flush a = (
  record {
    count = a.count;
    total_us = a.sum_us;
    min_us = if a.count == 0 then 0 else a.min_us;
    max_us = a.max_us;
  },
  record { sum_us = 0; count = 0; min_us = u64_max; max_us = 0 },
)

-- `total_us.checked_div(count).unwrap_or(0)`.
unfoldable pub avg_us : LatencySnapshot → ℕ
avg_us s = if s.count == 0 then 0 else s.total_us / s.count

pub record CounterAggregator : Type 0 where
  pub value : ℕ

abbrev pub zeroed : CounterAggregator
zeroed = record { value = 0 }

unfoldable pub add : CounterAggregator → ℕ → CounterAggregator
add c n = record { value = fetch_add c.value n }

unfoldable pub inc : CounterAggregator → CounterAggregator
inc c = record { value = fetch_add c.value 1 }

unfoldable pub flush_counter : CounterAggregator → ℕ × CounterAggregator
flush_counter c = (c.value, record { value = 0 })

abbrev pub peek : CounterAggregator → ℕ
peek c = c.value

pub record QlasterSenderMetrics : Type 0 where
  pub dispatch : LatencyAggregator
  pub shm_send : LatencyAggregator
  pub shm_ring_full : CounterAggregator

pub record QlasterConsumerMetrics : Type 0 where
  pub read : LatencyAggregator
  pub decode : LatencyAggregator
  pub enqueue : LatencyAggregator
  pub full_read : LatencyAggregator
