-- ===== src/Metrics/Flush.antt =====
-- What the aggregators report of the samples recorded since the last flush.
use native.Mathlib.Nat.{le-div_iff_mul-le, div-le_of_le-mul}
use qlaster_public.Base.{
  List, [], arith, false, if◌then◌else◌, length, max, min, u64_max, ℕ, ◌*◌, ◌+◌, ◌-◌, ◌<◌, ◌==◌,
  ◌^◌, ◌∙◌, ◌∷◌, ◌≡◌, ◌≢◌, ◌≤◌, ◌⊎◌,
}
use qlaster_public.Metrics.{
  LatencyAggregator, avg_us, default, elapsed_since_unix_time_nanos_us, flush, record_us,
}

-- The samples of a period, in plain arithmetic.
unfoldable pub total : List ℕ → ℕ
total [] = 0
total (x ∷ xs) = x + total xs

unfoldable pub least : List ℕ → ℕ
least [] = u64_max
least (x ∷ xs) = min x (least xs)

unfoldable pub greatest : List ℕ → ℕ
greatest [] = 0
greatest (x ∷ xs) = max x (greatest xs)

unfoldable pub record_all : LatencyAggregator → List ℕ → LatencyAggregator
record_all a [] = a
record_all a (x ∷ xs) = record_all (record_us a x) xs

-- Two states are equal by their four fields.
state_path :
    {s s' c c' l l' g g' : ℕ}
    → s ≡ s'
    → c ≡ c'
    → l ≡ l'
    → g ≡ g'
    → ◌≡◌ {A = LatencyAggregator}
        (record { sum_us = s; count = c; min_us = l; max_us = g })
        (record { sum_us = s'; count = c'; min_us = l'; max_us = g' })
state_path p q r t = λ i. record { sum_us = p i; count = q i; min_us = r i; max_us = t i }

record_all_lem :
    (xs : List ℕ) (a : LatencyAggregator)
    → a.sum_us + total xs < 2 ^ 64
    → a.count + length xs < 2 ^ 64
    → a.min_us ≤ u64_max
    → record_all a xs ≡ record {
      sum_us = a.sum_us + total xs;
      count = a.count + length xs;
      min_us = min a.min_us (least xs);
      max_us = max a.max_us (greatest xs);
    }
unfolding record_all record_us total least greatest
record_all_lem [] a h k l = state_path (omega arith) (omega arith) (omega arith) (omega arith)
record_all_lem (x ∷ xs) a h k l =
    record_all_lem xs (record_us a x) (omega arith) (omega arith) (omega arith)
    ∙ state_path (omega arith) (omega arith) (omega arith) (omega arith)

least-le : (xs : List ℕ) → least xs ≤ u64_max
unfolding least
least-le [] = omega arith
least-le (x ∷ xs) = omega (arith, least-le xs)

least_mul : (xs : List ℕ) → least xs * length xs ≤ total xs
unfolding least total
least_mul [] = omega arith
least_mul (x ∷ xs) = grind (arith, least_mul xs)

greatest_mul : (xs : List ℕ) → total xs ≤ greatest xs * length xs
unfolding greatest total
greatest_mul [] = omega arith
greatest_mul (x ∷ xs) = grind (arith, greatest_mul xs)

-- A flush reports the number, the sum, the least and the greatest of the samples recorded since
-- the last one, with 0 for the least of none, and starts afresh, where sum and number fit 64 bits.
pub flush-record_all :
    (xs : List ℕ)
    → total xs < 2 ^ 64
    → length xs < 2 ^ 64
    → flush (record_all default xs) ≡ (
      record {
        count = length xs;
        total_us = total xs;
        min_us = if length xs == 0 then 0 else least xs;
        max_us = greatest xs;
      },
      default,
    )
unfolding flush default
flush-record_all xs h k = rw (record_all_lem xs default h' k' low') (ground (arith, least-le xs))
  where
    h' : default.sum_us + total xs < 2 ^ 64
    h' = unfold default in omega arith

    k' : default.count + length xs < 2 ^ 64
    k' = unfold default in omega arith

    low' : default.min_us ≤ u64_max
    low' = unfold default in omega arith

-- The average that a period of one or more samples reports lies between the least and the greatest
-- that it reports, where sum and number fit 64 bits.
pub avg_us_bounds :
    (x : ℕ) (xs : List ℕ)
    → total (x ∷ xs) < 2 ^ 64
    → length (x ∷ xs) < 2 ^ 64
    → let snapshot = (flush (record_all default (x ∷ xs))).0 in
      (snapshot.min_us ≤ avg_us snapshot) × (avg_us snapshot ≤ snapshot.max_us)
unfolding avg_us
avg_us_bounds x xs h k =
    let some_samples : (length (x ∷ xs) == 0) ≡ false = ground arith in
    let sum_le : total (x ∷ xs) ≤ length (x ∷ xs) * greatest (x ∷ xs) =
      omega (arith, greatest_mul (x ∷ xs)) in
    rw (flush-record_all (x ∷ xs) h k, some_samples)
      (
        (le-div_iff_mul-le (omega arith)).1 (least_mul (x ∷ xs)),
        div-le_of_le-mul (length (x ∷ xs)) sum_le,
      )

-- For a clock at least 999 below the greatest 64-bit value, the latency is 0 for a frame without a
-- timestamp, and otherwise the time since the timestamp in microseconds, rounded up, where a clock
-- that is behind counts as no time.
pub elapsed_rounds_up :
    (start now : ℕ)
    → now ≤ u64_max - 999
    → let elapsed = elapsed_since_unix_time_nanos_us start now in
      ((start ≡ 0) × (elapsed ≡ 0))
      ⊎ ((start ≢ 0) × (now - start ≤ 1000 * elapsed) × (1000 * elapsed < now - start + 1000))
unfolding elapsed_since_unix_time_nanos_us
elapsed_rounds_up start now h = ground arith
