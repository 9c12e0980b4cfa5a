-- ===== src/Tests/Transfer.antt =====
-- The framed stream, the ring and the latency aggregators, at concrete inputs.
use qlaster_public.Base.{
  Bytes, List, [], arith, false, none, refl, to_le_bytes, ℕ, ◌*◌, ◌++◌, ◌<◌, ◌^◌, ◌∷◌, ◌≡◌, ◌≢◌,
  ◌≤◌, ◌⊎◌,
}
use qlaster_public.Error.{err, frame_too_large, io, ok, unexpected_eof, ◌>>=◌}
use qlaster_public.Wire.{read_framed}
use qlaster_public.Wire.Framing.{
  frame, read_framed_too_large, read_framed_truncated, read_frames, read_frames-write_all_frames,
  write_all_frames,
}
use qlaster_public.Ring.{CreateOutcomes, create, double_until, next_power_of_two}
use qlaster_public.Ring.Spec.{Op, fresh, pop, push, run, shut}
use qlaster_public.Ring.Refine.Run.{calls-run}
use qlaster_public.Ring.Refine.{Ends, Holds, bytes_of, calls}
use qlaster_public.Ring.Capacity.{create_capacity}
use qlaster_public.Metrics.{avg_us, default, elapsed_since_unix_time_nanos_us, flush}
use qlaster_public.Metrics.Flush.{
  avg_us_bounds, elapsed_rounds_up, flush-record_all, greatest, least, record_all, total,
}
use qlaster_public.Tests.Models.{byte_queue, byte_queue-IsShaq, byte_stream, byte_stream-IsStream}

read_frames-write_all_frames_example :
    (s' : Bytes) × ((write_all_frames byte_stream [] ((1 ∷ 2 ∷ []) ∷ [] ∷ [])
        >>= read_frames byte_stream 2)
      ≡ ok ((1 ∷ 2 ∷ []) ∷ [] ∷ [], s'))
    × (s' ≡ [])
read_frames-write_all_frames_example =
    read_frames-write_all_frames byte_stream (λ s. s) byte_stream-IsStream ((1 ∷ 2 ∷ []) ∷ [] ∷ [])
      [] (omega arith, (omega arith, tt)) refl

read_framed_truncated_example :
    read_framed byte_stream (2 ∷ 0 ∷ 0 ∷ 0 ∷ 5 ∷ []) ≡ err (io unexpected_eof)
read_framed_truncated_example =
    read_framed_truncated byte_stream (λ s. s) byte_stream-IsStream (2 ∷ 0 ∷ 0 ∷ 0 ∷ 5 ∷ [])
      (5 ∷ 6 ∷ []) (2 ∷ 0 ∷ 0 ∷ 0 ∷ 5 ∷ []) 6 [] (omega arith) refl
      (unfold frame to_le_bytes in refl)

read_framed_too_large_example :
    read_framed byte_stream (to_le_bytes 4 20000000 ++ []) ≡ err (frame_too_large 20000000)
read_framed_too_large_example =
    read_framed_too_large byte_stream (λ s. s) byte_stream-IsStream (to_le_bytes 4 20000000 ++ [])
      20000000 [] (omega arith) (omega arith) refl

abbrev new_ends : Ends Bytes
new_ends = record {
  producer = record { capacity = 16; dropped_frames = 0 };
  consumer = record { closed = false };
  queue = [];
}

new_ends-Holds : Holds (λ q. q) 16 new_ends fresh
new_ends-Holds = record {
  held = unfold bytes_of in refl;
  sendable = tt;
  sized = refl;
  same_closed = refl;
  same_dropped = refl;
}

abbrev some_calls : List Op
some_calls =
    push ((1 ∷ []) ∷ (2 ∷ 3 ∷ []) ∷ [])
    ∷ push ((4 ∷ 5 ∷ 6 ∷ 7 ∷ 8 ∷ 9 ∷ []) ∷ [])
    ∷ shut
    ∷ pop
    ∷ pop
    ∷ pop
    ∷ []

calls-run_example : calls (byte_queue 16) new_ends some_calls ≡ run 16 fresh some_calls
calls-run_example =
    calls-run (byte_queue 16) (λ q. q) 16 (byte_queue-IsShaq 16) (omega arith) some_calls new_ends
      fresh new_ends-Holds

abbrev no_failure : CreateOutcomes
no_failure = record { create_dir_all = none; open_new = none; shaq_create_error = none }

create_runs :
    create "/dev/shm/ring" no_failure 100 ≡ ok (record { capacity = 128; dropped_frames = 0 })
unfolding create next_power_of_two double_until
create_runs = refl

create_capacity_example : (64 ≤ 100) × (100 ≤ 128) × (128 < 2 * 100) × ((k : ℕ) × (128 ≡ 2 ^ k))
create_capacity_example =
    create_capacity "/dev/shm/ring" no_failure 100 (record { capacity = 128; dropped_frames = 0 })
      (omega arith) create_runs

flush-record_all_example :
    flush (record_all default (5 ∷ 3 ∷ []))
    ≡ (record { count = 2; total_us = 8; min_us = 3; max_us = 5 }, default)
unfolding total least greatest
flush-record_all_example = flush-record_all (5 ∷ 3 ∷ []) (omega arith) (omega arith)

avg_us_bounds_example :
    let snapshot = (flush (record_all default (5 ∷ 3 ∷ []))).0 in
    (snapshot.min_us ≤ avg_us snapshot) × (avg_us snapshot ≤ snapshot.max_us)
unfolding total
avg_us_bounds_example = avg_us_bounds 5 (3 ∷ []) (omega arith) (omega arith)

elapsed_rounds_up_example :
    let start : ℕ = 1000 in
    let elapsed = elapsed_since_unix_time_nanos_us start 3500 in
    ((start ≡ 0) × (elapsed ≡ 0))
    ⊎ ((start ≢ 0) × (2500 ≤ 1000 * elapsed) × (1000 * elapsed < 3500))
elapsed_rounds_up_example = elapsed_rounds_up 1000 3500 (omega arith)
