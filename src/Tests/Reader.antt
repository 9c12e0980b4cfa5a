-- ===== src/Tests/Reader.antt =====
-- The reader of the consumer on a ring that the producer fills and closes.

use qlaster_public.Consumer.Reader.EndToEnd.{
  Encodes, accounts_of, run_reader-encode, slots_of, transactions_of,
}
use qlaster_public.Consumer.Reader.Session.{ending}
use qlaster_public.Consumer.Reader.Kept.{keep_last}
use qlaster_public.Consumer.Reader.Updates.{all_bodies, frames_then}
use qlaster_public.Consumer.Reader.{
  ReadTiming, ReaderState, Wake, consumer_update_queue_capacity, returned, run_reader,
}
use qlaster_public.Ring.Refine.{bytes_of}
use qlaster_public.Types.Frames.RoundTrip.{encode_server_frame}
use qlaster_public.Types.Frames.{ServerFrameWithMeta}
use qlaster_public.Types.Slot.{decode, encode, encode_parts, encode_parts_at}
use qlaster_public.Types.{sent_at}
use qlaster_public.Tests.Updates.{slot_300, slot_frame}
use qlaster_public.Tests.Peers.{Bounded, list_queue, list_queue-IsArrayQueue}
use qlaster_public.Tests.Models.{
  Key, byte_queue, byte_queue-IsShaq, codecs, codecs-IsCodecs, keys, keys-IsPubkeyApi, supported,
  zeros_lz4, zeros_lz4-IsLz4,
}
use qlaster_public.Metrics.{QlasterConsumerMetrics, default}
use qlaster_public.Error.{ok}
use qlaster_public.Types.Slot
use qlaster_public.Base.{
  Bytes, List, [], ap, arith, false, none, refl, to_le_bytes, true, ℕ, ◌++◌, ◌∷◌, ◌≡◌,
}

abbrev ones_time : ℕ → ℕ → ReadTiming
ones_time round i = record { read_us = 1; decode_us = 1; enqueue_us = 1; unix_nanos = 9 }

abbrev fresh_metrics : QlasterConsumerMetrics
fresh_metrics = record { read = default; decode = default; enqueue = default; full_read = default }

abbrev first_batch : List Bytes
first_batch = slot_frame ∷ []

abbrev second_batch : List Bytes
second_batch = slot_frame ∷ slot_frame ∷ []

abbrev two_wakes : List (Wake Bytes)
two_wakes =
    record {
      path_exists = true;
      produce = λ q. q ++ bytes_of (frames_then second_batch (ending []));
      wait = none;
    }
    ∷ record { path_exists = true; produce = λ q. q; wait = none }
    ∷ []

abbrev three_slots : List (ServerFrameWithMeta Key)
three_slots =
    ServerFrameWithMeta.slot_update slot_300 (sent_at 7)
    ∷ ServerFrameWithMeta.slot_update slot_300 (sent_at 7)
    ∷ ServerFrameWithMeta.slot_update slot_300 (sent_at 7)
    ∷ []

abbrev ring_bytes : Bytes
ring_bytes = bytes_of (frames_then first_batch (ending (second_batch ∷ [])))

slot_frame_encoded :
    encode_server_frame keys zeros_lz4 codecs (ServerFrameWithMeta.slot_update slot_300 (sent_at 7))
    ≡ ok slot_frame
unfolding encode_server_frame Slot.encode Slot.encode_parts Slot.encode_parts_at to_le_bytes
slot_frame_encoded = refl

three_slots-Encodes :
    Encodes keys zeros_lz4 codecs supported (all_bodies first_batch (second_batch ∷ [])) three_slots
unfolding all_bodies
three_slots-Encodes = (
  slot_frame_encoded,
  (omega arith, omega arith),
  (
    slot_frame_encoded,
    (omega arith, omega arith),
    (slot_frame_encoded, (omega arith, omega arith), tt),
  ),
)

run_reader-encode_example :
    (s' : ReaderState Key Bytes Bounded) × (run_reader keys zeros_lz4 codecs
        (byte_queue 64)
        list_queue
        none
        ones_time
        3
        two_wakes
        (record {
          ring = record { closed = false };
          queue = ring_bytes;
          updates = ([], 2048);
          transactions = ([], 2048);
          slots = ([], 2048);
          metrics = fresh_metrics;
        })
      ≡ returned s')
    × (s'.updates.0 ≡ keep_last consumer_update_queue_capacity (accounts_of three_slots))
    × (s'.transactions.0 ≡ keep_last consumer_update_queue_capacity (transactions_of three_slots))
    × (s'.slots.0 ≡ keep_last consumer_update_queue_capacity (slots_of three_slots))
run_reader-encode_example =
    run_reader-encode keys zeros_lz4 codecs (byte_queue 64) (λ q. q) 64 (byte_queue-IsShaq 64)
      (omega arith) list_queue (λ A c. c.0) (λ A c. c.1) list_queue-IsArrayQueue supported
      keys-IsPubkeyApi zeros_lz4-IsLz4 codecs-IsCodecs none ones_time 3 two_wakes first_batch
      (second_batch ∷ []) three_slots ring_bytes fresh_metrics
      ((omega arith, (omega arith, tt)), ((omega arith, (omega arith, (omega arith, tt))), tt))
      (refl, refl, (λ q e. ap (λ b. b ++ bytes_of (frames_then second_batch (ending []))) e), tt)
      refl three_slots-Encodes
