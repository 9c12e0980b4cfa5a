-- ===== src/Consumer/Reader.antt =====
-- src/consumer/shm.rs: `run_reader`, which drains the ring into the three queues, and
-- `record_decode_and_enqueue`. The times that a round takes and what the system and the producer do
-- while it waits are arguments. A warning that is logged changes no state.
pub mod Kept
pub mod Updates
pub mod Drain
pub mod Session
pub mod EndToEnd
use qlaster_public.Base.{
  Bool, Bytes, List, Option, [], if◌then◌else◌, none, some, suc, zero, ℕ, ◌∷◌,
}
use qlaster_public.Error.{IoError, Result, err, ok, panicked}
use qlaster_public.Extern.{ArrayQueue, Lz4, PubkeyApi, Shaq}
use qlaster_public.Metrics.{QlasterConsumerMetrics, elapsed_since_unix_time_nanos_us, record_us}
use qlaster_public.Ring.{ShmRingConsumer, is_closed, try_pop}
use qlaster_public.Types.Account.{AccountUpdate, decode}
use qlaster_public.Types.Transaction.{TransactionUpdate}
use qlaster_public.Types.Slot.{SlotUpdate}
use qlaster_public.Types.Frames.{
  Codecs, ServerFrameWithMeta, account_update, connection_ready, connection_ready_shm,
  decode_server_frame_owned_with_meta, slot_update, transaction_update,
}

abbrev pub consumer_update_queue_capacity : ℕ
consumer_update_queue_capacity = 2048

-- What the clocks read in a round of the inner loop.
pub record ReadTiming : Type 0 where
  pub read_us : ℕ
  pub decode_us : ℕ
  pub enqueue_us : ℕ
  pub unix_nanos : ℕ

-- The end of the ring and what the task shares with its owner; `queue` is shared with the producer.
pub record ReaderState (K Q : Type 0) (C : Type 0 → Type 0) : Type 0 where
  pub ring : ShmRingConsumer
  pub queue : Q
  pub updates : C (AccountUpdate K)
  pub transactions : C TransactionUpdate
  pub slots : C SlotUpdate
  pub metrics : QlasterConsumerMetrics

-- The four records; the update is put into its queue between the third and the fourth.
unfoldable pub record_decode_and_enqueue :
    ReadTiming → ℕ → QlasterConsumerMetrics → QlasterConsumerMetrics
record_decode_and_enqueue t created_at metrics = record {
  read = record_us metrics.read t.read_us;
  decode = record_us metrics.decode t.decode_us;
  enqueue = record_us metrics.enqueue t.enqueue_us;
  full_read =
      record_us metrics.full_read (elapsed_since_unix_time_nanos_us created_at t.unix_nanos);
}

-- A round of the inner loop: a frame was taken, the ring gave none, or the decoder panicked.
pub data Round (K Q : Type 0) (C : Type 0 → Type 0) : Type 0 where
  taken : ReaderState K Q C → Round K Q C
  idle : ReaderState K Q C → Round K Q C
  crashed : Round K Q C

-- The inner loop on fuel.
pub data Drained (K Q : Type 0) (C : Type 0 → Type 0) : Type 0 where
  drained : ReaderState K Q C → Drained K Q C
  task_panicked : Drained K Q C
  no_fuel : Drained K Q C

-- What happens while the task waits: the producer writes to the shared queue, the wait ends, and
-- the ring's file is there or not when the ring was asked whether it is closed.
pub record Wake (Q : Type 0) : Type 0 where
  pub path_exists : Bool
  pub produce : Q → Q
  pub wait : Option IoError

-- How the task stands: it returned, it is at the top of its loop, it died, or the fuel was not enough.
pub data TaskState (K Q : Type 0) (C : Type 0 → Type 0) : Type 0 where
  returned : ReaderState K Q C → TaskState K Q C
  looping : ReaderState K Q C → TaskState K Q C
  died : TaskState K Q C
  exhausted : TaskState K Q C

module _ {K Q : Type 0} {C : Type 0 → Type 0} (keys : PubkeyApi K) (lz4 : Lz4) (codecs : Codecs)
    (shaq : Shaq Q) (array_queue : ArrayQueue C) where
  -- The match on the decoder's result.
  unfoldable pub enqueue :
      ReadTiming → ReaderState K Q C → Result (ServerFrameWithMeta K) → Round K Q C
  enqueue t s (ok (account_update update meta)) = taken (record s {
    updates = array_queue.force_push s.updates update;
    metrics = record_decode_and_enqueue t meta.sender_created_at_unix_nanos s.metrics;
  })
  enqueue t s (ok (transaction_update update meta)) = taken (record s {
    transactions = array_queue.force_push s.transactions update;
    metrics = record_decode_and_enqueue t meta.sender_created_at_unix_nanos s.metrics;
  })
  enqueue t s (ok (slot_update update meta)) = taken (record s {
    slots = array_queue.force_push s.slots update;
    metrics = record_decode_and_enqueue t meta.sender_created_at_unix_nanos s.metrics;
  })
  enqueue t s (ok (connection_ready ready)) = taken s
  enqueue t s (ok (connection_ready_shm ready)) = taken s
  enqueue t s (err e) = taken s
  enqueue t s panicked = crashed

  -- The match on what the ring gives.
  unfoldable pub on_pop : ReadTiming → ReaderState K Q C → Option Bytes → Round K Q C
  on_pop t s none = idle s
  on_pop t s (some bytes) = enqueue t s (decode_server_frame_owned_with_meta keys lz4 codecs bytes)

  unfoldable pub read_round : ReadTiming → ReaderState K Q C → Round K Q C
  read_round t s =
      let (bytes, ring, queue) = try_pop shaq s.ring s.queue in
      on_pop t (record s { ring = ring; queue = queue }) bytes

  -- The inner loop from its round `i` on.
  unfoldable pub drain : (ℕ → ReadTiming) → ℕ → ℕ → ReaderState K Q C → Drained K Q C
  drain times zero i s = no_fuel
  drain times (suc fuel) i s = elim (read_round (times i) s) [
    | taken s' ↦ drain times fuel (suc i) s'
    | idle s' ↦ drained s'
    | crashed ↦ task_panicked
  ]

  -- From a drained ring on: closed, or a wait that fails, or the next round.
  unfoldable pub after_drain :
      Wake Q → Drained K Q C → (ReaderState K Q C → TaskState K Q C) → TaskState K Q C
  after_drain wake (drained s) continue =
      if is_closed s.ring wake.path_exists then returned s else elim wake.wait [
        | some e ↦ returned s
        | none ↦ continue (record s { queue = wake.produce s.queue })
      ]
  after_drain wake task_panicked continue = died
  after_drain wake no_fuel continue = exhausted

  -- The outer loop from its round `i` on, over the wake-ups; `times i` are the clocks in the round
  -- `i`, and `fuel` bounds each inner loop.
  unfoldable pub read_loop :
      (ℕ → ℕ → ReadTiming) → ℕ → ℕ → List (Wake Q) → ReaderState K Q C → TaskState K Q C
  read_loop times fuel i [] s = looping s
  read_loop times fuel i (wake ∷ wakes) s =
      after_drain wake (drain (times i) fuel 0 s) (λ s'. read_loop times fuel (suc i) wakes s')

  -- The task, by the error of `AsyncEventFd::new`, if it gave one.
  unfoldable pub run_reader :
      Option IoError
      → (ℕ → ℕ → ReadTiming)
      → ℕ
      → List (Wake Q)
      → ReaderState K Q C
      → TaskState K Q C
  run_reader (some e) times fuel wakes s = returned s
  run_reader none times fuel wakes s = read_loop times fuel 0 wakes s
