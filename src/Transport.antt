-- ===== src/Transport.antt =====
-- src/transport.rs: the sink of a connection slot, a ring and the wake-up of its consumer. An error of
-- `notify` is only logged, so `wakeups` counts its calls; Q is the byte queue that the ring shares.
pub mod Delivery
use qlaster_public.Base.{Bytes, [], length, ℕ, ◌+◌, ◌∷◌}
use qlaster_public.Error.{Result, err, ok, panicked}
use qlaster_public.Extern.{Shaq}
use qlaster_public.Ring
use qlaster_public.Ring.{ShmRingProducer, close, try_push}

pub record OutboundFrame : Type 0 where
  pub header : Bytes
  pub payload : Bytes
  pub frame_start : ℕ

abbrev pub total_len : OutboundFrame → ℕ
total_len frame = length frame.header + length frame.payload

pub record SlotSink (Q : Type 0) : Type 0 where
  pub ring : ShmRingProducer
  pub queue : Q
  pub wakeups : ℕ

-- `SlotSink::shm`; the queue behind the ring is the state that it starts with.
abbrev pub sink_shm : {Q : Type 0} → ShmRingProducer → Q → SlotSink Q
sink_shm ring queue = record { ring = ring; queue = queue; wakeups = 0 }

pub data Outcome : Type 0 where
  sent : Outcome
  returned : OutboundFrame → Outcome

-- The match on the ring's result.
unfoldable pub notified :
    {Q : Type 0}
    → SlotSink Q
    → OutboundFrame
    → Result (Unit {0}) × ShmRingProducer × Q
    → Outcome × SlotSink Q
notified s frame (ok done, ring, queue) =
    (sent, record { ring = ring; queue = queue; wakeups = s.wakeups + 1 })
notified s frame (err e, ring, queue) =
    (returned frame, record { ring = ring; queue = queue; wakeups = s.wakeups })
notified s frame (panicked, ring, queue) =
    (returned frame, record { ring = ring; queue = queue; wakeups = s.wakeups })

module _ {Q : Type 0} (shaq : Shaq Q) where
  unfoldable pub sink_push : SlotSink Q → OutboundFrame → Outcome × SlotSink Q
  sink_push s frame =
      notified s frame (Ring.try_push shaq s.ring s.queue (frame.header ∷ frame.payload ∷ []))

  unfoldable pub sink_close : SlotSink Q → SlotSink Q
  sink_close s = record s { queue = Ring.close shaq s.queue; wakeups = s.wakeups + 1 }
