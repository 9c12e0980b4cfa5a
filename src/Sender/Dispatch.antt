-- ===== src/Sender/Dispatch.antt =====
-- src/sender/mod.rs: `dispatch_account_update` and its two siblings, `push_to_entry` and the three
-- `encode_..._frame`. Their loops differ in the filter and the encoder only, and are one loop here,
-- with these as arguments. `now` is what `now_ms` returns during a call, `send_us` and `dispatch_us`
-- are what the timers read. A warning that is logged changes no state.
pub mod Slotwise
use qlaster_public.Base.{
  Bool, Bytes, Option, if◌then◌else◌, none, not, set, some, suc, true, zero, ℕ,
}
use qlaster_public.Error.{Result, err, ok, panicked, ◌>>=◌}
use qlaster_public.Extern.{Bloom, Lz4, PubkeyApi, Shaq}
use qlaster_public.Metrics.{QlasterSenderMetrics, inc, record_us}
use qlaster_public.Transport.{OutboundFrame, Outcome, SlotSink, returned, sent, sink_push}
use qlaster_public.Types.Account
use qlaster_public.Types.Account.{AccountUpdate, encode_parts_at}
use qlaster_public.Types.Transaction
use qlaster_public.Types.Transaction.{TransactionUpdate}
use qlaster_public.Types.Slot
use qlaster_public.Types.Slot.{SlotUpdate}
use qlaster_public.Sender.Filter.{SubscriptionFilter, matches_account, matches_transaction}
use qlaster_public.Sender.Slots.{
  ConnectionManager, ManagedConnection, cleanup_if_same, load, max_connection_slots,
  maybe_cleanup_stale_slot,
}

-- The frame of the two parts, stamped with its start.
abbrev pub outbound : ℕ → Bytes × Bytes → Result OutboundFrame
outbound frame_start (header, payload) =
    ok (record { header = header; payload = payload; frame_start = frame_start })

unfoldable pub encode_account_frame :
    {K : Type 0} → PubkeyApi K → Lz4 → ℕ → ℕ → AccountUpdate K → Result OutboundFrame
encode_account_frame keys lz4 frame_start created_at update =
    Account.encode_parts_at keys lz4 update created_at >>= outbound frame_start

unfoldable pub encode_transaction_frame : ℕ → ℕ → TransactionUpdate → Result OutboundFrame
encode_transaction_frame frame_start created_at update =
    Transaction.encode_parts_at update created_at >>= outbound frame_start

unfoldable pub encode_slot_frame : ℕ → ℕ → SlotUpdate → Result OutboundFrame
encode_slot_frame frame_start created_at update =
    Slot.encode_parts_at update created_at >>= outbound frame_start

-- What the loop over the slots carries.
pub record Round (K B Q : Type 0) : Type 0 where
  pub manager : ConnectionManager K B Q
  pub metrics : QlasterSenderMetrics
  pub shared_frame : Option OutboundFrame

-- The loop goes on, or the function returns.
pub data Flow (K B Q : Type 0) : Type 0 where
  next : Round K B Q → Flow K B Q
  stop : Round K B Q → Flow K B Q

-- The frame that is shared, encoded where there is none yet.
unfoldable pub frame_of : Result OutboundFrame → Option OutboundFrame → Result OutboundFrame
frame_of encoded none = encoded
frame_of encoded (some frame) = ok frame

module _ {K B Q : Type 0} (shaq : Shaq Q) (now : ℕ) (send_us : ℕ → ℕ) where
  -- `push_to_entry` with what the sink answered. The entry stands in the slot `idx`, and its sink is
  -- changed there.
  unfoldable pub settle :
      ConnectionManager K B Q
      → QlasterSenderMetrics
      → ℕ
      → ManagedConnection K B Q
      → Outcome × SlotSink Q
      → ConnectionManager K B Q × QlasterSenderMetrics
  settle m metrics idx entry (sent, sink') = (
    record m { connections = set m.connections idx (some (record entry { sink = sink' })) },
    record metrics { shm_send = record_us metrics.shm_send (send_us idx) },
  )
  settle m metrics idx entry (returned back, sink') =
      let pushed = record m {
        connections = set m.connections idx (some (record entry { sink = sink' }));
      } in
      (
        cleanup_if_same shaq pushed entry.slot_index entry.connection_id,
        record metrics { shm_ring_full = inc metrics.shm_ring_full },
      )

  unfoldable pub push_to_entry :
      ConnectionManager K B Q
      → QlasterSenderMetrics
      → ℕ
      → ManagedConnection K B Q
      → OutboundFrame
      → ConnectionManager K B Q × QlasterSenderMetrics
  push_to_entry m metrics idx entry frame =
      settle m metrics idx entry (sink_push shaq entry.sink frame)

  -- The body of the loop from the encoding on; an error of the encoder ends the function.
  unfoldable pub push_frame :
      ℕ → ManagedConnection K B Q → Round K B Q → Result OutboundFrame → Flow K B Q
  push_frame idx entry r (ok frame) =
      let (m', metrics') = push_to_entry r.manager r.metrics idx entry frame in
      next (record { manager = m'; metrics = metrics'; shared_frame = some frame })
  push_frame idx entry r (err e) = stop r
  push_frame idx entry r panicked = stop r

  module _ (wants : SubscriptionFilter K B → Bool) (encoded : Result OutboundFrame) where
    unfoldable pub visit : ℕ → Round K B Q → Flow K B Q
    visit idx r = elim (load r.manager.connections idx) [
      | none ↦ next r
      | some entry ↦
          let (cleaned, m') = maybe_cleanup_stale_slot shaq now r.manager idx entry in
          if cleaned
          then next (record r { manager = m' })
          else if not (wants entry.filter)
          then next r
          else push_frame idx entry r (frame_of encoded r.shared_frame)
    ]

    -- The slots from `idx` on, with the number that is left.
    unfoldable pub visit_slots : ℕ → ℕ → Round K B Q → Round K B Q
    visit_slots zero idx r = r
    visit_slots (suc left) idx r = elim (visit idx r) [
      | next r' ↦ visit_slots left (suc idx) r'
      | stop r' ↦ r'
    ]

    unfoldable pub dispatch_update :
        ℕ
        → ConnectionManager K B Q
        → QlasterSenderMetrics
        → ConnectionManager K B Q × QlasterSenderMetrics
    dispatch_update dispatch_us m metrics =
        let r =
          visit_slots max_connection_slots 0
            (record { manager = m; metrics = metrics; shared_frame = none }) in
        (r.manager, record r.metrics { dispatch = record_us r.metrics.dispatch dispatch_us })

-- When a call encodes the update and how long it takes.
pub record Timing : Type 0 where
  pub now_ms : ℕ
  pub created_at : ℕ
  pub frame_start : ℕ
  pub send_us : ℕ → ℕ
  pub dispatch_us : ℕ

module _ {K B Q : Type 0} (keys : PubkeyApi K) (lz4 : Lz4) (bloom : Bloom B) (shaq : Shaq Q) where
  unfoldable pub dispatch_account_update :
      Timing
      → AccountUpdate K
      → ConnectionManager K B Q
      → QlasterSenderMetrics
      → ConnectionManager K B Q × QlasterSenderMetrics
  dispatch_account_update t update m metrics =
      dispatch_update shaq t.now_ms t.send_us (λ filter. matches_account keys bloom filter update)
        (encode_account_frame keys lz4 t.frame_start t.created_at update) t.dispatch_us m metrics

  unfoldable pub dispatch_transaction_update :
      Timing
      → TransactionUpdate
      → ConnectionManager K B Q
      → QlasterSenderMetrics
      → ConnectionManager K B Q × QlasterSenderMetrics
  dispatch_transaction_update t update m metrics =
      dispatch_update shaq t.now_ms t.send_us (λ filter. matches_transaction keys bloom filter)
        (encode_transaction_frame t.frame_start t.created_at update) t.dispatch_us m metrics

  -- A slot update goes to every slot.
  unfoldable pub dispatch_slot_update :
      Timing
      → SlotUpdate
      → ConnectionManager K B Q
      → QlasterSenderMetrics
      → ConnectionManager K B Q × QlasterSenderMetrics
  dispatch_slot_update t update m metrics =
      dispatch_update shaq t.now_ms t.send_us (λ filter. true)
        (encode_slot_frame t.frame_start t.created_at update) t.dispatch_us m metrics
