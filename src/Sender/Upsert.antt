-- ===== src/Sender/Upsert.antt =====
-- src/sender/mod.rs: `upsert_shm`, which refreshes a slot or sets up a new one. The calls are taken
-- one after the other, so the `compare_and_swap` on the slot that was found free succeeds in the first
-- round. `now` is what `now_ms` returns during the call.
use qlaster_public.Base.{Option, String, fetch_add, inl, inr, none, set, some, ℕ, ◌%◌, ◌^◌, ◌⊎◌}
use qlaster_public.Error.{
  IoError, Result, config_error, err, eventfd_failed, ok, panicked, shm_error, slots_exhausted,
}
use qlaster_public.Extern.{Bloom, PubkeyApi, Shaq}
use qlaster_public.Ring
use qlaster_public.Ring.{CreateOutcomes, ShmRingProducer, create}
use qlaster_public.Transport.{sink_shm}
use qlaster_public.Types.Token
use qlaster_public.Types.Token.{SlotToken, new}
use qlaster_public.Types.Subscription.{SubscriptionRequest}
use qlaster_public.Sender.Filter.{from_request, with_request}
use qlaster_public.Sender.Slots.{
  ConnectionManager, ManagedConnection, find_free_slot, lookup_by_token, max_connection_slots,
  slot_token,
}

pub data ShmSlotProvision : Type 0 where
  existing : SlotToken → ShmSlotProvision
  created : SlotToken → String → ℕ → ℕ → ShmSlotProvision

-- What the system gives to a new connection: the outcomes of the ring's calls, its queue, and the
-- descriptor of `EventFd::new` or its error.
pub record Provisioning (Q : Type 0) : Type 0 where
  pub ring : CreateOutcomes
  pub queue : Q
  pub eventfd : IoError ⊎ ℕ

module _ {K B Q : Type 0} (keys : PubkeyApi K) (bloom : Bloom B) (shaq : Shaq Q)
    (ring_path : ℕ → ℕ → String) (ring_capacity now : ℕ) where
  -- `request.slot_token.and_then(|token| self.lookup_by_token(token))`.
  unfoldable pub lookup_request :
      ConnectionManager K B Q
      → Option SlotToken
      → Option (ManagedConnection K B Q) × ConnectionManager K B Q
  lookup_request m none = (none, m)
  lookup_request m (some token) = lookup_by_token shaq now m token

  -- `apply_request`, and the time of the request.
  unfoldable pub refreshed :
      SubscriptionRequest K → ManagedConnection K B Q → ManagedConnection K B Q
  refreshed request entry = record entry {
    last_seen_ms = now;
    filter = with_request keys bloom entry.filter request;
  }

  -- The end of the loop: the connection in the slot that is free.
  unfoldable pub install :
      SubscriptionRequest K
      → ConnectionManager K B Q
      → ℕ
      → ℕ
      → ShmRingProducer
      → Q
      → ℕ
      → Result ShmSlotProvision × ConnectionManager K B Q
  install request m slot_index connection_id ring queue eventfd =
      let managed : ManagedConnection K B Q = record {
        slot_index = slot_index;
        connection_id = connection_id;
        filter = from_request keys bloom request;
        sink = sink_shm ring queue;
        last_seen_ms = now;
      } in
      (
        ok (
            created (Token.new (slot_index % 2 ^ 8) connection_id)
              (ring_path slot_index connection_id) ring_capacity eventfd),
        record m { connections = set m.connections slot_index (some managed) },
      )

  -- The ring and the descriptor of a slot that was found.
  unfoldable pub set_up :
      SubscriptionRequest K
      → Provisioning Q
      → ConnectionManager K B Q
      → ℕ
      → Option ℕ
      → Result ShmSlotProvision × ConnectionManager K B Q
  set_up request env m connection_id none =
      (err (config_error (slots_exhausted max_connection_slots)), m)
  set_up request env m connection_id (some slot_index) =
      elim (Ring.create (ring_path slot_index connection_id) env.ring ring_capacity) [
        | ok ring ↦ elim env.eventfd [
          | inl e ↦ (err (shm_error (eventfd_failed e)), m)
          | inr fd ↦ install request m slot_index connection_id ring env.queue fd
        ]
        | err e ↦ (err e, m)
        | panicked ↦ (panicked, m)
      ]

  unfoldable pub upsert_found :
      SubscriptionRequest K
      → Provisioning Q
      → Option (ManagedConnection K B Q) × ConnectionManager K B Q
      → Result ShmSlotProvision × ConnectionManager K B Q
  upsert_found request env (some entry, m) = (
    ok (existing (slot_token entry)),
    record m { connections = set m.connections entry.slot_index (some (refreshed request entry)) },
  )
  upsert_found request env (none, m) =
      let connection_id = m.next_connection_id in
      let (slot, m') =
        find_free_slot shaq now (record m { next_connection_id = fetch_add connection_id 1 }) in
      set_up request env m' connection_id slot

  unfoldable pub upsert_shm :
      SubscriptionRequest K
      → Provisioning Q
      → ConnectionManager K B Q
      → Result ShmSlotProvision × ConnectionManager K B Q
  upsert_shm request env m = upsert_found request env (lookup_request m request.slot_token)
