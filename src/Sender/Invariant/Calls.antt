-- ===== src/Sender/Invariant/Calls.antt =====
-- src/sender/mod.rs: the calls of a `ConnectionManager` keep the invariant.

use qlaster_public.Base.{
  Bool, Bool-cases, Option, Option-cases, ap, inl, inr, leb, none, refl, some, suc, zero, ℕ, ◌&&◌,
  ◌==◌, ◌∙◌, ◌≡◌,
}
use qlaster_public.Error.{Result, err, ok, panicked}
use qlaster_public.Extern.{Shaq}
use qlaster_public.Metrics.{QlasterSenderMetrics}
use qlaster_public.Transport.{OutboundFrame, Outcome, SlotSink, returned, sent, sink_push}
use qlaster_public.Types.Token.{SlotToken}
use qlaster_public.Types.Ping.{PingRequest}
use qlaster_public.Sender.Filter.{SubscriptionFilter}
use qlaster_public.Sender.Slots.{
  ConnectionManager, ManagedConnection, cleanup_if_same, find_free_slot, find_from, is_free,
  is_stale, load, lookup_by_token, lookup_loaded, max_connection_slots, maybe_cleanup_stale_slot,
  touch_found, touch_ping,
}
use qlaster_public.Sender.Slots.Tokens.{lookup_inv}
use qlaster_public.Sender.Dispatch.{
  Flow, Round, dispatch_update, frame_of, next, push_frame, push_to_entry, settle, stop, visit,
  visit_slots,
}
use qlaster_public.Sender.Invariant.{IsValidAt, evict-IsValidAt, replaced-IsValidAt}

module _ {K B Q : Type 0} (shaq : Shaq Q) (now count bound dead : ℕ) where
  pub maybe_cleanup_stale_slot-IsValidAt :
      (m : ConnectionManager K B Q) (idx : ℕ) (entry : ManagedConnection K B Q)
      → IsValidAt count bound dead m
      → load m.connections idx ≡ some entry
      → IsValidAt count bound dead (maybe_cleanup_stale_slot shaq now m idx entry).1
  unfolding maybe_cleanup_stale_slot
  maybe_cleanup_stale_slot-IsValidAt m idx entry v held = elim (Bool-cases (is_stale now entry)) [
    | inl stale ↦ rw stale (evict-IsValidAt shaq count bound dead m idx entry v held)
    | inr fresh ↦ rw fresh v
  ]

  pub cleanup_if_same-IsValidAt :
      (m : ConnectionManager K B Q) (slot_index connection_id : ℕ)
      → IsValidAt count bound dead m
      → IsValidAt count bound dead (cleanup_if_same shaq m slot_index connection_id)
  unfolding cleanup_if_same
  cleanup_if_same-IsValidAt m slot_index connection_id v =
      elim (Option-cases (load m.connections slot_index)) [
        | inl free ↦ rw (free, cleanup_if_same) v
        | inr (entry, held) ↦ elim (Bool-cases (entry.connection_id == connection_id)) [
          | inl same ↦
              rw (held, same, cleanup_if_same)
                (evict-IsValidAt shaq count bound dead m slot_index entry v held)
          | inr other ↦ rw (held, other, cleanup_if_same) v
        ]
      ]

  lookup_loaded-IsValidAt :
      (m : ConnectionManager K B Q) (token : SlotToken) (slot : Option (ManagedConnection K B Q))
      → IsValidAt count bound dead m
      → load m.connections token.slot_index ≡ slot
      → IsValidAt count bound dead (lookup_loaded shaq now m token slot).1
  unfolding lookup_loaded
  lookup_loaded-IsValidAt m token none v held = v
  lookup_loaded-IsValidAt m token (some entry) v held =
      elim (Bool-cases (entry.connection_id == token.generation)) [
        | inl same ↦
            let v' = maybe_cleanup_stale_slot-IsValidAt m token.slot_index entry v held in
            elim (Bool-cases (maybe_cleanup_stale_slot shaq now m token.slot_index entry).0) [
              | inl stale ↦ rw (same, stale) v'
              | inr fresh ↦ rw (same, fresh) v
            ]
        | inr other ↦ rw other v
      ]

  pub lookup_by_token-IsValidAt :
      (m : ConnectionManager K B Q) (token : SlotToken)
      → IsValidAt count bound dead m
      → IsValidAt count bound dead (lookup_by_token shaq now m token).1
  unfolding lookup_by_token
  lookup_by_token-IsValidAt m token v =
      elim (Bool-cases (leb max_connection_slots token.slot_index)) [
        | inl out ↦ rw out v
        | inr within ↦ rw within (lookup_loaded-IsValidAt m token _ v refl)
      ]

  touch_found-IsValidAt :
      (m : ConnectionManager K B Q) (token : SlotToken)
      (found : Option (ManagedConnection K B Q) × ConnectionManager K B Q)
      → IsValidAt count bound dead found.1
      → ((entry : ManagedConnection K B Q)
          → found.0 ≡ some entry
          → load (found.1).connections token.slot_index ≡ some entry)
      → IsValidAt count bound dead (touch_found shaq now token found).1
  unfolding touch_found
  touch_found-IsValidAt m token (none, m') v held = v
  touch_found-IsValidAt m token (some entry, m') v held =
      replaced-IsValidAt count bound dead m' token.slot_index entry
        (record entry { last_seen_ms = now }) v (held entry refl) refl refl

  -- What a lookup finds stands in its slot, and the lookup has changed nothing.
  pub lookup_by_token-held :
      (m : ConnectionManager K B Q) (token : SlotToken) (entry : ManagedConnection K B Q)
      → (lookup_by_token shaq now m token).0 ≡ some entry
      → load (lookup_by_token shaq now m token).1.connections token.slot_index ≡ some entry
  lookup_by_token-held m token entry found =
      let (small, held, same, fresh, kept) = lookup_inv shaq now m token entry found in
      ap (λ (r : ConnectionManager K B Q). load r.connections token.slot_index) kept ∙ held

  pub touch_ping-IsValidAt :
      (m : ConnectionManager K B Q) (ping : PingRequest)
      → IsValidAt count bound dead m
      → IsValidAt count bound dead (touch_ping shaq now m ping).1
  unfolding touch_ping
  touch_ping-IsValidAt m ping v =
      touch_found-IsValidAt m ping.slot_token (lookup_by_token shaq now m ping.slot_token)
        (lookup_by_token-IsValidAt m ping.slot_token v) (lookup_by_token-held m ping.slot_token)

  find_from-IsValidAt :
      (left idx : ℕ) (m : ConnectionManager K B Q)
      → IsValidAt count bound dead m
      → IsValidAt count bound dead (find_from shaq now left idx m).1
  unfolding find_from
  find_from-IsValidAt zero idx m v = v
  find_from-IsValidAt (suc left) idx m v = elim (Option-cases (load m.connections idx)) [
    | inl free ↦ rw (free, find_from) v
    | inr (entry, held) ↦
        let v' = maybe_cleanup_stale_slot-IsValidAt m idx entry v held in
        let m' = (maybe_cleanup_stale_slot shaq now m idx entry).1 in
        elim (Bool-cases
          ((maybe_cleanup_stale_slot shaq now m idx entry).0 && is_free shaq m' idx)) [
            | inl found ↦ rw (held, found, find_from) v'
            | inr on ↦ rw (held, on, find_from) (find_from-IsValidAt left (suc idx) m' v')
          ]
  ]

  pub find_free_slot-IsValidAt :
      (m : ConnectionManager K B Q)
      → IsValidAt count bound dead m
      → IsValidAt count bound dead (find_free_slot shaq now m).1
  unfolding find_free_slot
  find_free_slot-IsValidAt m v = find_from-IsValidAt max_connection_slots 0 m v

  module _ (send_us : ℕ → ℕ) where
    settle-IsValidAt :
        (m : ConnectionManager K B Q) (metrics : QlasterSenderMetrics) (idx : ℕ)
        (entry : ManagedConnection K B Q) (r : Outcome × SlotSink Q)
        → IsValidAt count bound dead m
        → load m.connections idx ≡ some entry
        → IsValidAt count bound dead (settle shaq now send_us m metrics idx entry r).0
    unfolding settle
    settle-IsValidAt m metrics idx entry (sent, sink) v held =
        replaced-IsValidAt count bound dead m idx entry (record entry { sink = sink }) v held refl
          refl
    settle-IsValidAt m metrics idx entry (returned back, sink) v held =
        cleanup_if_same-IsValidAt _ entry.slot_index entry.connection_id (
          replaced-IsValidAt count bound dead m idx entry (record entry { sink = sink }) v held refl
            refl)

    -- The manager that a body of the loop leaves.
    manager_of : Flow K B Q → ConnectionManager K B Q
    manager_of (next r) = r.manager
    manager_of (stop r) = r.manager

    push_frame-IsValidAt :
        (idx : ℕ) (entry : ManagedConnection K B Q) (r : Round K B Q)
        (encoded : Result OutboundFrame)
        → IsValidAt count bound dead r.manager
        → load r.manager.connections idx ≡ some entry
        → IsValidAt count bound dead (manager_of (push_frame shaq now send_us idx entry r encoded))
    unfolding push_frame push_to_entry manager_of
    push_frame-IsValidAt idx entry r (ok frame) v held =
        settle-IsValidAt r.manager r.metrics idx entry (sink_push shaq entry.sink frame) v held
    push_frame-IsValidAt idx entry r (err e) v held = v
    push_frame-IsValidAt idx entry r panicked v held = v

    module _ (wants : SubscriptionFilter K B → Bool) (encoded : Result OutboundFrame) where
      visit-IsValidAt :
          (idx : ℕ) (r : Round K B Q)
          → IsValidAt count bound dead r.manager
          → IsValidAt count bound dead (manager_of (visit shaq now send_us wants encoded idx r))
      unfolding visit manager_of
      visit-IsValidAt idx r v = elim (Option-cases (load r.manager.connections idx)) [
        | inl free ↦ rw (free, visit) v
        | inr (entry, held) ↦
            let v' = maybe_cleanup_stale_slot-IsValidAt r.manager idx entry v held in
            elim (Bool-cases (maybe_cleanup_stale_slot shaq now r.manager idx entry).0) [
              | inl stale ↦ rw (held, stale, visit) v'
              | inr fresh ↦ elim (Bool-cases (wants entry.filter)) [
                | inl wanted ↦
                    rw (held, fresh, wanted, visit)
                      (push_frame-IsValidAt idx entry r (frame_of encoded r.shared_frame) v held)
                | inr other ↦ rw (held, fresh, other, visit) v
              ]
            ]
      ]

      -- What the loop does with the flow of its body, where the rest of it keeps the invariant.
      visit_slots_flow :
          (left idx : ℕ) (r : Round K B Q) (flow : Flow K B Q)
          → visit shaq now send_us wants encoded idx r ≡ flow
          → IsValidAt count bound dead (manager_of flow)
          → ((r' : Round K B Q)
              → IsValidAt count bound dead r'.manager
              → IsValidAt count bound dead
                  (visit_slots shaq now send_us wants encoded left (suc idx) r').manager)
          → IsValidAt count bound dead
              (visit_slots shaq now send_us wants encoded (suc left) idx r).manager
      unfolding visit_slots manager_of
      visit_slots_flow left idx r (next r') e v rest = rw (e, visit_slots) (rest r' v)
      visit_slots_flow left idx r (stop r') e v rest = rw (e, visit_slots) v

      visit_slots-IsValidAt :
          (left idx : ℕ) (r : Round K B Q)
          → IsValidAt count bound dead r.manager
          → IsValidAt count bound dead
              (visit_slots shaq now send_us wants encoded left idx r).manager
      unfolding visit_slots
      visit_slots-IsValidAt zero idx r v = v
      visit_slots-IsValidAt (suc left) idx r v =
          visit_slots_flow left idx r _ refl (visit-IsValidAt idx r v)
            (visit_slots-IsValidAt left (suc idx))

      pub dispatch_update-IsValidAt :
          (dispatch_us : ℕ) (m : ConnectionManager K B Q) (metrics : QlasterSenderMetrics)
          → IsValidAt count bound dead m
          → IsValidAt count bound dead
              (dispatch_update shaq now send_us wants encoded dispatch_us m metrics).0
      unfolding dispatch_update
      dispatch_update-IsValidAt dispatch_us m metrics v =
          visit_slots-IsValidAt max_connection_slots 0 _ v
