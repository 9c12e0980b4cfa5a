-- ===== src/Sender/Slots/Tokens.antt =====
-- What a token finds: the entry that it was given for, and no other, for as long as it is pinged.
use qlaster_public.Sender.Slots.Load.{load-set, load_in_range}
use qlaster_public.Types.Ping.{PingRequest}
use qlaster_public.Base.{
  ==_iff, Bool-cases, Option, ap, arith, false, inl, inr, leb, none, refl, set, some, true, ℕ, ◌%◌,
  ◌+◌, ◌<◌, ◌==◌, ◌^◌, ◌∙◌, ◌≡◌, ◌≤◌,
}
use qlaster_public.Extern.{Shaq}
use qlaster_public.Types.Token.{SlotToken}
use qlaster_public.Sender.Slots.{
  ConnectionManager, ManagedConnection, is_stale, load, lookup_by_token, lookup_loaded,
  max_connection_slots, maybe_cleanup_stale_slot, slot_idle_timeout_ms, slot_token, touch_found,
  touch_ping,
}

module _ {K B Q : Type 0} where
  -- Every entry stands in the slot that it names.
  abbrev pub IsPlaced : ConnectionManager K B Q → Type 0
  IsPlaced m =
      (i : ℕ) (entry : ManagedConnection K B Q)
      → load m.connections i ≡ some entry
      → (entry.slot_index ≡ i) × (i < max_connection_slots)

module _ {K B Q : Type 0} (shaq : Shaq Q) where
  lookup_loaded_inv :
      (now : ℕ) (m : ConnectionManager K B Q) (token : SlotToken)
      (slot : Option (ManagedConnection K B Q)) (entry : ManagedConnection K B Q)
      → (lookup_loaded shaq now m token slot).0 ≡ some entry
      → (slot ≡ some entry)
        × (entry.connection_id ≡ token.generation)
        × (is_stale now entry ≡ false)
        × ((lookup_loaded shaq now m token slot).1 ≡ m)
  unfolding lookup_loaded maybe_cleanup_stale_slot
  lookup_loaded_inv now m token none entry h = cc
  lookup_loaded_inv now m token (some found) entry h = ground arith

  pub lookup_inv :
      (now : ℕ) (m : ConnectionManager K B Q) (token : SlotToken) (entry : ManagedConnection K B Q)
      → (lookup_by_token shaq now m token).0 ≡ some entry
      → (token.slot_index < max_connection_slots)
        × (load m.connections token.slot_index ≡ some entry)
        × (entry.connection_id ≡ token.generation)
        × (is_stale now entry ≡ false)
        × ((lookup_by_token shaq now m token).1 ≡ m)
  unfolding lookup_by_token
  lookup_inv now m token entry h = elim (Bool-cases (leb max_connection_slots token.slot_index)) [
    | inl out ↦ absurd (ground (arith, h, out))
    | inr within ↦
        let h' = rw within at h in
        let inv = lookup_loaded_inv now m token (load m.connections token.slot_index) entry h' in
        rw within (ground (arith, within), inv.0, inv.1, inv.2, inv.3)
  ]

  -- Where every entry stands in the slot that it names, a token finds only an entry whose own
  -- token it is, which stands in that slot and is not stale.
  pub lookup_by_token-slot_token :
      (now : ℕ) (m : ConnectionManager K B Q) (token : SlotToken) (entry : ManagedConnection K B Q)
      → IsPlaced m
      → (lookup_by_token shaq now m token).0 ≡ some entry
      → (slot_token entry ≡ token)
        × (load m.connections token.slot_index ≡ some entry)
        × (is_stale now entry ≡ false)
  unfolding slot_token
  lookup_by_token-slot_token now m token entry placed h =
      let (small, loaded, same, fresh, _) = lookup_inv now m token entry h in
      let (index, _) = placed token.slot_index entry loaded in
      let byte : entry.slot_index % 2 ^ 8 ≡ token.slot_index = omega (arith, index, small) in
      (λ i. record { slot_index = byte i; generation = same i }, loaded, fresh)

  pub is_stale_later :
      (now later : ℕ) (entry : ManagedConnection K B Q)
      → later ≤ now + slot_idle_timeout_ms
      → is_stale later (record entry { last_seen_ms = now }) ≡ false
  unfolding is_stale
  is_stale_later now later entry h = ground arith

  pub touch_found_inv :
      (now : ℕ) (token : SlotToken)
      (found : Option (ManagedConnection K B Q) × ConnectionManager K B Q)
      → (touch_found shaq now token found).0 ≡ true
      → (entry : ManagedConnection K B Q) × (found.0 ≡ some entry)
        × ((touch_found shaq now token found).1 ≡ record (found.1) {
          connections =
              set
                (found.1).connections
                token.slot_index
                (some (record entry { last_seen_ms = now }));
        })
  unfolding touch_found
  touch_found_inv now token (none, m) h = cc
  touch_found_inv now token (some entry, m) h = (entry, refl, refl)

  pub lookup_of :
      (now : ℕ) (m : ConnectionManager K B Q) (token : SlotToken) (entry : ManagedConnection K B Q)
      → token.slot_index < max_connection_slots
      → load m.connections token.slot_index ≡ some entry
      → entry.connection_id ≡ token.generation
      → is_stale now entry ≡ false
      → (lookup_by_token shaq now m token).0 ≡ some entry
  unfolding lookup_by_token lookup_loaded maybe_cleanup_stale_slot
  lookup_of now m token entry small loaded same fresh =
      let within : leb max_connection_slots token.slot_index ≡ false = ground (arith, small) in
      let equal : (entry.connection_id == token.generation) ≡ true = (==_iff _ _).1 same in
      rw (within, loaded, fresh, equal)

  -- A ping that is accepted keeps its connection: the token finds the entry that it found at the
  -- ping, with the time of the ping, at any time up to SLOT_IDLE_TIMEOUT later, if no other call
  -- came between.
  pub lookup_by_token-touch_ping :
      (now later : ℕ) (m : ConnectionManager K B Q) (ping : PingRequest)
      → later ≤ now + slot_idle_timeout_ms
      → (touch_ping shaq now m ping).0 ≡ true
      → (entry : ManagedConnection K B Q) × ((lookup_by_token shaq now m ping.slot_token).0
          ≡ some entry)
        × ((lookup_by_token shaq later (touch_ping shaq now m ping).1 ping.slot_token).0
            ≡ some (record entry { last_seen_ms = now }))
  unfolding touch_ping
  lookup_by_token-touch_ping now later m ping h done =
      let token = ping.slot_token in
      let (entry, found, touched) =
        touch_found_inv now token (lookup_by_token shaq now m token) done in
      let (small, loaded, same, fresh, kept) = lookup_inv now m token entry found in
      let slots = set m.connections token.slot_index (some (record entry { last_seen_ms = now })) in
      let back : load slots token.slot_index ≡ some (record entry { last_seen_ms = now }) =
        load-set m.connections token.slot_index _
          (load_in_range m.connections token.slot_index entry loaded) in
      let after : (touch_ping shaq now m ping).1 ≡ record m { connections = slots } =
        unfold touch_ping in
        touched
        ∙ ap
            (λ (r : ConnectionManager K B Q). record r {
              connections =
                  set r.connections token.slot_index (some (record entry { last_seen_ms = now }));
            })
            kept in
      (
        entry,
        found,
        ap (λ r. (lookup_by_token shaq later r token).0) after
            ∙ lookup_of later (record m { connections = slots }) token _ small back same
                (is_stale_later now later entry h),
      )
