-- ===== src/Sender/Invariant/Provision/Lookup.antt =====
-- src/sender/mod.rs: the token that `upsert_shm` gives finds the connection that it set up or refreshed.

use qlaster_public.Sender.Slots.Load.{load-set, load_in_range}
use qlaster_public.Sender.Invariant.Calls.{find_free_slot-IsValidAt}
use qlaster_public.Sender.Slots.Free.{find_free_slot_found}
use qlaster_public.Sender.Invariant.{IsValidAt, counted-IsValidAt}
use qlaster_public.Sender.Filter.{from_request, with_request}
use qlaster_public.Ring.{ShmRingProducer, create}
use qlaster_public.Error.{IoError, Result, err, ok, panicked}
use qlaster_public.Base.{
  Option, String, ap, arith, fetch_add, inl, inr, length, none, refl, set, some, subst, sym, ℕ, ◌%◌,
  ◌+◌, ◌<◌, ◌^◌, ◌∙◌, ◌≡◌, ◌≤◌, ◌⊎◌,
}
use qlaster_public.Extern.{Bloom, PubkeyApi, Shaq}
use qlaster_public.Types.Token.{SlotToken, new}
use qlaster_public.Types.Subscription.{SubscriptionRequest}
use qlaster_public.Sender.Slots.{
  ConnectionManager, ManagedConnection, find_free_slot, load, lookup_by_token, max_connection_slots,
  slot_idle_timeout_ms, slot_token,
}
use qlaster_public.Sender.Slots.Tokens.{is_stale_later, lookup_by_token-slot_token, lookup_of}
use qlaster_public.Sender.Upsert.{
  Provisioning, ShmSlotProvision, created, existing, install, lookup_request, refreshed, set_up,
  upsert_found, upsert_shm,
}
use qlaster_public.Types.Token
use qlaster_public.Ring
use qlaster_public.Sender.Invariant.Provision.{
  installed, lookup_request-IsValidAt, lookup_request_inv,
}

module _ {K B Q : Type 0} (keys : PubkeyApi K) (bloom : Bloom B) (shaq : Shaq Q)
    (ring_path : ℕ → ℕ → String) (ring_capacity now : ℕ) (request : SubscriptionRequest K)
    (env : Provisioning Q) where
  abbrev token_of_install : ℕ → ℕ → SlotToken
  token_of_install i k = Token.new (i % 2 ^ 8) k

  -- Where `set_up` gives an answer, it has run to its end.
  answered_by_install :
      (m : ConnectionManager K B Q) (k i : ℕ) (p : ShmSlotProvision) (ring : Result ShmRingProducer)
      (made_fd : IoError ⊎ ℕ)
      → Ring.create (ring_path i k) env.ring ring_capacity ≡ ring
      → env.eventfd ≡ made_fd
      → (set_up keys bloom shaq ring_path ring_capacity now request env m k (some i)).0 ≡ ok p
      → (ring' : ShmRingProducer) × (fd : ℕ) × (set_up keys bloom shaq ring_path ring_capacity now
            request env m k
            (some i)
          ≡ install keys bloom shaq ring_path ring_capacity now request m i k ring' env.queue fd)
        × (created (token_of_install i k) (ring_path i k) ring_capacity fd ≡ p)
  unfolding set_up install
  answered_by_install m k i p (ok ring) (inl e) made given h =
      let h' = rw (made, given, set_up) at h in cc
  answered_by_install m k i p (ok ring) (inr fd) made given h =
      let h' = rw (made, given, set_up) at h in (ring, fd, rw (made, given, set_up), cc)
  answered_by_install m k i p (err e) made_fd made given h = let h' = rw (made, set_up) at h in cc
  answered_by_install m k i p panicked made_fd made given h = let h' = rw (made, set_up) at h in cc

  installed-lookup :
      (k later i : ℕ) (m : ConnectionManager K B Q) (ring : ShmRingProducer)
      → length m.connections ≡ max_connection_slots
      → i < max_connection_slots
      → later ≤ now + slot_idle_timeout_ms
      → (lookup_by_token shaq later
          (record m {
            connections =
                set m.connections i (
                  some
                    (installed keys bloom shaq ring_path ring_capacity now request env i k ring));
          })
          (Token.new (i % 2 ^ 8) k)).0
        ≡ some (installed keys bloom shaq ring_path ring_capacity now request env i k ring)
  unfolding installed
  installed-lookup k later i m ring size small h =
      let byte : i % 2 ^ 8 ≡ i = omega (arith, small) in
      let slots =
        set m.connections i
          (some (installed keys bloom shaq ring_path ring_capacity now request env i k ring)) in
      lookup_of shaq later (record m { connections = slots }) (Token.new (i % 2 ^ 8) k)
        (installed keys bloom shaq ring_path ring_capacity now request env i k ring)
        (omega (arith, small))
        (ap (load slots) byte ∙ load-set m.connections i _ (omega (arith, small, size))) refl
        (is_stale_later shaq now later
          (installed keys bloom shaq ring_path ring_capacity now request env i k ring) h)

  -- The filter of the connection that an answer names: the request's, or the old one widened by it.
  abbrev pub HasFilter :
      ConnectionManager K B Q → ShmSlotProvision → ManagedConnection K B Q → Type 0
  HasFilter m (created token path cap fd) entry =
      (entry.filter ≡ from_request keys bloom request)
      × (entry.connection_id ≡ m.next_connection_id)
  HasFilter m (existing token) entry =
      (old : ManagedConnection K B Q) × ((lookup_by_token shaq now m token).0 ≡ some old)
      × (entry.filter ≡ with_request keys bloom old.filter request)
      × (entry.connection_id ≡ old.connection_id)

  abbrev pub token_of : ShmSlotProvision → SlotToken
  token_of (existing token) = token
  token_of (created token path cap fd) = token

  -- What an answer promises of the manager after it.
  abbrev Promise : ℕ → ConnectionManager K B Q → ShmSlotProvision → ConnectionManager K B Q → Type 0
  Promise later m p after =
      (entry : ManagedConnection K B Q) × ((lookup_by_token shaq later after (token_of p)).0
        ≡ some entry)
      × HasFilter m p entry

  set_up-Promise :
      (k later : ℕ) (before m : ConnectionManager K B Q) (slot : Option ℕ) (p : ShmSlotProvision)
      → before.next_connection_id ≡ k
      → length m.connections ≡ max_connection_slots
      → ((i : ℕ) → slot ≡ some i → i < max_connection_slots)
      → later ≤ now + slot_idle_timeout_ms
      → (set_up keys bloom shaq ring_path ring_capacity now request env m k slot).0 ≡ ok p
      → Promise later before p
          (set_up keys bloom shaq ring_path ring_capacity now request env m k slot).1
  unfolding set_up install installed
  set_up-Promise k later before m none p id size small h answer = cc
  set_up-Promise k later before m (some i) p id size small h answer =
      let (ring, fd, filled, is_p) = answered_by_install m k i p _ _ refl refl answer in
      let entry = installed keys bloom shaq ring_path ring_capacity now request env i k ring in
      subst
        (λ p.
          Promise later before p
            (set_up keys bloom shaq ring_path ring_capacity now request env m k (some i)).1)
        is_p
        (
          entry,
          ap
                (λ (r : Result ShmSlotProvision × ConnectionManager K B Q).
                  (lookup_by_token shaq later r.1 (token_of_install i k)).0)
                filled
              ∙ installed-lookup k later i m ring size (small i refl) h,
          (refl, sym id),
        )

  -- The entry that a request names is what its own token finds.
  lookup_request_named :
      (k dead : ℕ) (m : ConnectionManager K B Q) (token : Option SlotToken)
      (entry : ManagedConnection K B Q)
      → IsValidAt k k dead m
      → (lookup_request keys bloom shaq ring_path ring_capacity now m token).0 ≡ some entry
      → (lookup_by_token shaq now m (slot_token entry)).0 ≡ some entry
  unfolding lookup_request
  lookup_request_named k dead m none entry v h = cc
  lookup_request_named k dead m (some token) entry v h =
      let (its, _, _) = lookup_by_token-slot_token shaq now m token entry v.placed h in
      ap (λ t. (lookup_by_token shaq now m t).0) its ∙ h

  refreshed-lookup :
      (later : ℕ) (m : ConnectionManager K B Q) (entry : ManagedConnection K B Q)
      → load m.connections entry.slot_index ≡ some entry
      → entry.slot_index < max_connection_slots
      → later ≤ now + slot_idle_timeout_ms
      → (lookup_by_token shaq later
          (record m {
            connections =
                set m.connections entry.slot_index
                  (some (refreshed keys bloom shaq ring_path ring_capacity now request entry));
          })
          (slot_token entry)).0
        ≡ some (refreshed keys bloom shaq ring_path ring_capacity now request entry)
  unfolding refreshed slot_token
  refreshed-lookup later m entry held small h =
      let byte : entry.slot_index % 2 ^ 8 ≡ entry.slot_index = omega (arith, small) in
      let entry' = refreshed keys bloom shaq ring_path ring_capacity now request entry in
      let slots = set m.connections entry.slot_index (some entry') in
      lookup_of shaq later (record m { connections = slots }) (slot_token entry) entry'
        (omega (arith, small))
        (ap (load slots) byte
          ∙ load-set m.connections entry.slot_index _
              (load_in_range m.connections entry.slot_index entry held))
        refl (is_stale_later shaq now later entry' h)

  upsert_found-Promise :
      (k dead later : ℕ) (m : ConnectionManager K B Q)
      (found : Option (ManagedConnection K B Q) × ConnectionManager K B Q) (p : ShmSlotProvision)
      → IsValidAt k k dead m
      → IsValidAt k k dead found.1
      → later ≤ now + slot_idle_timeout_ms
      → ((entry : ManagedConnection K B Q)
          → found.0 ≡ some entry
          → (load m.connections entry.slot_index ≡ some entry)
            × (entry.slot_index < max_connection_slots)
            × (found.1 ≡ m)
            × ((lookup_by_token shaq now m (slot_token entry)).0 ≡ some entry))
      → (upsert_found keys bloom shaq ring_path ring_capacity now request env found).0 ≡ ok p
      → Promise later m p
          (upsert_found keys bloom shaq ring_path ring_capacity now request env found).1
  unfolding upsert_found refreshed
  upsert_found-Promise k dead later m (some entry, m') (created token path cap fd) v v' h held
        answer =
      cc
  upsert_found-Promise k dead later m (some entry, m') (existing token) v v' h held answer =
      let (at, small, same, named) = held entry refl in
      let its : slot_token entry ≡ token = cc in
      subst
        (λ t.
          Promise later m (existing t)
            (upsert_found keys bloom shaq ring_path ring_capacity now request env
              (some entry, m')).1)
        its
        (
          refreshed keys bloom shaq ring_path ring_capacity now request entry,
          refreshed-lookup later m' entry
              (ap (λ (r : ConnectionManager K B Q). load r.connections entry.slot_index) same ∙ at)
              small h,
          (entry, named, refl, refl),
        )
  upsert_found-Promise k dead later m (none, m') p v v' h held answer =
      let taken = record m' { next_connection_id = fetch_add m'.next_connection_id 1 } in
      let free = find_free_slot shaq now taken in
      let free_valid =
        find_free_slot-IsValidAt shaq now (fetch_add m'.next_connection_id 1) k dead taken
          (counted-IsValidAt k (fetch_add m'.next_connection_id 1) k dead m' v') in
      set_up-Promise m'.next_connection_id later m free.1 free.0 p (v.counter ∙ sym v'.counter)
        free_valid.size (λ i e. (find_free_slot_found shaq now i taken e).0) h answer

  -- When a subscription on a valid manager is answered, the token of the answer finds a connection
  -- for the next 30 seconds, if no other call comes between: a new one with the next id and the
  -- filter of the request, or the one that the token found before with its filter widened by the
  -- request.
  pub upsert_shm-lookup :
      (k dead later : ℕ) (m : ConnectionManager K B Q) (p : ShmSlotProvision)
      → IsValidAt k k dead m
      → later ≤ now + slot_idle_timeout_ms
      → (upsert_shm keys bloom shaq ring_path ring_capacity now request env m).0 ≡ ok p
      → (entry : ManagedConnection K B Q) × ((lookup_by_token shaq later
            (upsert_shm keys bloom shaq ring_path ring_capacity now request env m).1
            (token_of p)).0
          ≡ some entry)
        × HasFilter m p entry
  unfolding upsert_shm
  upsert_shm-lookup k dead later m p v h answer =
      let token = request.slot_token in
      let found = lookup_request keys bloom shaq ring_path ring_capacity now m token in
      upsert_found-Promise k dead later m found p v
        (lookup_request-IsValidAt keys bloom shaq ring_path ring_capacity now request env k dead m
          token v)
        h
        (λ entry e.
          let (held, small, kept) =
            lookup_request_inv keys bloom shaq ring_path ring_capacity now request env k dead m
              token entry v e in
          (held, small, kept, lookup_request_named k dead m token entry v e))
        answer
