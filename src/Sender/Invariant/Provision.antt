-- ===== src/Sender/Invariant/Provision.antt =====
-- src/sender/mod.rs: `upsert_shm` keeps the invariant.
pub mod Lookup
use qlaster_public.Sender.Slots.Free.{find_free_slot_found}
use qlaster_public.Sender.Filter.{from_request}
use qlaster_public.Transport.{sink_shm}
use qlaster_public.Ring
use qlaster_public.Ring.{ShmRingProducer, create}
use qlaster_public.Error.{IoError, Result, err, ok, panicked}
use qlaster_public.Base.{
  Option, String, ap, arith, fetch_add, inl, inr, none, refl, some, subst, suc, sym, ℕ, ◌<◌, ◌^◌,
  ◌∙◌, ◌≡◌, ◌≤◌, ◌⊎◌,
}
use qlaster_public.Extern.{Bloom, PubkeyApi, Shaq}
use qlaster_public.Types.Token
use qlaster_public.Types.Token.{SlotToken}
use qlaster_public.Types.Subscription.{SubscriptionRequest}
use qlaster_public.Sender.Slots.{
  ConnectionManager, ManagedConnection, find_free_slot, load, max_connection_slots, slot_token,
}
use qlaster_public.Sender.Slots.Tokens.{lookup_inv}
use qlaster_public.Sender.Upsert.{
  Provisioning, ShmSlotProvision, install, lookup_request, refreshed, set_up, upsert_found,
  upsert_shm,
}
use qlaster_public.Sender.Invariant.{
  IsValidAt, counted-IsValidAt, gone_later, installed-IsValidAt, replaced-IsValidAt,
}
use qlaster_public.Sender.Invariant.Calls.{find_free_slot-IsValidAt, lookup_by_token-IsValidAt}

-- The invariant, with the counter at the bound on the ids; at most one id has been taken since `k`.
abbrev pub Taken : {K B Q : Type 0} → ℕ → ℕ → ConnectionManager K B Q → Type 0
Taken k dead m = (j : ℕ) × (k ≤ j) × (j ≤ suc k) × IsValidAt j j dead m

module _ {K B Q : Type 0} (keys : PubkeyApi K) (bloom : Bloom B) (shaq : Shaq Q)
    (ring_path : ℕ → ℕ → String) (ring_capacity now : ℕ) (request : SubscriptionRequest K)
    (env : Provisioning Q) where
  pub lookup_request-IsValidAt :
      (k dead : ℕ) (m : ConnectionManager K B Q) (token : Option SlotToken)
      → IsValidAt k k dead m
      → IsValidAt k k dead (lookup_request keys bloom shaq ring_path ring_capacity now m token).1
  unfolding lookup_request
  lookup_request-IsValidAt k dead m none v = v
  lookup_request-IsValidAt k dead m (some token) v =
      lookup_by_token-IsValidAt shaq now k k dead m token v

  -- The entry that a request names stands in the slot that it names, and nothing has changed.
  pub lookup_request_inv :
      (k dead : ℕ) (m : ConnectionManager K B Q) (token : Option SlotToken)
      (entry : ManagedConnection K B Q)
      → IsValidAt k k dead m
      → (lookup_request keys bloom shaq ring_path ring_capacity now m token).0 ≡ some entry
      → (load m.connections entry.slot_index ≡ some entry)
        × (entry.slot_index < max_connection_slots)
        × ((lookup_request keys bloom shaq ring_path ring_capacity now m token).1 ≡ m)
  unfolding lookup_request
  lookup_request_inv k dead m none entry v h = cc
  lookup_request_inv k dead m (some token) entry v h =
      let (small, held, same, fresh, kept) = lookup_inv shaq now m token entry h in
      let (index, _) = v.placed token.slot_index entry held in
      (ap (load m.connections) index ∙ held, omega (arith, index, small), kept)

  -- A slot that was found is filled, or an error leaves everything as it is.
  abbrev SetUp : ConnectionManager K B Q → ℕ → ℕ → Type 0
  SetUp m k i =
      ((set_up keys bloom shaq ring_path ring_capacity now request env m k (some i)).1 ≡ m)
      ⊎ ((ring : ShmRingProducer) × (fd : ℕ) × (set_up keys bloom shaq ring_path ring_capacity now
              request env m k (some i)
            ≡ install keys bloom shaq ring_path ring_capacity now request m i k ring env.queue fd))

  pub SetUp-answers :
      (m : ConnectionManager K B Q) (k i : ℕ) (ring : Result ShmRingProducer) (fd : IoError ⊎ ℕ)
      → Ring.create (ring_path i k) env.ring ring_capacity ≡ ring
      → env.eventfd ≡ fd
      → SetUp m k i
  unfolding set_up
  SetUp-answers m k i (ok ring) (inl e) made given = inl (rw (made, given, set_up))
  SetUp-answers m k i (ok ring) (inr fd) made given = inr (ring, fd, rw (made, given, set_up))
  SetUp-answers m k i (err e) fd made given = inl (rw (made, set_up))
  SetUp-answers m k i panicked fd made given = inl (rw (made, set_up))

  -- What `install` puts into the slot.
  unfoldable pub installed : ℕ → ℕ → ShmRingProducer → ManagedConnection K B Q
  installed i k ring = record {
    slot_index = i;
    connection_id = k;
    filter = from_request keys bloom request;
    sink = sink_shm ring env.queue;
    last_seen_ms = now;
  }

  wider-IsValidAt :
      (count k dead : ℕ) (m : ConnectionManager K B Q)
      → IsValidAt count k dead m
      → IsValidAt count (suc k) dead m
  wider-IsValidAt count k dead m v = record {
    counter = v.counter;
    size = v.size;
    placed = v.placed;
    live = λ i entry e. (omega (arith, (v.live i entry e).0), (v.live i entry e).1);
    distinct = v.distinct;
    gone = gone_later m.removed k v.gone;
    not_back = v.not_back;
    dead_low = omega (arith, v.dead_low);
  }

  set_up-IsValidAt :
      (k dead : ℕ) (m : ConnectionManager K B Q) (slot : Option ℕ)
      → IsValidAt (suc k) k dead m
      → ((i : ℕ) → slot ≡ some i → i < max_connection_slots)
      → IsValidAt
          (suc k)
          (suc k)
          dead
          (set_up keys bloom shaq ring_path ring_capacity now request env m k slot).1
  unfolding set_up install installed
  set_up-IsValidAt k dead m none v small = wider-IsValidAt (suc k) k dead m v
  set_up-IsValidAt k dead m (some i) v small = elim (SetUp-answers m k i _ _ refl refl) [
    | inl kept ↦
        subst (IsValidAt (suc k) (suc k) dead) (sym kept) (wider-IsValidAt (suc k) k dead m v)
    | inr (ring, fd, filled) ↦
        subst
          (λ (r : Result ShmSlotProvision × ConnectionManager K B Q).
            IsValidAt (suc k) (suc k) dead r.1)
          (sym filled)
          (installed-IsValidAt (suc k) k dead m i (installed i k ring) v (small i refl) refl refl)
  ]

  pub fetch_add_small : (k : ℕ) → suc k < 2 ^ 64 → fetch_add k 1 ≡ suc k
  fetch_add_small k h = omega (arith, h)

  upsert_found-IsValidAt :
      (k dead : ℕ) (found : Option (ManagedConnection K B Q) × ConnectionManager K B Q)
      → IsValidAt k k dead found.1
      → suc k < 2 ^ 64
      → ((entry : ManagedConnection K B Q)
          → found.0 ≡ some entry
          → load (found.1).connections entry.slot_index ≡ some entry)
      → Taken k dead (upsert_found keys bloom shaq ring_path ring_capacity now request env found).1
  unfolding upsert_found refreshed
  upsert_found-IsValidAt k dead (some entry, m) v bound held = (
    k,
    omega arith,
    omega arith,
    replaced-IsValidAt k k dead m entry.slot_index entry _ v (held entry refl) refl refl,
  )
  upsert_found-IsValidAt k dead (none, m) v bound held =
      let taken = record m { next_connection_id = fetch_add m.next_connection_id 1 } in
      let one_more : fetch_add m.next_connection_id 1 ≡ suc k =
        ap (λ n. fetch_add n 1) v.counter ∙ fetch_add_small k bound in
      let v' : IsValidAt (suc k) k dead taken =
        subst (λ n. IsValidAt n k dead taken) one_more
          (counted-IsValidAt k (fetch_add m.next_connection_id 1) k dead m v) in
      let free = find_free_slot shaq now taken in
      let done =
        set_up-IsValidAt k dead free.1 free.0
          (find_free_slot-IsValidAt shaq now (suc k) k dead taken v')
          (λ i e. (find_free_slot_found shaq now i taken e).0) in
      (
        suc k,
        omega arith,
        omega arith,
        subst
            (λ id.
              IsValidAt (suc k) (suc k) dead
                (set_up keys bloom shaq ring_path ring_capacity now request env free.1 id free.0).1)
            (sym v.counter) done,
      )

  pub upsert_shm-IsValidAt :
      (k dead : ℕ) (m : ConnectionManager K B Q)
      → IsValidAt k k dead m
      → suc k < 2 ^ 64
      → Taken k dead (upsert_shm keys bloom shaq ring_path ring_capacity now request env m).1
  unfolding upsert_shm
  upsert_shm-IsValidAt k dead m v bound =
      let token = request.slot_token in
      upsert_found-IsValidAt k dead
        (lookup_request keys bloom shaq ring_path ring_capacity now m token)
        (lookup_request-IsValidAt k dead m token v) bound
        (λ entry found.
          let (held, small, kept) = lookup_request_inv k dead m token entry v found in
          ap (λ (r : ConnectionManager K B Q). load r.connections entry.slot_index) kept ∙ held)
