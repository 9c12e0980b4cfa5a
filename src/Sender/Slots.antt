-- ===== src/Sender/Slots.antt =====
-- src/sender/mod.rs: the slots of `ConnectionManager`. The calls are taken one after the other, so a
-- `compare_and_swap` finds what was loaded before it. `now` is what `now_ms` returns. An entry that
-- leaves its slot keeps its sink, which its consumer still reads: `removed` holds them, last first.
pub mod Load
pub mod Tokens
pub mod Free
use qlaster_public.Base.{
  Bool, List, Option, [], false, if◌then◌else◌, leb, ltb, none, not, replicate, saturating_sub, set,
  some, suc, true, zero, ℕ, ◌%◌, ◌&&◌, ◌==◌, ◌^◌, ◌∷◌,
}
use qlaster_public.Extern.{Shaq}
use qlaster_public.Types.Token
use qlaster_public.Types.Token.{SlotToken}
use qlaster_public.Types.Ping.{PingRequest}
use qlaster_public.Transport.{SlotSink, sink_close}
use qlaster_public.Sender.Filter.{SubscriptionFilter}

abbrev pub max_connection_slots : ℕ
max_connection_slots = 10

-- `SLOT_IDLE_TIMEOUT.as_millis()`.
abbrev pub slot_idle_timeout_ms : ℕ
slot_idle_timeout_ms = 30000

pub record ManagedConnection (K B Q : Type 0) : Type 0 where
  pub slot_index : ℕ
  pub connection_id : ℕ
  pub filter : SubscriptionFilter K B
  pub sink : SlotSink Q
  pub last_seen_ms : ℕ

pub record ConnectionManager (K B Q : Type 0) : Type 0 where
  pub connections : List (Option (ManagedConnection K B Q))
  pub next_connection_id : ℕ
  pub removed : List (ManagedConnection K B Q)

module _ {K B Q : Type 0} where
  unfoldable pub new : ConnectionManager K B Q
  new = record {
    connections = replicate max_connection_slots none;
    next_connection_id = 1;
    removed = [];
  }

  -- `connections[i].load_full()`, with none for a free slot; the callers keep i in range.
  unfoldable pub load :
      List (Option (ManagedConnection K B Q)) → ℕ → Option (ManagedConnection K B Q)
  load [] i = none
  load (slot ∷ slots) zero = slot
  load (slot ∷ slots) (suc i) = load slots i

  unfoldable pub is_stale : ℕ → ManagedConnection K B Q → Bool
  is_stale now entry = ltb slot_idle_timeout_ms (saturating_sub now entry.last_seen_ms)

  -- `slot_index as u8`.
  unfoldable pub slot_token : ManagedConnection K B Q → SlotToken
  slot_token entry = Token.new (entry.slot_index % 2 ^ 8) entry.connection_id

module _ {K B Q : Type 0} (shaq : Shaq Q) where
  -- The sink is closed and the slot emptied.
  unfoldable pub evict :
      ConnectionManager K B Q → ℕ → ManagedConnection K B Q → ConnectionManager K B Q
  evict m idx entry = record m {
    connections = set m.connections idx none;
    removed = record entry { sink = sink_close shaq entry.sink } ∷ m.removed;
  }

  unfoldable pub cleanup_if_same : ConnectionManager K B Q → ℕ → ℕ → ConnectionManager K B Q
  cleanup_if_same m slot_index connection_id = elim (load m.connections slot_index) [
    | none ↦ m
    | some entry ↦ if entry.connection_id == connection_id then evict m slot_index entry else m
  ]

  unfoldable pub maybe_cleanup_stale_slot :
      ℕ → ConnectionManager K B Q → ℕ → ManagedConnection K B Q → Bool × ConnectionManager K B Q
  maybe_cleanup_stale_slot now m idx entry =
      if is_stale now entry then (true, evict m idx entry) else (false, m)

  -- `lookup_by_token` behind the load.
  unfoldable pub lookup_loaded :
      ℕ
      → ConnectionManager K B Q
      → SlotToken
      → Option (ManagedConnection K B Q)
      → Option (ManagedConnection K B Q) × ConnectionManager K B Q
  lookup_loaded now m token none = (none, m)
  lookup_loaded now m token (some entry) =
      let (cleaned, m') = maybe_cleanup_stale_slot now m token.slot_index entry in
      if not (entry.connection_id == token.generation)
      then (none, m)
      else if cleaned
      then (none, m')
      else (some entry, m)

  unfoldable pub lookup_by_token :
      ℕ
      → ConnectionManager K B Q
      → SlotToken
      → Option (ManagedConnection K B Q) × ConnectionManager K B Q
  lookup_by_token now m token =
      if leb max_connection_slots token.slot_index
      then (none, m)
      else lookup_loaded now m token (load m.connections token.slot_index)

  -- `last_seen_ms.store(now)`, where `lookup_by_token` found the entry.
  unfoldable pub touch_found :
      ℕ
      → SlotToken
      → Option (ManagedConnection K B Q) × ConnectionManager K B Q
      → Bool × ConnectionManager K B Q
  touch_found now token (none, m) = (false, m)
  touch_found now token (some entry, m) = (
    true,
    record m {
      connections = set m.connections token.slot_index (some (record entry { last_seen_ms = now }));
    },
  )

  unfoldable pub touch_ping :
      ℕ → ConnectionManager K B Q → PingRequest → Bool × ConnectionManager K B Q
  touch_ping now m ping = touch_found now ping.slot_token (lookup_by_token now m ping.slot_token)

  -- `load_full().is_none()`.
  unfoldable pub is_free : ConnectionManager K B Q → ℕ → Bool
  is_free m idx = elim (load m.connections idx) [ none ↦ true | some entry ↦ false ]

  -- The loop of `find_free_slot` from a slot on, with the number of slots left.
  unfoldable pub find_from :
      ℕ → ℕ → ℕ → ConnectionManager K B Q → Option ℕ × ConnectionManager K B Q
  find_from now zero idx m = (none, m)
  find_from now (suc left) idx m = elim (load m.connections idx) [
    | none ↦ (some idx, m)
    | some existing ↦
        let (cleaned, m') = maybe_cleanup_stale_slot now m idx existing in
        let rest = find_from now left (suc idx) m' in
        if cleaned && is_free m' idx then (some idx, m') else rest
  ]

  unfoldable pub find_free_slot : ℕ → ConnectionManager K B Q → Option ℕ × ConnectionManager K B Q
  find_free_slot now m = find_from now max_connection_slots 0 m
