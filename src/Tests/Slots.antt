-- ===== src/Tests/Slots.antt =====
-- The slots of a manager, at concrete inputs.
use qlaster_public.Base.{
  Bytes, List, Option, [], ap, arith, false, none, refl, replicate, some, suc, sym, true, zero, ℕ,
  ◌<◌, ◌∷◌, ◌≡◌,
}
use qlaster_public.Types.Token.{SlotToken}
use qlaster_public.Types.Ping.{PingRequest}
use qlaster_public.Transport.{sink_shm}
use qlaster_public.Sender.Slots.{
  ConnectionManager, ManagedConnection, find_free_slot, find_from, is_stale, load, lookup_by_token,
  lookup_loaded, maybe_cleanup_stale_slot, slot_token, touch_found, touch_ping,
}
use qlaster_public.Sender.Slots.Tokens.{
  IsPlaced, lookup_by_token-slot_token, lookup_by_token-touch_ping,
}
use qlaster_public.Sender.Slots.Free.{find_free_slot_exhausted, find_free_slot_found}
use qlaster_public.Tests.Models.{byte_queue}

abbrev Connection : Type 0
Connection = ManagedConnection ℕ ℕ Bytes

abbrev first : Connection
first = record {
  slot_index = 0;
  connection_id = 1;
  filter = record {
    account_pubkeys = [];
    account_owners = [];
    bloom = 0;
    include_transactions = true;
    single_pubkey = none;
    single_owner = none;
    use_bloom_fast_reject = false;
  };
  sink = sink_shm (record { capacity = 64; dropped_frames = 0 }) [];
  last_seen_ms = 1000;
}

abbrev empty_slots : ℕ → List (Option Connection)
empty_slots n = replicate n none

abbrev one : ConnectionManager ℕ ℕ Bytes
one = record { connections = some first ∷ empty_slots 9; next_connection_id = 2; removed = [] }

abbrev filled : ConnectionManager ℕ ℕ Bytes
filled = record { connections = replicate 10 (some first); next_connection_id = 11; removed = [] }

abbrev its_token : SlotToken
its_token = record { slot_index = 0; generation = 1 }

empty_load : (n i : ℕ) (entry : Connection) → load (empty_slots n) i ≡ some entry → ⊥
unfolding load
empty_load zero i entry h = cc
empty_load (suc n) zero entry h = cc
empty_load (suc n) (suc i) entry h = empty_load n i entry h

one-IsPlaced : IsPlaced one
unfolding load
one-IsPlaced zero entry h =
    let e : first ≡ entry = cc in (sym (ap (λ (c : Connection). c.slot_index) e), omega arith)
one-IsPlaced (suc i) entry h = absurd (empty_load 9 i entry h)

lookup_finds : (lookup_by_token (byte_queue 64) 5000 one its_token).0 ≡ some first
unfolding lookup_by_token lookup_loaded maybe_cleanup_stale_slot load is_stale
lookup_finds = refl

lookup_by_token-slot_token_example :
    (slot_token first ≡ its_token)
    × (load one.connections 0 ≡ some first)
    × (is_stale 5000 first ≡ false)
lookup_by_token-slot_token_example =
    lookup_by_token-slot_token (byte_queue 64) 5000 one its_token first one-IsPlaced lookup_finds

abbrev a_ping : PingRequest
a_ping = record { slot_token = its_token }

ping_done : (touch_ping (byte_queue 64) 5000 one a_ping).0 ≡ true
unfolding touch_ping touch_found lookup_by_token lookup_loaded maybe_cleanup_stale_slot load
    is_stale
ping_done = refl

lookup_by_token-touch_ping_example :
    (entry : Connection) × ((lookup_by_token (byte_queue 64) 5000 one its_token).0 ≡ some entry)
    × ((lookup_by_token
          (byte_queue 64)
          35000
          (touch_ping (byte_queue 64) 5000 one a_ping).1
          its_token).0
        ≡ some (record entry { last_seen_ms = 5000 }))
lookup_by_token-touch_ping_example =
    lookup_by_token-touch_ping (byte_queue 64) 5000 35000 one a_ping (omega arith) ping_done

slot_found : (find_free_slot (byte_queue 64) 5000 one).0 ≡ some 1
unfolding find_free_slot find_from maybe_cleanup_stale_slot load is_stale
slot_found = refl

find_free_slot_found_example :
    (1 < 10) × (load (find_free_slot (byte_queue 64) 5000 one).1.connections 1 ≡ none)
find_free_slot_found_example = find_free_slot_found (byte_queue 64) 5000 1 one slot_found

none_found : (find_free_slot (byte_queue 64) 5000 filled).0 ≡ none
unfolding find_free_slot find_from maybe_cleanup_stale_slot load is_stale
none_found = refl

find_free_slot_exhausted_example :
    ((find_free_slot (byte_queue 64) 5000 filled).1 ≡ filled)
    × ((entry : Connection) × (load filled.connections 4 ≡ some entry)
        × (is_stale 5000 entry ≡ false))
find_free_slot_exhausted_example =
    find_free_slot_exhausted (byte_queue 64) 5000 4 filled none_found (omega arith)
