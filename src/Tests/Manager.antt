-- ===== src/Tests/Manager.antt =====
-- Calls on a manager, and a control connection that makes them, at concrete inputs.

use qlaster_public.Sender.Invariant.Provision.Lookup.{HasFilter, upsert_shm-lookup}
use qlaster_public.Sender.Invariant.Run.{
  Call, Running, new-IsValidAt, on_ping, on_slot, on_subscribe, perform_all, perform_all-IsValidAt,
  perform_all-removed,
}
use qlaster_public.Sender.Invariant.{IsValidAt}
use qlaster_public.Sender.Upsert.{
  Provisioning, ShmSlotProvision, created, install, lookup_request, set_up, upsert_found,
  upsert_shm,
}
use qlaster_public.Sender.Connection.{absent}
use qlaster_public.Sender.Dispatch.{Timing}
use qlaster_public.Sender.Slots.{
  ConnectionManager, ManagedConnection, find_free_slot, find_from, load, lookup_by_token,
  slot_token,
}
use qlaster_public.Tests.Updates.{slot_300}
use qlaster_public.Tests.Sender.{by_key, by_owner, first_bytes}
use qlaster_public.Tests.Models.{Key, byte_queue, keys, ring_path, zeros_lz4}
use qlaster_public.Ring.{create, double_until, next_power_of_two}
use qlaster_public.Metrics.{QlasterSenderMetrics, default, zeroed}
use qlaster_public.Error.{ok}
use qlaster_public.Sender.Slots
use qlaster_public.Ring
use qlaster_public.Base.{
  All, Bytes, List, String, [], arith, inr, none, refl, some, ℕ, ◌∷◌, ◌≡◌, ◌≤◌,
}

abbrev pub Manager : Type 0
Manager = ConnectionManager Key (List ℕ) Bytes

abbrev pub path_of : ℕ → ℕ → String
path_of slot_index id = ring_path

abbrev pub working : Provisioning Bytes
working = record {
  ring = record { create_dir_all = none; open_new = none; shaq_create_error = none };
  queue = [];
  eventfd = inr 5;
}

abbrev pub no_metrics : QlasterSenderMetrics
no_metrics = record { dispatch = default; shm_send = default; shm_ring_full = zeroed }

abbrev pub at_once : Timing
at_once = record {
  now_ms = 3000;
  created_at = 7;
  frame_start = 0;
  send_us = λ i. 1;
  dispatch_us = 2;
}

-- A subscription, an update, and another subscription when the first connection is stale.
abbrev some_calls : List (Call Key Bytes)
some_calls =
    on_subscribe 1000 by_owner working
    ∷ on_slot at_once slot_300
    ∷ on_subscribe 40000 by_key working
    ∷ []

abbrev later_calls : List (Call Key Bytes)
later_calls = on_ping 40001 (record { slot_token = record { slot_index = 0; generation = 2 } }) ∷ []

abbrev pub fresh : Running Key (List ℕ) Bytes
fresh = record { manager = Slots.new; bloom_updates = absent; metrics = no_metrics }

perform_all-IsValidAt_example :
    (next : ℕ) × (next ≤ 4)
    × IsValidAt next next 0
        (perform_all keys zeros_lz4 first_bytes
          (byte_queue 4096)
          path_of
          4096
          some_calls
          fresh).manager
perform_all-IsValidAt_example =
    perform_all-IsValidAt keys zeros_lz4 first_bytes (byte_queue 4096) path_of 4096 some_calls
      absent no_metrics (omega arith)

perform_all-removed_example :
    All
      (λ old.
        (lookup_by_token
          (byte_queue 4096)
          40002
          (perform_all keys zeros_lz4 first_bytes (byte_queue 4096) path_of 4096 later_calls (
            perform_all keys zeros_lz4 first_bytes
              (byte_queue 4096)
              path_of
              4096
              some_calls
              fresh)).manager
          (record { slot_index = 0; generation = old.connection_id })).0
        ≡ none)
      (perform_all keys zeros_lz4 first_bytes
        (byte_queue 4096)
        path_of
        4096
        some_calls
        fresh).manager.removed
perform_all-removed_example =
    perform_all-removed keys zeros_lz4 first_bytes (byte_queue 4096) path_of 4096 some_calls
      later_calls absent no_metrics 40002 0 (omega arith)

abbrev answer : ShmSlotProvision
answer = created (record { slot_index = 0; generation = 1 }) ring_path 4096 5

answered :
    (upsert_shm keys first_bytes
      (byte_queue 4096)
      path_of
      4096
      1000
      by_owner
      working
      (Slots.new {K = Key} {B = List ℕ} {Q = Bytes})).0
    ≡ ok answer
unfolding upsert_shm upsert_found lookup_request set_up install find_free_slot find_from load
    Slots.new Ring.create next_power_of_two double_until
answered = refl

upsert_shm-lookup_example :
    (entry : ManagedConnection Key (List ℕ) Bytes) × ((lookup_by_token
        (byte_queue 4096)
        31000
        (upsert_shm keys first_bytes
          (byte_queue 4096)
          path_of
          4096
          1000
          by_owner
          working
          Slots.new).1
        (record { slot_index = 0; generation = 1 })).0
      ≡ some entry)
    × HasFilter keys first_bytes
        (byte_queue 4096)
        path_of
        4096
        1000
        by_owner
        working
        Slots.new
        answer
        entry
upsert_shm-lookup_example =
    upsert_shm-lookup keys first_bytes (byte_queue 4096) path_of 4096 1000 by_owner working 1 0
      31000 Slots.new answer
      (new-IsValidAt keys zeros_lz4 first_bytes (byte_queue 4096) path_of 4096) (omega arith)
      answered
