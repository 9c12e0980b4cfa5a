-- ===== src/Tests/Sender.antt =====
-- The sink and the filter of a slot, at concrete inputs.
use qlaster_public.Base.{
  ==_refl, Bool, Bytes, List, [], arith, false, none, refl, replicate, some, true, ℕ, ◌==◌, ◌||◌,
  ◌∷◌, ◌≡◌,
}
use qlaster_public.Error.{ok}
use qlaster_public.Extern.{Bloom, IsBloom}
use qlaster_public.Types.{sent_at}
use qlaster_public.Types.Account
use qlaster_public.Types.Subscription.{SubscriptionRequest}
use qlaster_public.Ring
use qlaster_public.Transport.{OutboundFrame, SlotSink, sent, sink_push, sink_shm}
use qlaster_public.Transport.Delivery.{account_delivered, try_pop-sink_push}
use qlaster_public.Sender.Filter.{from_request, matches_account, matches_transaction}
use qlaster_public.Sender.Filter.Exact.{
  after_requests, after_requests-some_names, after_requests-some_transactions, some_names,
  some_transactions,
}
use qlaster_public.Tests.Models.{
  Key, blank, byte_queue, byte_queue-IsShaq, keys, keys-IsPubkeyApi, zeros_lz4, zeros_lz4-IsLz4,
}
use qlaster_public.Tests.Updates.{account, account-IsAccountUpdate}

-- A bloom filter that remembers the first bytes of what was added.
abbrev first_byte : Bytes → ℕ
first_byte [] = 0
first_byte (x ∷ xs) = x

unfoldable pub among : List ℕ → ℕ → Bool
among [] x = false
among (y ∷ ys) x = y == x || among ys x

abbrev pub first_bytes : Bloom (List ℕ)
first_bytes = record {
  random = λ n. [];
  add = λ b x. first_byte x ∷ b;
  contains = λ b x. among b (first_byte x);
}

first_bytes-IsBloom : IsBloom first_bytes
unfolding among
first_bytes-IsBloom = record {
  contains_added = λ b x. rw (==_refl (first_byte x));
  contains_kept = λ b x y h. ground (arith, h);
}

abbrev other_key : Key
other_key = (replicate 32 7, refl)

abbrev pub by_key : SubscriptionRequest Key
by_key = record {
  slot_token = none;
  account_pubkeys = other_key ∷ [];
  account_owners = [];
  include_transactions = false;
}

abbrev pub by_owner : SubscriptionRequest Key
by_owner = record {
  slot_token = none;
  account_pubkeys = [];
  account_owners = blank ∷ other_key ∷ [];
  include_transactions = true;
}

after_requests-some_names_example :
    matches_account keys first_bytes
      (after_requests keys first_bytes (from_request keys first_bytes by_key) (by_owner ∷ []))
      account
    ≡ some_names keys first_bytes (by_key ∷ by_owner ∷ []) account
after_requests-some_names_example =
    after_requests-some_names keys first_bytes by_key (by_owner ∷ []) account first_bytes-IsBloom
      keys-IsPubkeyApi

after_requests-some_transactions_example :
    matches_transaction keys first_bytes
      (after_requests keys first_bytes (from_request keys first_bytes by_owner) (by_key ∷ []))
    ≡ some_transactions keys first_bytes (by_owner ∷ by_key ∷ [])
after_requests-some_transactions_example =
    after_requests-some_transactions keys first_bytes by_owner (by_key ∷ [])

abbrev new_sink : SlotSink Bytes
new_sink = sink_shm (record { capacity = 128; dropped_frames = 0 }) []

abbrev two_parts : OutboundFrame
two_parts = record { header = 1 ∷ 2 ∷ []; payload = 3 ∷ []; frame_start = 0 }

try_pop-sink_push_example :
    ((sink_push (byte_queue 128) new_sink two_parts).0 ≡ sent)
    × ((sink_push (byte_queue 128) new_sink two_parts).1.wakeups ≡ 1)
    × ((Ring.try_pop
          (byte_queue 128)
          (record { closed = false })
          (sink_push (byte_queue 128) new_sink two_parts).1.queue).0
        ≡ some (1 ∷ 2 ∷ 3 ∷ []))
try_pop-sink_push_example =
    try_pop-sink_push (byte_queue 128) (λ q. q) 128 (byte_queue-IsShaq 128) (omega arith) new_sink
      (record { closed = false }) two_parts refl refl (omega arith)

account_delivered_example :
    (parts : Bytes × Bytes) × (Account.encode_parts keys zeros_lz4 account 7 ≡ ok parts)
    × (let f : OutboundFrame = record { header = parts.0; payload = parts.1; frame_start = 0 } in
        let (out, s') = sink_push (byte_queue 128) new_sink f in
        (out ≡ sent)
        × (s'.wakeups ≡ 1)
        × ((body : Bytes) × ((Ring.try_pop (byte_queue 128) (record { closed = false }) s'.queue).0
              ≡ some body)
            × (Account.decode_with_meta keys zeros_lz4 body ≡ ok (account, sent_at 7))))
account_delivered_example =
    account_delivered (byte_queue 128) (λ q. q) 128 (byte_queue-IsShaq 128) (omega arith) keys
      zeros_lz4 account 7 0 new_sink (record { closed = false }) keys-IsPubkeyApi zeros_lz4-IsLz4
      account-IsAccountUpdate (omega arith) refl refl (omega arith)
