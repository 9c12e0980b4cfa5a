-- ===== src/Sender/Invariant/Run.antt =====
-- src/sender/mod.rs: sequences of calls on a `ConnectionManager`, one after the other.
use qlaster_public.Base.{
  All, List, Option-cases, String, [], arith, inl, inr, length, none, refl, replicate, some, suc,
  sym, zero, ℕ, ◌+◌, ◌<◌, ◌^◌, ◌∷◌, ◌≡◌, ◌≢◌, ◌≤◌,
}
use qlaster_public.Extern.{Bloom, Lz4, PubkeyApi, Shaq}
use qlaster_public.Metrics.{QlasterSenderMetrics}
use qlaster_public.Types.Account.{AccountUpdate}
use qlaster_public.Types.Transaction.{TransactionUpdate}
use qlaster_public.Types.Slot.{SlotUpdate}
use qlaster_public.Types.Ping.{PingRequest}
use qlaster_public.Types.Token.{SlotToken}
use qlaster_public.Types.Subscription.{SubscriptionRequest}
use qlaster_public.Sender.Slots
use qlaster_public.Sender.Slots.{
  ConnectionManager, ManagedConnection, load, lookup_by_token, touch_ping,
}
use qlaster_public.Sender.Slots.Tokens.{lookup_inv}
use qlaster_public.Sender.Dispatch.{
  Timing, dispatch_account_update, dispatch_slot_update, dispatch_transaction_update,
}
use qlaster_public.Sender.Connection.{BloomUpdates}
use qlaster_public.Sender.Upsert.{Provisioning, upsert_shm}
use qlaster_public.Sender.Invariant.{IsValidAt, dead-IsValidAt}
use qlaster_public.Sender.Invariant.Calls.{dispatch_update-IsValidAt, touch_ping-IsValidAt}
use qlaster_public.Sender.Invariant.Provision.{Taken, upsert_shm-IsValidAt}

-- A call from outside the manager, with the time when it is made.
pub data Call (K Q : Type 0) : Type 0 where
  on_subscribe : ℕ → SubscriptionRequest K → Provisioning Q → Call K Q
  on_ping : ℕ → PingRequest → Call K Q
  on_account : Timing → AccountUpdate K → Call K Q
  on_transaction : Timing → TransactionUpdate → Call K Q
  on_slot : Timing → SlotUpdate → Call K Q

-- `SenderState`, which the tasks of the sender share.
pub record Running (K B Q : Type 0) : Type 0 where
  pub manager : ConnectionManager K B Q
  pub bloom_updates : BloomUpdates K
  pub metrics : QlasterSenderMetrics

unfoldable pub from_pair :
    {K B Q : Type 0}
    → Running K B Q
    → ConnectionManager K B Q × QlasterSenderMetrics
    → Running K B Q
from_pair s (m, metrics) = record s { manager = m; metrics = metrics }

module _ {K B Q : Type 0} (keys : PubkeyApi K) (lz4 : Lz4) (bloom : Bloom B) (shaq : Shaq Q)
    (ring_path : ℕ → ℕ → String) (ring_capacity : ℕ) where
  unfoldable pub perform : Call K Q → Running K B Q → Running K B Q
  perform (on_subscribe now request env) s = record s {
    manager = (upsert_shm keys bloom shaq ring_path ring_capacity now request env s.manager).1;
  }
  perform (on_ping now frame) s = record s { manager = (touch_ping shaq now s.manager frame).1 }
  perform (on_account t update) s =
      from_pair s (dispatch_account_update keys lz4 bloom shaq t update s.manager s.metrics)
  perform (on_transaction t update) s =
      from_pair s (dispatch_transaction_update keys lz4 bloom shaq t update s.manager s.metrics)
  perform (on_slot t update) s =
      from_pair s (dispatch_slot_update keys lz4 bloom shaq t update s.manager s.metrics)

  unfoldable pub perform_all : List (Call K Q) → Running K B Q → Running K B Q
  perform_all [] s = s
  perform_all (call ∷ calls) s = perform_all calls (perform call s)

  perform-IsValidAt :
      (call : Call K Q) (k dead : ℕ) (s : Running K B Q)
      → IsValidAt k k dead s.manager
      → suc k < 2 ^ 64
      → Taken k dead (perform call s).manager
  unfolding perform from_pair dispatch_account_update dispatch_transaction_update
      dispatch_slot_update
  perform-IsValidAt (on_subscribe now request env) k dead s v bound =
      upsert_shm-IsValidAt keys bloom shaq ring_path ring_capacity now request env k dead s.manager
        v bound
  perform-IsValidAt (on_ping now frame) k dead s v bound =
      (k, omega arith, omega arith, touch_ping-IsValidAt shaq now k k dead s.manager frame v)
  perform-IsValidAt (on_account t update) k dead s v bound = (
    k,
    omega arith,
    omega arith,
    dispatch_update-IsValidAt shaq t.now_ms k k dead t.send_us _ _ t.dispatch_us s.manager s.metrics
        v,
  )
  perform-IsValidAt (on_transaction t update) k dead s v bound = (
    k,
    omega arith,
    omega arith,
    dispatch_update-IsValidAt shaq t.now_ms k k dead t.send_us _ _ t.dispatch_us s.manager s.metrics
        v,
  )
  perform-IsValidAt (on_slot t update) k dead s v bound = (
    k,
    omega arith,
    omega arith,
    dispatch_update-IsValidAt shaq t.now_ms k k dead t.send_us _ _ t.dispatch_us s.manager s.metrics
        v,
  )

  -- A run takes at most one id for each call.
  perform_all_valid :
      (calls : List (Call K Q)) (k dead : ℕ) (s : Running K B Q)
      → IsValidAt k k dead s.manager
      → k + length calls < 2 ^ 64
      → (j : ℕ) × (j ≤ k + length calls) × IsValidAt j j dead (perform_all calls s).manager
  unfolding perform_all
  perform_all_valid [] k dead s v bound = (k, omega arith, v)
  perform_all_valid (call ∷ calls) k dead s v bound =
      let (j, low, high, w) = perform-IsValidAt call k dead s v (omega (arith, bound)) in
      let (i, below, u) =
        perform_all_valid calls j dead (perform call s) w (omega (arith, bound, high)) in
      (i, omega (arith, below, high), u)

  -- No slot of a new manager is taken.
  new_free :
      (n i : ℕ) (entry : ManagedConnection K B Q) → load (replicate n none) i ≡ some entry → ⊥
  unfolding load
  new_free zero i entry h = cc
  new_free (suc n) zero entry h = cc
  new_free (suc n) (suc i) entry h = new_free n i entry h

  pub new-IsValidAt : IsValidAt 1 1 0 (Slots.new {K = K} {B = B} {Q = Q})
  unfolding Slots.new
  new-IsValidAt = record {
    counter = refl;
    size = refl;
    placed = λ i entry e. absurd (new_free 10 i entry e);
    live = λ i entry e. absurd (new_free 10 i entry e);
    distinct = λ i j entry other e f same. absurd (new_free 10 i entry e);
    gone = tt;
    not_back = λ i entry e. absurd (new_free 10 i entry e);
    dead_low = omega arith;
  }

  -- After any sequence of fewer than 2^64 - 1 subscriptions, pings and dispatches on a new
  -- manager, there are ten slots, every entry stands in the slot that it names, no two live
  -- connections have the same id and none has the id of a removed one, and all ids are below the
  -- counter, which is at most one more than the number of calls.
  pub perform_all-IsValidAt :
      (calls : List (Call K Q)) (updates : BloomUpdates K) (metrics : QlasterSenderMetrics)
      → suc (length calls) < 2 ^ 64
      → (next : ℕ) × (next ≤ suc (length calls))
        × IsValidAt next next 0
            (perform_all calls
              (record { manager = Slots.new; bloom_updates = updates; metrics = metrics })).manager
  perform_all-IsValidAt calls updates metrics bound =
      let (j, low, v) = perform_all_valid calls 1 0 _ new-IsValidAt (omega (arith, bound)) in
      (j, omega (arith, low), v)

  -- An id that no entry has is found by no token, whatever calls come.
  dead-lookup :
      (calls : List (Call K Q)) (k dead now slot_index : ℕ) (s : Running K B Q)
      → IsValidAt k k dead s.manager
      → k + length calls < 2 ^ 64
      → (lookup_by_token shaq now
          (perform_all calls s).manager
          (record { slot_index = slot_index; generation = dead })).0
        ≡ none
  dead-lookup calls k dead now slot_index s v bound =
      let token : SlotToken = record { slot_index = slot_index; generation = dead } in
      let m = (perform_all calls s).manager in
      let (j, below, w) = perform_all_valid calls k dead s v bound in
      elim (Option-cases (lookup_by_token shaq now m token).0) [
        | inl nothing ↦ nothing
        | inr (entry, found) ↦
            let (small, held, same, fresh, kept) = lookup_inv shaq now m token entry found in
            absurd ((w.live slot_index entry held).1 same)
      ]

  each_dead :
      (calls : List (Call K Q)) (k now slot_index : ℕ) (s : Running K B Q)
      (olds : List (ManagedConnection K B Q))
      → IsValidAt k k 0 s.manager
      → k + length calls < 2 ^ 64
      → All (λ old. old.connection_id < k) olds
      → ((i : ℕ) (entry : ManagedConnection K B Q)
          → load s.manager.connections i ≡ some entry
          → All (λ old. old.connection_id ≢ entry.connection_id) olds)
      → All
          (λ old.
            (lookup_by_token shaq now
              (perform_all calls s).manager
              (record { slot_index = slot_index; generation = old.connection_id })).0
            ≡ none)
          olds
  each_dead calls k now slot_index s [] v bound low off = tt
  each_dead calls k now slot_index s (old ∷ olds) v bound low off = (
    dead-lookup calls k old.connection_id now slot_index s
        (dead-IsValidAt k k 0 old.connection_id s.manager v low.0
          (λ i entry e p. (off i entry e).0 (sym p)))
        bound,
    each_dead calls k now slot_index s olds v bound low.1 (λ i entry e. (off i entry e).1),
  )

  -- No token with the id of a connection that a sequence of calls on a new manager has removed
  -- finds anything after any further calls, where there are fewer than 2^64 - 1 calls in all.
  pub perform_all-removed :
      (before after : List (Call K Q)) (updates : BloomUpdates K) (metrics : QlasterSenderMetrics)
      (now slot_index : ℕ)
      → suc (length before + length after) < 2 ^ 64
      → let s =
          perform_all before
            (record { manager = Slots.new; bloom_updates = updates; metrics = metrics }) in
        All
          (λ old.
            (lookup_by_token shaq now
              (perform_all after s).manager
              (record { slot_index = slot_index; generation = old.connection_id })).0
            ≡ none)
          s.manager.removed
  perform_all-removed before after updates metrics now slot_index bound =
      let start : Running K B Q = record {
        manager = Slots.new;
        bloom_updates = updates;
        metrics = metrics;
      } in
      let (k, low, v) = perform_all_valid before 1 0 start new-IsValidAt (omega (arith, bound)) in
      each_dead after k now slot_index (perform_all before start)
        (perform_all before start).manager.removed v (omega (arith, bound, low)) v.gone v.not_back
