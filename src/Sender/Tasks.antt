-- ===== src/Sender/Tasks.antt =====
-- src/sender/mod.rs and src/sender/shm.rs: what `setup_sender_with_streams` starts, the dispatchers
-- over their broadcast channels, and `run_listener`, on Linux. The answers of the channels and of
-- `accept` are arguments.
use qlaster_public.Base.{
  Bool, List, Option, String, [], false, inl, inr, none, refl, some, true, ℕ, ◌∷◌, ◌≡◌, ◌⊎◌,
}
use qlaster_public.Error.{IoError, Result, accept_failed, err, ok, uds_error, ◌>>◌}
use qlaster_public.Extern.{Bloom, Lz4, PubkeyApi, Shaq}
use qlaster_public.Metrics.{QlasterSenderMetrics}
use qlaster_public.Types.Account.{AccountUpdate}
use qlaster_public.Types.Transaction.{TransactionUpdate}
use qlaster_public.Types.Slot.{SlotUpdate}
use qlaster_public.Sender.Slots
use qlaster_public.Sender.Dispatch.{
  Timing, dispatch_account_update, dispatch_slot_update, dispatch_transaction_update,
}
use qlaster_public.Sender.Connection.{BindOutcomes, BloomUpdates, bind_listener}
use qlaster_public.Sender.Invariant.Run.{
  Call, Running, from_pair, on_account, on_slot, on_transaction, perform, perform_all,
}

-- What `recv` of a broadcast channel gives.
pub data Recv (A : Type 0) : Type 0 where
  received : Timing → A → Recv A
  lagged : ℕ → Recv A
  closed : Recv A

module _ {K B Q : Type 0} (keys : PubkeyApi K) (lz4 : Lz4) (bloom : Bloom B) (shaq : Shaq Q) where
  -- The task that dispatches accounts: whether it has ended, and what it leaves.
  unfoldable pub account_dispatcher :
      List (Recv (AccountUpdate K)) → Running K B Q → Bool × Running K B Q
  account_dispatcher [] s = (false, s)
  account_dispatcher (received t update ∷ answers) s =
      account_dispatcher answers
        (from_pair s (dispatch_account_update keys lz4 bloom shaq t update s.manager s.metrics))
  account_dispatcher (lagged skipped ∷ answers) s = account_dispatcher answers s
  account_dispatcher (closed ∷ answers) s = (true, s)

  unfoldable pub transaction_dispatcher :
      List (Recv TransactionUpdate) → Running K B Q → Bool × Running K B Q
  transaction_dispatcher [] s = (false, s)
  transaction_dispatcher (received t update ∷ answers) s =
      transaction_dispatcher answers
        (from_pair s (dispatch_transaction_update keys lz4 bloom shaq t update s.manager s.metrics))
  transaction_dispatcher (lagged skipped ∷ answers) s = transaction_dispatcher answers s
  transaction_dispatcher (closed ∷ answers) s = (true, s)

  unfoldable pub slot_dispatcher : List (Recv SlotUpdate) → Running K B Q → Bool × Running K B Q
  slot_dispatcher [] s = (false, s)
  slot_dispatcher (received t update ∷ answers) s =
      slot_dispatcher answers
        (from_pair s (dispatch_slot_update keys lz4 bloom shaq t update s.manager s.metrics))
  slot_dispatcher (lagged skipped ∷ answers) s = slot_dispatcher answers s
  slot_dispatcher (closed ∷ answers) s = (true, s)

  -- The calls that a dispatcher makes before its channel is closed.
  unfoldable pub calls_before_close :
      {A : Type 0} → (Timing → A → Call K Q) → List (Recv A) → List (Call K Q)
  calls_before_close call [] = []
  calls_before_close call (received t update ∷ answers) =
      call t update ∷ calls_before_close call answers
  calls_before_close call (lagged skipped ∷ answers) = calls_before_close call answers
  calls_before_close call (closed ∷ answers) = []

  module _ (ring_path : ℕ → ℕ → String) (ring_capacity : ℕ) where
    -- A dispatcher makes the calls for what it received before the close, in their order, so that
    -- what holds of every sequence of calls holds of its manager.
    pub account_dispatcher-perform_all :
        (answers : List (Recv (AccountUpdate K))) (s : Running K B Q)
        → (account_dispatcher answers s).1
          ≡ perform_all keys lz4 bloom shaq ring_path ring_capacity
              (calls_before_close on_account answers)
              s
    unfolding account_dispatcher calls_before_close perform_all perform
    account_dispatcher-perform_all [] s = refl
    account_dispatcher-perform_all (received t update ∷ answers) s =
        account_dispatcher-perform_all answers _
    account_dispatcher-perform_all (lagged skipped ∷ answers) s =
        account_dispatcher-perform_all answers s
    account_dispatcher-perform_all (closed ∷ answers) s = refl

    pub transaction_dispatcher-perform_all :
        (answers : List (Recv TransactionUpdate)) (s : Running K B Q)
        → (transaction_dispatcher answers s).1
          ≡ perform_all keys lz4 bloom shaq ring_path ring_capacity
              (calls_before_close on_transaction answers)
              s
    unfolding transaction_dispatcher calls_before_close perform_all perform
    transaction_dispatcher-perform_all [] s = refl
    transaction_dispatcher-perform_all (received t update ∷ answers) s =
        transaction_dispatcher-perform_all answers _
    transaction_dispatcher-perform_all (lagged skipped ∷ answers) s =
        transaction_dispatcher-perform_all answers s
    transaction_dispatcher-perform_all (closed ∷ answers) s = refl

    pub slot_dispatcher-perform_all :
        (answers : List (Recv SlotUpdate)) (s : Running K B Q)
        → (slot_dispatcher answers s).1
          ≡ perform_all keys lz4 bloom shaq ring_path ring_capacity
              (calls_before_close on_slot answers)
              s
    unfolding slot_dispatcher calls_before_close perform_all perform
    slot_dispatcher-perform_all [] s = refl
    slot_dispatcher-perform_all (received t update ∷ answers) s =
        slot_dispatcher-perform_all answers _
    slot_dispatcher-perform_all (lagged skipped ∷ answers) s = slot_dispatcher-perform_all answers s
    slot_dispatcher-perform_all (closed ∷ answers) s = refl

-- The state that the tasks share, once the listener is bound.
unfoldable pub setup_sender_with_streams :
    {K B Q : Type 0}
    → String
    → BindOutcomes
    → ℕ
    → BloomUpdates K
    → QlasterSenderMetrics
    → Result (Running K B Q)
setup_sender_with_streams uds_path os ring_capacity_bytes bloom_updates metrics =
    bind_listener uds_path os ring_capacity_bytes
    >> ok (record { manager = Slots.new; bloom_updates = bloom_updates; metrics = metrics })

-- The loop of `run_listener` with the streams for which a task was started, last first: an error of
-- `accept` ends it.
unfoldable pub run_listener :
    {S : Type 0} → List (IoError ⊎ S) → List S → Option (Result (Unit {0})) × List S
run_listener [] started = (none, started)
run_listener (inl e ∷ accepts) started = (some (err (uds_error (accept_failed e))), started)
run_listener (inr stream ∷ accepts) started = run_listener accepts (stream ∷ started)
