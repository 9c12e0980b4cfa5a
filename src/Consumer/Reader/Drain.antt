-- ===== src/Consumer/Reader/Drain.antt =====
-- src/consumer/shm.rs: the inner loop of the reader ends, and leaves in each queue the updates of that kind that were in
-- the ring, in their order, as far as they fit.

use qlaster_public.Consumer.Reader.Updates.{
  IsEnd, account_of, accounts_in, behind_end, decoded, frames_then, meets_close, slot_of, slots_in,
  transaction_of, transactions_in,
}
use qlaster_public.Types.Slot.{SlotUpdate}
use qlaster_public.Types.Transaction.{TransactionUpdate}
use qlaster_public.Types.Account.{AccountUpdate}
use qlaster_public.Types.Frames.Routing.{decode_server_frame_owned_with_meta-Returns}
use qlaster_public.Ring.Refine.Pop.{pop_close, pop_frame, pop_nothing}
use qlaster_public.Ring.Refine.{bytes_of, item_bytes}
use qlaster_public.Types.Frames.{
  Codecs, ServerFrameWithMeta, account_update, connection_ready, connection_ready_shm, slot_update,
  transaction_update,
}
use qlaster_public.Ring.{ShmRingConsumer}
use qlaster_public.Error.{Result, Returns, err, ok, panicked}
use qlaster_public.Consumer.Reader.Kept.{Keeps, Keeps-assoc, Keeps-nil, force_push-Keeps}
use qlaster_public.Consumer.Reader.{
  ReadTiming, ReaderState, drain, drained, enqueue, idle, on_pop, read_round, taken,
}
use qlaster_public.Ring.Spec.{Item, close_mark, frame}
use qlaster_public.Extern.{ArrayQueue, IsArrayQueue, IsShaq, Lz4, PubkeyApi, Shaq}
use qlaster_public.Base.{
  All, Bytes, List, [], ap, append_assoc, arith, length, refl, suc, to_le_bytes, u32_max, zero, ℕ,
  ◌++◌, ◌+◌, ◌<◌, ◌^◌, ◌∙◌, ◌∷◌, ◌≡◌,
}

module _ {K Q : Type 0} {C : Type 0 → Type 0} (keys : PubkeyApi K) (lz4 : Lz4) (codecs : Codecs)
    (shaq : Shaq Q) (contents : Q → Bytes) (cap : ℕ) (laws : IsShaq shaq contents cap)
    (cap_small : cap < 2 ^ 32 + 3) (array_queue : ArrayQueue C)
    (elements : (A : Type 0) → C A → List A) (capacity : (A : Type 0) → C A → ℕ)
    (queue_laws : IsArrayQueue array_queue elements capacity) where
  -- What has been put into the three queues of the reader.
  abbrev pub Received :
      List (AccountUpdate K) → List TransactionUpdate → List SlotUpdate → ReaderState K Q C → Type 0
  Received accounts transactions slots s =
      Keeps (elements (AccountUpdate K)) (capacity (AccountUpdate K)) accounts s.updates
      × Keeps (elements TransactionUpdate) (capacity TransactionUpdate) transactions s.transactions
      × Keeps (elements SlotUpdate) (capacity SlotUpdate) slots s.slots

  unchanged :
      (s : ReaderState K Q C) (accounts : List (AccountUpdate K))
      (transactions : List TransactionUpdate) (slots : List SlotUpdate)
      → Received accounts transactions slots s
      → Received (accounts ++ []) (transactions ++ []) (slots ++ []) s
  unchanged s accounts transactions slots h = (
    Keeps-nil (elements (AccountUpdate K)) (capacity (AccountUpdate K)) accounts s.updates h.0,
    Keeps-nil (elements TransactionUpdate) (capacity TransactionUpdate) transactions s.transactions
        h.1,
    Keeps-nil (elements SlotUpdate) (capacity SlotUpdate) slots s.slots h.2,
  )

  enqueue-Received :
      (t : ReadTiming) (s : ReaderState K Q C) (r : Result (ServerFrameWithMeta K))
      (accounts : List (AccountUpdate K)) (transactions : List TransactionUpdate)
      (slots : List SlotUpdate)
      → Returns r
      → Received accounts transactions slots s
      → (s' : ReaderState K Q C) × (enqueue keys lz4 codecs shaq array_queue t s r ≡ taken s')
        × Received
            (accounts ++ account_of r)
            (transactions ++ transaction_of r)
            (slots ++ slot_of r)
            s'
        × (s'.ring ≡ s.ring)
        × (s'.queue ≡ s.queue)
  unfolding enqueue account_of transaction_of slot_of
  enqueue-Received t s (ok (account_update update meta)) accounts transactions slots returns h = (
    _,
    refl,
    (
      force_push-Keeps array_queue elements capacity queue_laws (AccountUpdate K) accounts s.updates
          update h.0,
      Keeps-nil (elements TransactionUpdate) (capacity TransactionUpdate) transactions
          s.transactions h.1,
      Keeps-nil (elements SlotUpdate) (capacity SlotUpdate) slots s.slots h.2,
    ),
    refl,
    refl,
  )
  enqueue-Received t s (ok (transaction_update update meta)) accounts transactions slots returns h =
      (
        _,
        refl,
        (
          Keeps-nil (elements (AccountUpdate K)) (capacity (AccountUpdate K)) accounts s.updates
              h.0,
          force_push-Keeps array_queue elements capacity queue_laws TransactionUpdate transactions
              s.transactions update h.1,
          Keeps-nil (elements SlotUpdate) (capacity SlotUpdate) slots s.slots h.2,
        ),
        refl,
        refl,
      )
  enqueue-Received t s (ok (slot_update update meta)) accounts transactions slots returns h = (
    _,
    refl,
    (
      Keeps-nil (elements (AccountUpdate K)) (capacity (AccountUpdate K)) accounts s.updates h.0,
      Keeps-nil (elements TransactionUpdate) (capacity TransactionUpdate) transactions
          s.transactions h.1,
      force_push-Keeps array_queue elements capacity queue_laws SlotUpdate slots s.slots update h.2,
    ),
    refl,
    refl,
  )
  enqueue-Received t s (ok (connection_ready ready)) accounts transactions slots returns h =
      (s, refl, unchanged s accounts transactions slots h, refl, refl)
  enqueue-Received t s (ok (connection_ready_shm ready)) accounts transactions slots returns h =
      (s, refl, unchanged s accounts transactions slots h, refl, refl)
  enqueue-Received t s (err e) accounts transactions slots returns h =
      (s, refl, unchanged s accounts transactions slots h, refl, refl)
  enqueue-Received t s panicked accounts transactions slots returns h = absurd returns

  read_round-idle :
      (t : ReadTiming) (s : ReaderState K Q C) (last : List Item)
      → IsEnd last
      → contents s.queue ≡ bytes_of last
      → (queue : Q) × (read_round keys lz4 codecs shaq array_queue t s
          ≡ idle (record s {
            ring = record (s.ring) { closed = meets_close last s.ring.closed };
            queue = queue;
          }))
        × (contents queue ≡ bytes_of (behind_end last))
  unfolding read_round on_pop meets_close behind_end bytes_of item_bytes
  read_round-idle t s [] end held =
      (s.queue, rw (pop_nothing shaq contents cap laws cap_small s.ring s.queue held) refl, held)
  read_round-idle t s (close_mark ∷ items) end held =
      let (queue, got, left) =
        pop_close shaq contents cap laws cap_small s.ring s.queue (bytes_of items) held in
      (queue, rw got refl, left)
  read_round-idle t s (frame body ∷ items) end held = absurd end

  -- A frame in front is taken and treated.
  read_round-taken :
      (t : ReadTiming) (s : ReaderState K Q C) (body : Bytes) (items : List Item)
      (accounts : List (AccountUpdate K)) (transactions : List TransactionUpdate)
      (slots : List SlotUpdate)
      → length body < u32_max
      → contents s.queue ≡ bytes_of (frame body ∷ items)
      → Received accounts transactions slots s
      → (s' : ReaderState K Q C) × (read_round keys lz4 codecs shaq array_queue t s ≡ taken s')
        × Received
            (accounts ++ account_of (decoded keys lz4 codecs body))
            (transactions ++ transaction_of (decoded keys lz4 codecs body))
            (slots ++ slot_of (decoded keys lz4 codecs body))
            s'
        × (s'.ring ≡ s.ring)
        × (contents s'.queue ≡ bytes_of items)
  unfolding read_round on_pop bytes_of item_bytes
  read_round-taken t s body items accounts transactions slots small held h =
      let (queue, got, left) =
        pop_frame shaq contents cap laws cap_small s.ring s.queue body (bytes_of items) small
          (held ∙ append_assoc (to_le_bytes 4 (length body)) body (bytes_of items)) in
      let (s', put, h', same_ring, same_queue) =
        enqueue-Received t (record s { queue = queue }) (decoded keys lz4 codecs body) accounts
          transactions slots (decode_server_frame_owned_with_meta-Returns keys lz4 codecs body) h in
      (s', rw got put, h', same_ring, ap contents same_queue ∙ left)

  regrouped :
      (s : ReaderState K Q C) (accounts : List (AccountUpdate K))
      (transactions : List TransactionUpdate) (slots : List SlotUpdate)
      (r : Result (ServerFrameWithMeta K)) (bodies : List Bytes)
      → Received
          ((accounts ++ account_of r) ++ accounts_in keys lz4 codecs bodies)
          ((transactions ++ transaction_of r) ++ transactions_in keys lz4 codecs bodies)
          ((slots ++ slot_of r) ++ slots_in keys lz4 codecs bodies)
          s
      → Received
          (accounts ++ (account_of r ++ accounts_in keys lz4 codecs bodies))
          (transactions ++ (transaction_of r ++ transactions_in keys lz4 codecs bodies))
          (slots ++ (slot_of r ++ slots_in keys lz4 codecs bodies))
          s
  regrouped s accounts transactions slots r bodies h = (
    Keeps-assoc (elements (AccountUpdate K)) (capacity (AccountUpdate K)) accounts (account_of r)
        (accounts_in keys lz4 codecs bodies) s.updates h.0,
    Keeps-assoc (elements TransactionUpdate) (capacity TransactionUpdate) transactions
        (transaction_of r) (transactions_in keys lz4 codecs bodies) s.transactions h.1,
    Keeps-assoc (elements SlotUpdate) (capacity SlotUpdate) slots (slot_of r)
        (slots_in keys lz4 codecs bodies) s.slots h.2,
  )

  pub drain-Received :
      (times : ℕ → ReadTiming) (fuel i : ℕ) (bodies : List Bytes) (last : List Item)
      (s : ReaderState K Q C) (accounts : List (AccountUpdate K))
      (transactions : List TransactionUpdate) (slots : List SlotUpdate)
      → length bodies < fuel
      → All (λ body. length body < u32_max) bodies
      → IsEnd last
      → contents s.queue ≡ bytes_of (frames_then bodies last)
      → Received accounts transactions slots s
      → (s' : ReaderState K Q C) × (drain keys lz4 codecs shaq array_queue times fuel i s
          ≡ drained s')
        × Received
            (accounts ++ accounts_in keys lz4 codecs bodies)
            (transactions ++ transactions_in keys lz4 codecs bodies)
            (slots ++ slots_in keys lz4 codecs bodies)
            s'
        × (s'.ring.closed ≡ meets_close last s.ring.closed)
        × (contents s'.queue ≡ bytes_of (behind_end last))
  unfolding drain accounts_in transactions_in slots_in frames_then
  drain-Received times zero i bodies last s accounts transactions slots enough small end held h =
      absurd (omega (arith, enough))
  drain-Received times (suc fuel) i [] last s accounts transactions slots enough small end held h =
      let (queue, round, left) = read_round-idle (times i) s last end held in
      let s1 : ReaderState K Q C = record s {
        ring = record (s.ring) { closed = meets_close last s.ring.closed };
        queue = queue;
      } in
      (s1, rw (round, drain), unchanged s accounts transactions slots h, refl, left)
  drain-Received times (suc fuel) i (body ∷ bodies) last s accounts transactions slots enough small
        end held h =
      let (s1, round, h1, same_ring, left) =
        read_round-taken (times i) s body (frames_then bodies last) accounts transactions slots
          small.0 held h in
      let (s2, on, h2, closed, rest) =
        drain-Received times fuel (suc i) bodies last s1 _ _ _ (omega (arith, enough)) small.1 end
          left h1 in
      (
        s2,
        rw (round, drain) on,
        regrouped s2 accounts transactions slots (decoded keys lz4 codecs body) bodies h2,
        closed ∙ ap (λ (r : ShmRingConsumer). meets_close last r.closed) same_ring,
        rest,
      )
