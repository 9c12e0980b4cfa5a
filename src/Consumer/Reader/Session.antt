-- ===== src/Consumer/Reader/Session.antt =====
-- src/consumer/shm.rs: the reader over a whole session. The producer writes a batch of frames before
-- each wake-up, and closes the ring behind the last.

use qlaster_public.Ring.Refine.{bytes_of}
use qlaster_public.Consumer.Reader.Drain.{Received, drain-Received}
use qlaster_public.Consumer.Reader.Updates.{
  IsEnd, accounts_in, accounts_in-append, all_bodies, behind_end, frames_then, meets_close,
  slots_in, slots_in-append, transactions_in, transactions_in-append,
}
use qlaster_public.Consumer.Reader.Kept.{Keeps-assoc}
use qlaster_public.Consumer.Reader.{ReadTiming, ReaderState, Wake, after_drain, returned, read_loop}
use qlaster_public.Types.Frames.{Codecs}
use qlaster_public.Types.Slot.{SlotUpdate}
use qlaster_public.Types.Transaction.{TransactionUpdate}
use qlaster_public.Types.Account.{AccountUpdate}
use qlaster_public.Ring.Spec.{Item, close_mark}
use qlaster_public.Extern.{ArrayQueue, IsArrayQueue, IsShaq, Lz4, PubkeyApi, Shaq}
use qlaster_public.Base.{
  All, Bytes, List, [], false, length, none, suc, true, u32_max, ℕ, ◌++◌, ◌+◌, ◌<◌, ◌^◌, ◌∙◌, ◌∷◌,
  ◌≡◌,
}

-- What stands behind a batch: the close mark, if no batch follows.
abbrev pub ending : List (List Bytes) → List Item
ending [] = close_mark ∷ []
ending (batch ∷ batches) = []

-- At each wake-up that is needed, the file is there, the wait succeeds, and the producer has written
-- the next batch to a queue that was drained.
abbrev pub Feeds : {Q : Type 0} → (Q → Bytes) → List (Wake Q) → List (List Bytes) → Type 0
Feeds contents [] batches = ⊥
Feeds contents (wake ∷ wakes) [] = Unit {0}
Feeds contents (wake ∷ wakes) (batch ∷ batches) =
    (wake.path_exists ≡ true)
    × (wake.wait ≡ none)
    × ((q : _)
        → contents q ≡ []
        → contents (wake.produce q) ≡ bytes_of (frames_then batch (ending batches)))
    × Feeds contents wakes batches

-- The frames of a batch are shorter than the close mark says, and fewer than the fuel.
abbrev pub Fits : ℕ → List Bytes → Type 0
Fits fuel bodies = (length bodies < fuel) × All (λ body. length body < u32_max) bodies

module _ {K Q : Type 0} {C : Type 0 → Type 0} (keys : PubkeyApi K) (lz4 : Lz4) (codecs : Codecs)
    (shaq : Shaq Q) (contents : Q → Bytes) (cap : ℕ) (laws : IsShaq shaq contents cap)
    (cap_small : cap < 2 ^ 32 + 3) (array_queue : ArrayQueue C)
    (elements : (A : Type 0) → C A → List A) (capacity : (A : Type 0) → C A → ℕ)
    (queue_laws : IsArrayQueue array_queue elements capacity) where
  ending-IsEnd : (batches : List (List Bytes)) → IsEnd (ending batches)
  ending-IsEnd [] = tt
  ending-IsEnd (batch ∷ batches) = tt

  grown :
      (s : ReaderState K Q C) (accounts : List (AccountUpdate K))
      (transactions : List TransactionUpdate) (slots : List SlotUpdate) (xs ys : List Bytes)
      → Received keys lz4 codecs shaq contents cap laws cap_small array_queue elements capacity
          queue_laws
          ((accounts ++ accounts_in keys lz4 codecs xs) ++ accounts_in keys lz4 codecs ys)
          ((transactions ++ transactions_in keys lz4 codecs xs)
            ++ transactions_in keys lz4 codecs ys)
          ((slots ++ slots_in keys lz4 codecs xs) ++ slots_in keys lz4 codecs ys)
          s
      → Received keys lz4 codecs shaq contents cap laws cap_small array_queue elements capacity
          queue_laws
          (accounts ++ accounts_in keys lz4 codecs (xs ++ ys))
          (transactions ++ transactions_in keys lz4 codecs (xs ++ ys))
          (slots ++ slots_in keys lz4 codecs (xs ++ ys))
          s
  grown s accounts transactions slots xs ys h =
      rw
        (
          accounts_in-append keys lz4 codecs xs ys,
          transactions_in-append keys lz4 codecs xs ys,
          slots_in-append keys lz4 codecs xs ys,
        )
        (
          Keeps-assoc (elements (AccountUpdate K)) (capacity (AccountUpdate K)) accounts _ _
              s.updates h.0,
          Keeps-assoc (elements TransactionUpdate) (capacity TransactionUpdate) transactions _ _
              s.transactions h.1,
          Keeps-assoc (elements SlotUpdate) (capacity SlotUpdate) slots _ _ s.slots h.2,
        )

  pub read_loop-Received :
      (times : ℕ → ℕ → ReadTiming) (fuel i : ℕ) (wakes : List (Wake Q)) (bodies : List Bytes)
      (batches : List (List Bytes)) (s : ReaderState K Q C) (accounts : List (AccountUpdate K))
      (transactions : List TransactionUpdate) (slots : List SlotUpdate)
      → All (Fits fuel) (bodies ∷ batches)
      → Feeds contents wakes batches
      → s.ring.closed ≡ false
      → contents s.queue ≡ bytes_of (frames_then bodies (ending batches))
      → Received keys lz4 codecs shaq contents cap laws cap_small array_queue elements capacity
          queue_laws accounts transactions slots s
      → (s' : ReaderState K Q C) × (read_loop keys lz4 codecs shaq array_queue times fuel i wakes s
          ≡ returned s')
        × Received keys lz4 codecs shaq contents cap laws cap_small array_queue elements capacity
            queue_laws
            (accounts ++ accounts_in keys lz4 codecs (all_bodies bodies batches))
            (transactions ++ transactions_in keys lz4 codecs (all_bodies bodies batches))
            (slots ++ slots_in keys lz4 codecs (all_bodies bodies batches))
            s'
  unfolding read_loop after_drain all_bodies meets_close behind_end bytes_of
  read_loop-Received times fuel i [] bodies batches s accounts transactions slots fits feeds not_yet
        held h =
      absurd feeds
  read_loop-Received times fuel i (wake ∷ wakes) bodies [] s accounts transactions slots fits feeds
        not_yet held h =
      let (s1, round, h1, closed, left) =
        drain-Received keys lz4 codecs shaq contents cap laws cap_small array_queue elements
          capacity queue_laws (times i) fuel 0 bodies (close_mark ∷ []) s accounts transactions
          slots fits.0.0 fits.0.1 tt held h in
      (s1, rw (round, closed), h1)
  read_loop-Received times fuel i (wake ∷ wakes) bodies (batch ∷ batches) s accounts transactions
        slots fits feeds not_yet held h =
      let (s1, round, h1, closed, left) =
        drain-Received keys lz4 codecs shaq contents cap laws cap_small array_queue elements
          capacity queue_laws (times i) fuel 0 bodies [] s accounts transactions slots fits.0.0
          fits.0.1 tt held h in
      let s2 : ReaderState K Q C = record s1 { queue = wake.produce s1.queue } in
      let still : s2.ring.closed ≡ false = closed ∙ not_yet in
      let (s3, on, h3) =
        read_loop-Received times fuel (suc i) wakes batch batches s2 _ _ _ fits.1 feeds.3 still
          (feeds.2 s1.queue left) h1 in
      (
        s3,
        rw (round, still, feeds.0, feeds.1) on,
        grown s3 accounts transactions slots bodies (all_bodies batch batches) h3,
      )
