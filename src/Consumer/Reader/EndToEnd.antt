-- ===== src/Consumer/Reader/EndToEnd.antt =====
-- src/consumer/shm.rs with the encoders of src/types.rs: the frames that the sender encodes and puts
-- into the ring reach the queues of the consumer.
use qlaster_public.Consumer.Reader.Session.{Feeds, Fits, ending, read_loop-Received}
use qlaster_public.Consumer.Reader.Updates.{
  account_of, accounts_in, all_bodies, decoded, frames_then, slot_of, slots_in, transaction_of,
  transactions_in,
}
use qlaster_public.Consumer.Reader.Kept.{Keeps, keep_last}
use qlaster_public.Consumer.Reader.{
  ReadTiming, ReaderState, Wake, consumer_update_queue_capacity, returned, run_reader,
}
use qlaster_public.Error.{IoError, Result, ok, ◌>>=◌}
use qlaster_public.Types.Frames.RoundTrip.{
  IsServerFrame, decode_server_frame-encode, encode_server_frame,
}
use qlaster_public.Types.Frames.{
  Codecs, IsCodecs, ServerFrameWithMeta, Supported, decode_server_frame_owned_with_meta,
}
use qlaster_public.Types.Slot.{SlotUpdate}
use qlaster_public.Types.Transaction.{TransactionUpdate}
use qlaster_public.Types.Account.{AccountUpdate}
use qlaster_public.Metrics.{QlasterConsumerMetrics}
use qlaster_public.Ring.Refine.{bytes_of}
use qlaster_public.Extern.{
  ArrayQueue, IsArrayQueue, IsLz4, IsPubkeyApi, IsShaq, Lz4, PubkeyApi, Shaq,
}
use qlaster_public.Base.{
  All, Bytes, List, Option, [], ap, ap₂, false, none, refl, some, sym, ℕ, ◌++◌, ◌+◌, ◌<◌, ◌^◌, ◌∙◌,
  ◌∷◌, ◌≡◌,
}

-- The updates of each kind among the frames of the sender.
unfoldable pub accounts_of : {K : Type 0} → List (ServerFrameWithMeta K) → List (AccountUpdate K)
accounts_of [] = []
accounts_of (f ∷ frames) = account_of (ok f) ++ accounts_of frames

unfoldable pub transactions_of :
    {K : Type 0} → List (ServerFrameWithMeta K) → List TransactionUpdate
transactions_of [] = []
transactions_of (f ∷ frames) = transaction_of (ok f) ++ transactions_of frames

unfoldable pub slots_of : {K : Type 0} → List (ServerFrameWithMeta K) → List SlotUpdate
slots_of [] = []
slots_of (f ∷ frames) = slot_of (ok f) ++ slots_of frames

-- Of what was sent, what a reader gets by the outcome of `AsyncEventFd::new`.
abbrev pub reached : {A : Type 0} → Option IoError → List A → List A
reached none xs = xs
reached (some e) xs = []

-- The bodies are these frames, encoded.
abbrev pub Encodes :
    {K : Type 0}
    → PubkeyApi K
    → Lz4
    → Codecs
    → Supported
    → List Bytes
    → List (ServerFrameWithMeta K)
    → Type 0
Encodes keys lz4 codecs supported [] [] = Unit {0}
Encodes keys lz4 codecs supported [] (f ∷ frames) = ⊥
Encodes keys lz4 codecs supported (body ∷ bodies) [] = ⊥
Encodes keys lz4 codecs supported (body ∷ bodies) (f ∷ frames) =
    (encode_server_frame keys lz4 codecs f ≡ ok body)
    × IsServerFrame supported f
    × Encodes keys lz4 codecs supported bodies frames

module _ {K Q : Type 0} {C : Type 0 → Type 0} (keys : PubkeyApi K) (lz4 : Lz4) (codecs : Codecs)
    (shaq : Shaq Q) (contents : Q → Bytes) (cap : ℕ) (laws : IsShaq shaq contents cap)
    (cap_small : cap < 2 ^ 32 + 3) (array_queue : ArrayQueue C)
    (elements : (A : Type 0) → C A → List A) (capacity : (A : Type 0) → C A → ℕ)
    (queue_laws : IsArrayQueue array_queue elements capacity) (supported : Supported)
    (keys_laws : IsPubkeyApi keys) (lz4_laws : IsLz4 lz4)
    (codec_laws : IsCodecs supported codecs) where
  decoded_body :
      (f : ServerFrameWithMeta K) (body : Bytes)
      → encode_server_frame keys lz4 codecs f ≡ ok body
      → IsServerFrame supported f
      → decoded keys lz4 codecs body ≡ ok f
  decoded_body f body encoded valid =
      sym (
        ap (λ (m : Result Bytes). m >>= decode_server_frame_owned_with_meta keys lz4 codecs)
          encoded)
      ∙ decode_server_frame-encode keys lz4 codecs supported f keys_laws lz4_laws codec_laws valid

  updates_in :
      (bodies : List Bytes) (frames : List (ServerFrameWithMeta K))
      → Encodes keys lz4 codecs supported bodies frames
      → (accounts_in keys lz4 codecs bodies ≡ accounts_of frames)
        × (transactions_in keys lz4 codecs bodies ≡ transactions_of frames)
        × (slots_in keys lz4 codecs bodies ≡ slots_of frames)
  unfolding accounts_in transactions_in slots_in accounts_of transactions_of slots_of
  updates_in [] [] encodes = (refl, refl, refl)
  updates_in [] (f ∷ frames) encodes = absurd encodes
  updates_in (body ∷ bodies) [] encodes = absurd encodes
  updates_in (body ∷ bodies) (f ∷ frames) encodes =
      let same = decoded_body f body encodes.0 encodes.1 in
      let (a, t, s) = updates_in bodies frames encodes.2 in
      (
        ap₂ (λ r xs. account_of r ++ xs) same a,
        ap₂ (λ r xs. transaction_of r ++ xs) same t,
        ap₂ (λ r xs. slot_of r ++ xs) same s,
      )

  -- A reader that starts with new queues.
  abbrev pub started : Q → QlasterConsumerMetrics → ReaderState K Q C
  started q metrics = record {
    ring = record { closed = false };
    queue = q;
    updates = array_queue.new consumer_update_queue_capacity;
    transactions = array_queue.new consumer_update_queue_capacity;
    slots = array_queue.new consumer_update_queue_capacity;
    metrics = metrics;
  }

  new-Keeps :
      (A : Type 0)
      → Keeps (elements A) (capacity A) [] (array_queue.new consumer_update_queue_capacity)
  unfolding keep_last
  new-Keeps A = (
    queue_laws.new_empty A consumer_update_queue_capacity,
    queue_laws.new_capacity A consumer_update_queue_capacity,
  )

  -- A reader that starts with empty queues returns; if its descriptor could not be registered with
  -- the event loop, it returns at once and the queues stay empty, and if it could, the reader
  -- returns after the producer has closed the ring, and the three queues then hold the last 2048
  -- of the account, transaction and slot updates that the sender encoded, in their order; the
  -- frames come in batches, one before each wake-up, each batch with fewer frames than the fuel
  -- and each frame shorter than the close mark, the waits succeed, the file is there until the
  -- close, and keys, compressor, serializers, byte queue (of a capacity below 2^32 + 3) and queues
  -- keep their laws.
  pub run_reader-encode :
      (registration : Option IoError) (times : ℕ → ℕ → ReadTiming) (fuel : ℕ)
      (wakes : List (Wake Q)) (bodies : List Bytes) (batches : List (List Bytes))
      (frames : List (ServerFrameWithMeta K)) (q : Q) (metrics : QlasterConsumerMetrics)
      → All (Fits fuel) (bodies ∷ batches)
      → Feeds contents wakes batches
      → contents q ≡ bytes_of (frames_then bodies (ending batches))
      → Encodes keys lz4 codecs supported (all_bodies bodies batches) frames
      → (s' : ReaderState K Q C) × (run_reader keys lz4 codecs shaq array_queue registration times
            fuel wakes
            (started q metrics)
          ≡ returned s')
        × (elements (AccountUpdate K) s'.updates
            ≡ keep_last consumer_update_queue_capacity (reached registration (accounts_of frames)))
        × (elements TransactionUpdate s'.transactions
            ≡ keep_last consumer_update_queue_capacity
                (reached registration (transactions_of frames)))
        × (elements SlotUpdate s'.slots
            ≡ keep_last consumer_update_queue_capacity (reached registration (slots_of frames)))
  unfolding run_reader
  run_reader-encode (some e) times fuel wakes bodies batches frames q metrics fits feeds held
        encodes =
      (
        started q metrics,
        refl,
        (new-Keeps (AccountUpdate K)).0,
        (new-Keeps TransactionUpdate).0,
        (new-Keeps SlotUpdate).0,
      )
  run_reader-encode none times fuel wakes bodies batches frames q metrics fits feeds held encodes =
      let start = started q metrics in
      let (s', done, got) =
        read_loop-Received keys lz4 codecs shaq contents cap laws cap_small array_queue elements
          capacity queue_laws times fuel 0 wakes bodies batches start [] [] [] fits feeds refl held
          (new-Keeps (AccountUpdate K), new-Keeps TransactionUpdate, new-Keeps SlotUpdate) in
      let (a, t, s) = updates_in (all_bodies bodies batches) frames encodes in
      (
        s',
        done,
        got.0.0 ∙ ap (keep_last consumer_update_queue_capacity) a,
        got.1.0 ∙ ap (keep_last consumer_update_queue_capacity) t,
        got.2.0 ∙ ap (keep_last consumer_update_queue_capacity) s,
      )
