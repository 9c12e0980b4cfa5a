-- ===== src/Consumer/Reader/Updates.antt =====
-- What a ring holds, read off its bytes: the updates of each kind among its frames.
use qlaster_public.Error.{Result, err, ok, panicked}
use qlaster_public.Types.Frames.{
  Codecs, ServerFrameWithMeta, account_update, connection_ready, connection_ready_shm,
  decode_server_frame_owned_with_meta, slot_update, transaction_update,
}
use qlaster_public.Types.Slot.{SlotUpdate}
use qlaster_public.Types.Transaction.{TransactionUpdate}
use qlaster_public.Types.Account.{AccountUpdate}
use qlaster_public.Ring.Spec.{Item, close_mark, frame}
use qlaster_public.Extern.{Lz4, PubkeyApi}
use qlaster_public.Base.{
  Bool, Bytes, List, [], ap, append_assoc, refl, sym, true, ◌++◌, ◌∙◌, ◌∷◌, ◌≡◌,
}

-- The updates of each kind among the frames, in their order.
unfoldable pub account_of : {K : Type 0} → Result (ServerFrameWithMeta K) → List (AccountUpdate K)
account_of (ok (account_update update meta)) = update ∷ []
account_of (ok (transaction_update update meta)) = []
account_of (ok (slot_update update meta)) = []
account_of (ok (connection_ready ready)) = []
account_of (ok (connection_ready_shm ready)) = []
account_of (err e) = []
account_of panicked = []

unfoldable pub transaction_of :
    {K : Type 0} → Result (ServerFrameWithMeta K) → List TransactionUpdate
transaction_of (ok (account_update update meta)) = []
transaction_of (ok (transaction_update update meta)) = update ∷ []
transaction_of (ok (slot_update update meta)) = []
transaction_of (ok (connection_ready ready)) = []
transaction_of (ok (connection_ready_shm ready)) = []
transaction_of (err e) = []
transaction_of panicked = []

unfoldable pub slot_of : {K : Type 0} → Result (ServerFrameWithMeta K) → List SlotUpdate
slot_of (ok (account_update update meta)) = []
slot_of (ok (transaction_update update meta)) = []
slot_of (ok (slot_update update meta)) = update ∷ []
slot_of (ok (connection_ready ready)) = []
slot_of (ok (connection_ready_shm ready)) = []
slot_of (err e) = []
slot_of panicked = []

module _ {K : Type 0} (keys : PubkeyApi K) (lz4 : Lz4) (codecs : Codecs) where
  abbrev pub decoded : Bytes → Result (ServerFrameWithMeta K)
  decoded body = decode_server_frame_owned_with_meta keys lz4 codecs body

  unfoldable pub accounts_in : List Bytes → List (AccountUpdate K)
  accounts_in [] = []
  accounts_in (body ∷ bodies) = account_of (decoded body) ++ accounts_in bodies

  unfoldable pub transactions_in : List Bytes → List TransactionUpdate
  transactions_in [] = []
  transactions_in (body ∷ bodies) = transaction_of (decoded body) ++ transactions_in bodies

  unfoldable pub slots_in : List Bytes → List SlotUpdate
  slots_in [] = []
  slots_in (body ∷ bodies) = slot_of (decoded body) ++ slots_in bodies

-- The items behind the frames: nothing, or a close mark with whatever follows it.
abbrev pub IsEnd : List Item → Type 0
IsEnd [] = Unit {0}
IsEnd (close_mark ∷ items) = Unit {0}
IsEnd (frame body ∷ items) = ⊥

-- The frames with these bodies, and what comes behind them.
unfoldable pub frames_then : List Bytes → List Item → List Item
frames_then [] last = last
frames_then (body ∷ bodies) last = frame body ∷ frames_then bodies last

-- What is left of them, and whether the reader has met a close mark.
unfoldable pub behind_end : List Item → List Item
behind_end [] = []
behind_end (i ∷ items) = items

unfoldable pub meets_close : List Item → Bool → Bool
meets_close [] closed = closed
meets_close (i ∷ items) closed = true

-- Batches of frames, one after the other.
unfoldable pub all_bodies : List Bytes → List (List Bytes) → List Bytes
all_bodies bodies [] = bodies
all_bodies bodies (batch ∷ batches) = bodies ++ all_bodies batch batches

module _ {K : Type 0} (keys : PubkeyApi K) (lz4 : Lz4) (codecs : Codecs) where
  pub accounts_in-append :
      (xs ys : List Bytes)
      → accounts_in keys lz4 codecs (xs ++ ys)
        ≡ accounts_in keys lz4 codecs xs ++ accounts_in keys lz4 codecs ys
  unfolding accounts_in
  accounts_in-append [] ys = refl
  accounts_in-append (x ∷ xs) ys =
      ap (λ r. account_of (decoded keys lz4 codecs x) ++ r) (accounts_in-append xs ys)
      ∙ sym (append_assoc (account_of (decoded keys lz4 codecs x)) _ _)

  pub transactions_in-append :
      (xs ys : List Bytes)
      → transactions_in keys lz4 codecs (xs ++ ys)
        ≡ transactions_in keys lz4 codecs xs ++ transactions_in keys lz4 codecs ys
  unfolding transactions_in
  transactions_in-append [] ys = refl
  transactions_in-append (x ∷ xs) ys =
      ap (λ r. transaction_of (decoded keys lz4 codecs x) ++ r) (transactions_in-append xs ys)
      ∙ sym (append_assoc (transaction_of (decoded keys lz4 codecs x)) _ _)

  pub slots_in-append :
      (xs ys : List Bytes)
      → slots_in keys lz4 codecs (xs ++ ys)
        ≡ slots_in keys lz4 codecs xs ++ slots_in keys lz4 codecs ys
  unfolding slots_in
  slots_in-append [] ys = refl
  slots_in-append (x ∷ xs) ys =
      ap (λ r. slot_of (decoded keys lz4 codecs x) ++ r) (slots_in-append xs ys)
      ∙ sym (append_assoc (slot_of (decoded keys lz4 codecs x)) _ _)
