-- ===== src/Types/Frames/Routing.antt =====
-- How the three decoders of server frames relate, and that no frame makes them panic.
use qlaster_public.Base.{Bytes, arith, ◌≡◌}
use qlaster_public.Error.{Returns, map_ok}
use qlaster_public.Extern.{Lz4, PubkeyApi}
use qlaster_public.Types.Account
use qlaster_public.Types.Account.Steps
use qlaster_public.Types.Transaction
use qlaster_public.Types.Transaction.Canonical
use qlaster_public.Types.Slot
use qlaster_public.Types.Slot.RoundTrip
use qlaster_public.Types.Ready
use qlaster_public.Types.ReadyShm
use qlaster_public.Types.Frames.{
  Codecs, ServerFrame, ServerFrameWithMeta, decode_server_frame, decode_server_frame_owned,
  decode_server_frame_owned_with_meta, wire_tag,
}

-- A frame without its timestamp.
unfoldable pub without_meta : {K : Type 0} → ServerFrameWithMeta K → ServerFrame K
without_meta (ServerFrameWithMeta.account_update u m) = ServerFrame.account_update u
without_meta (ServerFrameWithMeta.transaction_update u m) = ServerFrame.transaction_update u
without_meta (ServerFrameWithMeta.slot_update u m) = ServerFrame.slot_update u
without_meta (ServerFrameWithMeta.connection_ready r) = ServerFrame.connection_ready r
without_meta (ServerFrameWithMeta.connection_ready_shm r) = ServerFrame.connection_ready_shm r

module _ {K : Type 0} (keys : PubkeyApi K) (lz4 : Lz4) (codecs : Codecs) where
  -- On every input, errors included, decoding an owned frame is decoding it with its metadata,
  -- which is then dropped, and decoding a borrowed frame gives the same.
  pub decode_server_frame_owned-without_meta :
      (bytes : Bytes)
      → (decode_server_frame_owned keys lz4 codecs bytes
          ≡ map_ok without_meta (decode_server_frame_owned_with_meta keys lz4 codecs bytes))
        × (decode_server_frame keys lz4 codecs bytes
            ≡ decode_server_frame_owned keys lz4 codecs bytes)
  unfolding decode_server_frame decode_server_frame_owned decode_server_frame_owned_with_meta
      without_meta Account.decode Account.decode_owned Account.decode_owned_with_meta
      Account.decode_with_meta Transaction.decode Transaction.decode_owned
      Transaction.decode_owned_with_meta Transaction.decode_with_meta Slot.decode Slot.decode_owned
      Slot.decode_owned_with_meta
  decode_server_frame_owned-without_meta bytes = (ground arith, ground arith)

  account-Returns : (bytes : Bytes) → Returns (Account.decode_owned_with_meta keys lz4 bytes)
  unfolding Account.decode_owned_with_meta Account.decode_with_meta
  account-Returns bytes =
      unfold Account.decode_with_meta in Steps.account_decode_with_meta-Returns keys lz4 bytes

  -- No frame makes the decoder of owned frames with metadata panic: it returns a frame or an
  -- error.
  pub decode_server_frame_owned_with_meta-Returns :
      (bytes : Bytes) → Returns (decode_server_frame_owned_with_meta keys lz4 codecs bytes)
  unfolding decode_server_frame_owned_with_meta wire_tag Transaction.decode_owned_with_meta
      Transaction.decode_with_meta Slot.decode_owned_with_meta
  decode_server_frame_owned_with_meta-Returns bytes = ground (
    arith,
    account-Returns bytes,
    Canonical.transaction_decode_with_meta-Returns bytes,
    RoundTrip.slot_decode_with_meta-Returns bytes,
    Ready.decode-Returns codecs.ready_codec bytes,
    ReadyShm.decode-Returns codecs.ready_shm_codec bytes,
  )
