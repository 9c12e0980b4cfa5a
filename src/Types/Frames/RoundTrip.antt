-- ===== src/Types/Frames/RoundTrip.antt =====
-- Every frame that goes over the wire is routed to its decoder and read back.
use qlaster_public.Base.{
  Bytes, arith, false, get_elem?, refl, some, ℕ, ◌<◌, ◌==◌, ◌^◌, ◌∙◌, ◌≡◌, ◌≢◌,
}
use qlaster_public.Error.{Result, err, ok, panicked, ◌>>=◌}
use qlaster_public.Extern.{IsLz4, IsPubkeyApi, IsWincode, Lz4, PubkeyApi, Wincode}
use qlaster_public.Types.{
  AccountUpdateWireMeta, ready_shm_tag, ready_tag, request_ping_tag, request_subscribe_tag,
  slot_update_tag, to_u32, transaction_update_tag, unset_slot_index, update_tag,
}
use qlaster_public.Types.Account
use qlaster_public.Types.Account.{
  AccountUpdate, IsAccountUpdate, decode, decode_owned_with_meta, decode_with_meta, encode,
  encode_parts, encode_parts_at,
}
use qlaster_public.Types.Account.RoundTrip as AccountRoundTrip
use qlaster_public.Types.Transaction
use qlaster_public.Types.Transaction.{IsTransactionUpdate, TransactionUpdate}
use qlaster_public.Types.Transaction.RoundTrip as TransactionRoundTrip
use qlaster_public.Types.Slot
use qlaster_public.Types.Slot.{SlotUpdate}
use qlaster_public.Types.Slot.RoundTrip as SlotRoundTrip
use qlaster_public.Types.Subscription
use qlaster_public.Types.Ping
use qlaster_public.Types.Ready
use qlaster_public.Types.Ready.{ConnectionReady, WireConnectionReady, ready_decode-encode, to_wire}
use qlaster_public.Types.ReadyShm
use qlaster_public.Types.ReadyShm.{
  ConnectionReadyShm, WireConnectionReadyShm, is_empty, ready_shm_decode-encode,
}
use qlaster_public.Types.Frames.{
  ClientFrame, Codecs, IsCodecs, ServerFrameWithMeta, Supported, decode_client_frame,
  decode_server_frame_owned_with_meta, wire_tag,
}

module _ {K : Type 0} (keys : PubkeyApi K) (lz4 : Lz4) (codecs : Codecs) where
  -- What the sender writes for a frame: each kind by its own `encode`.
  unfoldable pub encode_server_frame : ServerFrameWithMeta K → Result Bytes
  encode_server_frame (ServerFrameWithMeta.account_update u m) =
      Account.encode keys lz4 u m.sender_created_at_unix_nanos
  encode_server_frame (ServerFrameWithMeta.transaction_update u m) =
      Transaction.encode u m.sender_created_at_unix_nanos
  encode_server_frame (ServerFrameWithMeta.slot_update u m) =
      Slot.encode u m.sender_created_at_unix_nanos
  encode_server_frame (ServerFrameWithMeta.connection_ready r) =
      ok (Ready.encode codecs.ready_codec r)
  encode_server_frame (ServerFrameWithMeta.connection_ready_shm r) =
      ok (ReadyShm.encode codecs.ready_shm_codec r)

-- The fields fit their widths, the serializer can write a handshake frame, and a handshake frame has its token, path and capacity set.
abbrev pub IsServerFrame : {K : Type 0} → Supported → ServerFrameWithMeta K → Type 0
IsServerFrame supported (ServerFrameWithMeta.account_update u m) =
    IsAccountUpdate u × (m.sender_created_at_unix_nanos < 2 ^ 64)
IsServerFrame supported (ServerFrameWithMeta.transaction_update u m) =
    IsTransactionUpdate u × (m.sender_created_at_unix_nanos < 2 ^ 64)
IsServerFrame supported (ServerFrameWithMeta.slot_update u m) =
    (u.slot < 2 ^ 64) × (m.sender_created_at_unix_nanos < 2 ^ 64)
IsServerFrame supported (ServerFrameWithMeta.connection_ready r) =
    (r.slot_token.slot_index ≢ unset_slot_index) × supported.Ready (Ready.to_wire r)
IsServerFrame supported (ServerFrameWithMeta.connection_ready_shm r) =
    (r.slot_token.slot_index ≢ unset_slot_index)
    × (ReadyShm.is_empty r.ring_path ≡ false)
    × (r.ring_capacity ≢ 0)
    × supported.ReadyShm (ReadyShm.to_wire r)

account_tag :
    {K : Type 0} (keys : PubkeyApi K) (lz4 : Lz4) (u : AccountUpdate K) (ts : ℕ) (b : Bytes)
    → Account.encode keys lz4 u ts ≡ ok b
    → get_elem? b 1 ≡ some update_tag
unfolding Account.encode Account.encode_parts Account.encode_parts_at to_u32
account_tag keys lz4 u ts b h = ground arith

transaction_tag :
    (u : TransactionUpdate) (ts : ℕ) (b : Bytes)
    → Transaction.encode u ts ≡ ok b
    → get_elem? b 1 ≡ some transaction_update_tag
unfolding Transaction.encode Transaction.encode_parts Transaction.encode_parts_at to_u32
transaction_tag u ts b h = ground arith

slot_tag :
    (u : SlotUpdate) (ts : ℕ) (b : Bytes)
    → Slot.encode u ts ≡ ok b
    → get_elem? b 1 ≡ some slot_update_tag
unfolding Slot.encode Slot.encode_parts Slot.encode_parts_at
slot_tag u ts b h = ground arith

-- The second byte of a serialized wire struct is its tag.
wincode_tag :
    {A : Type 0} {Fits : A → Type 0} {version tag : A → ℕ} (w : Wincode A) (a : A)
    → IsWincode Fits version tag w
    → Fits a
    → get_elem? (w.serialize a) 1 ≡ some (tag a)
wincode_tag w a laws fits = let (rest, e) = laws.front a fits in rw e

ready_decodes :
    (codec : Wincode Ready.WireConnectionReady) (Fits : Ready.WireConnectionReady → Type 0)
    (r : ConnectionReady)
    → Fits (Ready.to_wire r)
    → IsWincode Fits (λ w. w.wire_version) (λ w. w.message_tag) codec
    → r.slot_token.slot_index ≢ unset_slot_index
    → Ready.decode codec (Ready.encode codec r) ≡ ok r
ready_decodes codec Fits r fits laws h =
    let set : (r.slot_token.slot_index == unset_slot_index) ≡ false = ground arith in
    Ready.ready_decode-encode codec Fits r fits laws ∙ rw set

ready_shm_decodes :
    (codec : Wincode ReadyShm.WireConnectionReadyShm)
    (Fits : ReadyShm.WireConnectionReadyShm → Type 0) (r : ConnectionReadyShm)
    → Fits (ReadyShm.to_wire r)
    → IsWincode Fits (λ w. w.wire_version) (λ w. w.message_tag) codec
    → r.slot_token.slot_index ≢ unset_slot_index
    → ReadyShm.is_empty r.ring_path ≡ false
    → r.ring_capacity ≢ 0
    → ReadyShm.decode codec (ReadyShm.encode codec r) ≡ ok r
ready_shm_decodes codec Fits r fits laws h path capacity =
    let set : (r.slot_token.slot_index == unset_slot_index) ≡ false = ground arith in
    let sized : (r.ring_capacity == 0) ≡ false = ground arith in
    ReadyShm.ready_shm_decode-encode codec Fits r fits laws ∙ rw (set, path, sized)

module _ {K : Type 0} (keys : PubkeyApi K) (lz4 : Lz4) (codecs : Codecs) where
  route_account :
      (m : Result Bytes) (u : AccountUpdate K) (meta : AccountUpdateWireMeta)
      → ((b : Bytes) → m ≡ ok b → get_elem? b 1 ≡ some update_tag)
      → (m >>= Account.decode_with_meta keys lz4) ≡ ok (u, meta)
      → (m >>= decode_server_frame_owned_with_meta keys lz4 codecs)
        ≡ ok (ServerFrameWithMeta.account_update u meta)
  unfolding decode_server_frame_owned_with_meta wire_tag Account.decode_owned_with_meta
      Account.decode_with_meta
  route_account (ok b) u meta t h = rw (t b refl, h)
  route_account (err e) u meta t h = cc
  route_account panicked u meta t h = cc

  route_transaction :
      (m : Result Bytes) (u : TransactionUpdate) (meta : AccountUpdateWireMeta)
      → ((b : Bytes) → m ≡ ok b → get_elem? b 1 ≡ some transaction_update_tag)
      → (m >>= Transaction.decode_with_meta) ≡ ok (u, meta)
      → (m >>= decode_server_frame_owned_with_meta keys lz4 codecs)
        ≡ ok (ServerFrameWithMeta.transaction_update u meta)
  unfolding decode_server_frame_owned_with_meta wire_tag Transaction.decode_owned_with_meta
      Transaction.decode_with_meta
  route_transaction (ok b) u meta t h = rw (t b refl, h)
  route_transaction (err e) u meta t h = cc
  route_transaction panicked u meta t h = cc

  route_slot :
      (m : Result Bytes) (u : SlotUpdate) (meta : AccountUpdateWireMeta)
      → ((b : Bytes) → m ≡ ok b → get_elem? b 1 ≡ some slot_update_tag)
      → (m >>= Slot.decode_with_meta) ≡ ok (u, meta)
      → (m >>= decode_server_frame_owned_with_meta keys lz4 codecs)
        ≡ ok (ServerFrameWithMeta.slot_update u meta)
  unfolding decode_server_frame_owned_with_meta wire_tag Slot.decode_owned_with_meta
  route_slot (ok b) u meta t h = rw (t b refl, h)
  route_slot (err e) u meta t h = cc
  route_slot panicked u meta t h = cc

  -- Whatever frame the sender encodes, the decoder of owned frames with metadata routes it by its
  -- tag and gives it back, where the fields fit their widths, a handshake frame has its token,
  -- path and capacity set and can be written by the serializer, and keys, compressor and
  -- serializers keep their laws.
  pub decode_server_frame-encode :
      (supported : Supported) (f : ServerFrameWithMeta K)
      → IsPubkeyApi keys
      → IsLz4 lz4
      → IsCodecs supported codecs
      → IsServerFrame supported f
      → (encode_server_frame keys lz4 codecs f
          >>= decode_server_frame_owned_with_meta keys lz4 codecs)
        ≡ ok f
  unfolding encode_server_frame
  decode_server_frame-encode supported (ServerFrameWithMeta.account_update u m) kl ll cl v =
      route_account _ u m (account_tag keys lz4 u _)
        (AccountRoundTrip.account_decode_with_meta-encode keys lz4 u _ kl ll v.0 v.1)
  decode_server_frame-encode supported (ServerFrameWithMeta.transaction_update u m) kl ll cl v =
      route_transaction _ u m (transaction_tag u _)
        (TransactionRoundTrip.transaction_decode_with_meta-encode u _ v.0 v.1)
  decode_server_frame-encode supported (ServerFrameWithMeta.slot_update u m) kl ll cl v =
      route_slot _ u m (slot_tag u _) (SlotRoundTrip.slot_decode_with_meta-encode u _ v.0 v.1)
  decode_server_frame-encode supported (ServerFrameWithMeta.connection_ready r) kl ll cl v =
      let tag : wire_tag (Ready.encode codecs.ready_codec r) ≡ ok ready_tag =
        unfold wire_tag Ready.encode in
        rw (wincode_tag codecs.ready_codec (Ready.to_wire r) cl.ready_laws v.1)
          (unfold Ready.to_wire in refl) in
      unfold decode_server_frame_owned_with_meta in
      rw (tag, ready_decodes codecs.ready_codec _ r v.1 cl.ready_laws v.0)
  decode_server_frame-encode supported (ServerFrameWithMeta.connection_ready_shm r) kl ll cl v =
      let tag : wire_tag (ReadyShm.encode codecs.ready_shm_codec r) ≡ ok ready_shm_tag =
        unfold wire_tag ReadyShm.encode in
        rw (wincode_tag codecs.ready_shm_codec (ReadyShm.to_wire r) cl.ready_shm_laws v.3)
          (unfold ReadyShm.to_wire in refl) in
      unfold decode_server_frame_owned_with_meta in
      rw (tag, ready_shm_decodes codecs.ready_shm_codec _ r v.3 cl.ready_shm_laws v.0 v.1 v.2)

-- A client's frame without its token where the token cannot be sent.
unfoldable pub as_sent : {K : Type 0} → ClientFrame K → ClientFrame K
as_sent (ClientFrame.subscription r) =
    ClientFrame.subscription (record r { slot_token = Subscription.sent_token r.slot_token })
as_sent (ClientFrame.ping p) = ClientFrame.ping p

module _ {K : Type 0} (keys : PubkeyApi K) (codecs : Codecs) where
  unfoldable pub encode_client_frame : ClientFrame K → Bytes
  encode_client_frame (ClientFrame.subscription r) =
      Subscription.encode keys codecs.subscription_codec r
  encode_client_frame (ClientFrame.ping p) = Ping.encode codecs.ping_codec p

  abbrev pub IsClientFrame : Supported → ClientFrame K → Type 0
  IsClientFrame supported (ClientFrame.subscription r) =
      supported.Subscription (Subscription.to_wire keys codecs.subscription_codec r)
  IsClientFrame supported (ClientFrame.ping p) =
      supported.Ping (Ping.to_wire p) × (p.slot_token.slot_index ≢ unset_slot_index)

  -- Whatever frame a client encodes, the sender routes it by its tag and gives it back, but for a
  -- subscription whose token has the index UNSET_SLOT_INDEX, which loses its token; a ping has
  -- another index, the serializers can write the frame, and keys and serializers keep their laws.
  pub decode_client_frame-encode :
      (supported : Supported) (f : ClientFrame K)
      → IsPubkeyApi keys
      → IsCodecs supported codecs
      → IsClientFrame supported f
      → decode_client_frame keys codecs (encode_client_frame f) ≡ ok (as_sent f)
  unfolding decode_client_frame encode_client_frame as_sent
  decode_client_frame-encode supported (ClientFrame.subscription r) kl cl v =
      let tag : wire_tag (Subscription.encode keys codecs.subscription_codec r)
          ≡ ok request_subscribe_tag =
        unfold wire_tag Subscription.encode in
        rw
          (wincode_tag codecs.subscription_codec
            (Subscription.to_wire keys codecs.subscription_codec r) cl.subscription_laws v)
          (unfold Subscription.to_wire in refl) in
      rw (
        tag,
        Subscription.subscription_decode-encode keys codecs.subscription_codec _ r kl v
            cl.subscription_laws,
      )
  decode_client_frame-encode supported (ClientFrame.ping p) kl cl v =
      let tag : wire_tag (Ping.encode codecs.ping_codec p) ≡ ok request_ping_tag =
        unfold wire_tag Ping.encode in
        rw (wincode_tag codecs.ping_codec (Ping.to_wire p) cl.ping_laws v.0)
          (unfold Ping.to_wire in refl) in
      let index = v.1 in
      let set : (p.slot_token.slot_index == unset_slot_index) ≡ false = ground arith in
      rw (tag, Ping.ping_decode-encode codecs.ping_codec _ p v.0 cl.ping_laws, set)
