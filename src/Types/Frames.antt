-- ===== src/Types/Frames.antt =====
-- src/types.rs: the frames of each direction, and the decoders that route a frame by its tag.
pub mod Routing
pub mod RoundTrip
use qlaster_public.Base.{Bytes, get_elem?, if◌then◌else◌, ℕ, ◌==◌}
use qlaster_public.Error.{
  Result, err, invalid_message_tag, malformed_payload, map_ok, ok, ok_or, ◌>>=◌, ◌>>◌,
}
use qlaster_public.Extern.{IsWincode, Lz4, PubkeyApi, Wincode}
use qlaster_public.Types.{
  AccountUpdateWireMeta, ready_shm_tag, ready_tag, request_ping_tag, request_subscribe_tag,
  slot_update_tag, transaction_update_tag, update_tag,
}
use qlaster_public.Types.Account
use qlaster_public.Types.Account.{AccountUpdate, decode, decode_owned, decode_owned_with_meta}
use qlaster_public.Types.Transaction
use qlaster_public.Types.Transaction.{TransactionUpdate}
use qlaster_public.Types.Slot
use qlaster_public.Types.Slot.{SlotUpdate}
use qlaster_public.Types.Subscription
use qlaster_public.Types.Subscription.{SubscriptionRequest, WireSubscriptionRequest}
use qlaster_public.Types.Ping
use qlaster_public.Types.Ping.{PingRequest, WirePingRequest}
use qlaster_public.Types.Ready
use qlaster_public.Types.Ready.{ConnectionReady, WireConnectionReady}
use qlaster_public.Types.ReadyShm
use qlaster_public.Types.ReadyShm.{ConnectionReadyShm, WireConnectionReadyShm}

pub data ClientFrame (K : Type 0) : Type 0 where
  subscription : SubscriptionRequest K → ClientFrame K
  ping : PingRequest → ClientFrame K

pub data ServerFrame (K : Type 0) : Type 0 where
  account_update : AccountUpdate K → ServerFrame K
  transaction_update : TransactionUpdate → ServerFrame K
  slot_update : SlotUpdate → ServerFrame K
  connection_ready : ConnectionReady → ServerFrame K
  connection_ready_shm : ConnectionReadyShm → ServerFrame K

pub data ServerFrameWithMeta (K : Type 0) : Type 0 where
  account_update : AccountUpdate K → AccountUpdateWireMeta → ServerFrameWithMeta K
  transaction_update : TransactionUpdate → AccountUpdateWireMeta → ServerFrameWithMeta K
  slot_update : SlotUpdate → AccountUpdateWireMeta → ServerFrameWithMeta K
  connection_ready : ConnectionReady → ServerFrameWithMeta K
  connection_ready_shm : ConnectionReadyShm → ServerFrameWithMeta K

-- The serializers of the four wire structs.
pub record Codecs : Type 0 where
  pub subscription_codec : Wincode WireSubscriptionRequest
  pub ping_codec : Wincode WirePingRequest
  pub ready_codec : Wincode WireConnectionReady
  pub ready_shm_codec : Wincode WireConnectionReadyShm

-- The values that each of them can write.
pub record Supported : Type 1 where
  pub Subscription : WireSubscriptionRequest → Type 0
  pub Ping : WirePingRequest → Type 0
  pub Ready : WireConnectionReady → Type 0
  pub ReadyShm : WireConnectionReadyShm → Type 0

pub record IsCodecs (supported : Supported) (c : Codecs) : Type 0 where
  pub subscription_laws :
      IsWincode supported.Subscription
        (λ w. w.wire_version)
        (λ w. w.message_tag)
        c.subscription_codec
  pub ping_laws : IsWincode supported.Ping (λ w. w.wire_version) (λ w. w.message_tag) c.ping_codec
  pub ready_laws :
      IsWincode supported.Ready (λ w. w.wire_version) (λ w. w.message_tag) c.ready_codec
  pub ready_shm_laws :
      IsWincode supported.ReadyShm (λ w. w.wire_version) (λ w. w.message_tag) c.ready_shm_codec

unfoldable pub wire_tag : Bytes → Result ℕ
wire_tag bytes = ok_or (get_elem? bytes 1) (malformed_payload "frame too short for wire tag")

module _ {K : Type 0} (keys : PubkeyApi K) (codecs : Codecs) where
  unfoldable pub decode_client_frame : Bytes → Result (ClientFrame K)
  decode_client_frame bytes = do
    found ← wire_tag bytes
    if found == request_subscribe_tag
        then map_ok ClientFrame.subscription
            (Subscription.decode keys codecs.subscription_codec bytes)
        else if found == request_ping_tag
        then map_ok ClientFrame.ping (Ping.decode codecs.ping_codec bytes)
        else err (invalid_message_tag found request_subscribe_tag)

module _ {K : Type 0} (keys : PubkeyApi K) (lz4 : Lz4) (codecs : Codecs) where
  unfoldable pub decode_server_frame : Bytes → Result (ServerFrame K)
  decode_server_frame bytes = do
    found ← wire_tag bytes
    if found == update_tag
        then map_ok ServerFrame.account_update (Account.decode keys lz4 bytes)
        else if found == transaction_update_tag
        then map_ok ServerFrame.transaction_update (Transaction.decode bytes)
        else if found == slot_update_tag
        then map_ok ServerFrame.slot_update (Slot.decode bytes)
        else if found == ready_tag
        then map_ok ServerFrame.connection_ready (Ready.decode codecs.ready_codec bytes)
        else if found == ready_shm_tag
        then map_ok ServerFrame.connection_ready_shm (ReadyShm.decode codecs.ready_shm_codec bytes)
        else err (invalid_message_tag found update_tag)

  unfoldable pub decode_server_frame_owned : Bytes → Result (ServerFrame K)
  decode_server_frame_owned bytes = do
    found ← wire_tag bytes
    if found == update_tag
        then map_ok ServerFrame.account_update (Account.decode_owned keys lz4 bytes)
        else if found == transaction_update_tag
        then map_ok ServerFrame.transaction_update (Transaction.decode_owned bytes)
        else if found == slot_update_tag
        then map_ok ServerFrame.slot_update (Slot.decode_owned bytes)
        else if found == ready_tag
        then map_ok ServerFrame.connection_ready (Ready.decode codecs.ready_codec bytes)
        else if found == ready_shm_tag
        then map_ok ServerFrame.connection_ready_shm (ReadyShm.decode codecs.ready_shm_codec bytes)
        else err (invalid_message_tag found update_tag)

  unfoldable pub decode_server_frame_owned_with_meta : Bytes → Result (ServerFrameWithMeta K)
  decode_server_frame_owned_with_meta bytes = do
    found ← wire_tag bytes
    if found == update_tag
        then (do
          (update, meta) ← Account.decode_owned_with_meta keys lz4 bytes
          ok (ServerFrameWithMeta.account_update update meta))
        else if found == transaction_update_tag
        then (do
          (update, meta) ← Transaction.decode_owned_with_meta bytes
          ok (ServerFrameWithMeta.transaction_update update meta))
        else if found == slot_update_tag
        then (do
          (update, meta) ← Slot.decode_owned_with_meta bytes
          ok (ServerFrameWithMeta.slot_update update meta))
        else if found == ready_tag
        then map_ok ServerFrameWithMeta.connection_ready (Ready.decode codecs.ready_codec bytes)
        else if found == ready_shm_tag
        then map_ok ServerFrameWithMeta.connection_ready_shm
            (ReadyShm.decode codecs.ready_shm_codec bytes)
        else err (invalid_message_tag found update_tag)
