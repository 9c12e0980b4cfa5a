-- ===== src/Tests/Frames.antt =====
-- The frames of both directions, over the serializers of Tests/Models.
use qlaster_public.Base.{[], arith, none, refl, some, true, ◌∷◌, ◌≡◌}
use qlaster_public.Error.{Returns, err, malformed_payload, map_ok, ok, ◌>>=◌}
use qlaster_public.Types.Token.{SlotToken}
use qlaster_public.Types.Subscription
use qlaster_public.Types.Subscription.{
  SubscriptionRequest, decode, encode, sent_token, subscription_decode-encode, to_wire,
}
use qlaster_public.Types.ReadyShm
use qlaster_public.Types.ReadyShm.{ConnectionReadyShm, ready_shm_decode-encode}
use qlaster_public.Types.Frames.{
  ClientFrame, ServerFrameWithMeta, decode_client_frame, decode_server_frame,
  decode_server_frame_owned, decode_server_frame_owned_with_meta,
}
use qlaster_public.Types.Frames.RoundTrip.{
  as_sent, decode_client_frame-encode, decode_server_frame-encode, encode_client_frame,
  encode_server_frame,
}
use qlaster_public.Types.Frames.Routing.{
  decode_server_frame_owned-without_meta, decode_server_frame_owned_with_meta-Returns, without_meta,
}
use qlaster_public.Tests.Models.{
  Key, codecs, codecs-IsCodecs, keys, keys-IsPubkeyApi, ring_path, supported, zeros_lz4,
  zeros_lz4-IsLz4,
}
use qlaster_public.Tests.Updates.{account, account-IsAccountUpdate}

abbrev token : SlotToken
token = record { slot_index = 3; generation = 8 }

abbrev unsendable : SlotToken
unsendable = record { slot_index = 255; generation = 8 }

abbrev account_frame : ServerFrameWithMeta Key
account_frame =
    ServerFrameWithMeta.account_update account (record { sender_created_at_unix_nanos = 7 })

decode_server_frame-encode_example :
    (encode_server_frame keys zeros_lz4 codecs account_frame
      >>= decode_server_frame_owned_with_meta keys zeros_lz4 codecs)
    ≡ ok account_frame
decode_server_frame-encode_example =
    decode_server_frame-encode keys zeros_lz4 codecs supported account_frame keys-IsPubkeyApi
      zeros_lz4-IsLz4 codecs-IsCodecs (account-IsAccountUpdate, omega arith)

abbrev request : Subscription.SubscriptionRequest Key
request = record {
  slot_token = some unsendable;
  account_pubkeys = [];
  account_owners = [];
  include_transactions = true;
}

decode_client_frame-encode_example :
    decode_client_frame keys codecs
      (encode_client_frame keys codecs (ClientFrame.subscription request))
    ≡ ok (ClientFrame.subscription (record request { slot_token = none }))
unfolding as_sent Subscription.sent_token Subscription.to_wire
decode_client_frame-encode_example =
    decode_client_frame-encode keys codecs supported (ClientFrame.subscription request)
      keys-IsPubkeyApi codecs-IsCodecs (refl, refl)

subscription_decode-encode_example :
    Subscription.decode keys codecs.subscription_codec
      (Subscription.encode keys codecs.subscription_codec request)
    ≡ ok (record request { slot_token = Subscription.sent_token (some unsendable) })
unfolding Subscription.to_wire
subscription_decode-encode_example =
    subscription_decode-encode keys codecs.subscription_codec supported.Subscription request
      keys-IsPubkeyApi (refl, refl) codecs-IsCodecs.subscription_laws

abbrev ready_shm : ReadyShm.ConnectionReadyShm
ready_shm = record { slot_token = token; ring_path = ring_path; ring_capacity = 0 }

ready_shm_decode-encode_example :
    ReadyShm.decode codecs.ready_shm_codec (ReadyShm.encode codecs.ready_shm_codec ready_shm)
    ≡ err (malformed_payload "connection ready shm has zero ring capacity")
unfolding ReadyShm.to_wire
ready_shm_decode-encode_example =
    ready_shm_decode-encode codecs.ready_shm_codec supported.ReadyShm ready_shm refl
      codecs-IsCodecs.ready_shm_laws

-- A frame with an account update's tag that is too short.
decode_server_frame_owned_with_meta-Returns_example :
    Returns (decode_server_frame_owned_with_meta keys zeros_lz4 codecs (9 ∷ 2 ∷ 0 ∷ []))
decode_server_frame_owned_with_meta-Returns_example =
    decode_server_frame_owned_with_meta-Returns keys zeros_lz4 codecs (9 ∷ 2 ∷ 0 ∷ [])

decode_server_frame_owned-without_meta_example :
    (decode_server_frame_owned keys zeros_lz4 codecs (9 ∷ 3 ∷ 1 ∷ 4 ∷ [])
      ≡ map_ok without_meta
          (decode_server_frame_owned_with_meta keys zeros_lz4 codecs (9 ∷ 3 ∷ 1 ∷ 4 ∷ [])))
    × (decode_server_frame keys zeros_lz4 codecs (9 ∷ 3 ∷ 1 ∷ 4 ∷ [])
        ≡ decode_server_frame_owned keys zeros_lz4 codecs (9 ∷ 3 ∷ 1 ∷ 4 ∷ []))
decode_server_frame_owned-without_meta_example =
    decode_server_frame_owned-without_meta keys zeros_lz4 codecs (9 ∷ 3 ∷ 1 ∷ 4 ∷ [])
