-- ===== src/Consumer/Control/Exchange.antt =====
-- src/consumer/shm.rs: what a subscription and the handshake lead to, by the bytes that come in.
use qlaster_public.Extern.System.{IsMessageSocket, MessageSocket}
use qlaster_public.Ring.{OpenOutcomes, open_consumer}
use qlaster_public.Uds.RoundTrip.{recv_whole}
use qlaster_public.Uds.{uds_result}
use qlaster_public.Consumer.Control.{
  Connected, ShmConsumer, connected, decode_reply, expect_ready_shm, handshake, on_reply,
  read_reply, send_subscription, setup_shm_consumer, slot_token,
}
use qlaster_public.Wire.Duplex.{read_framed-incoming, write_framed-outgoing}
use qlaster_public.Wire.Framing.{frame}
use qlaster_public.Wire.{max_frame_size, write_framed}
use qlaster_public.Types.Frames.RoundTrip.{
  IsServerFrame, decode_server_frame-encode, encode_server_frame,
}
use qlaster_public.Types.Frames.Routing.{
  decode_server_frame_owned-without_meta, decode_server_frame_owned_with_meta-Returns, without_meta,
}
use qlaster_public.Types.Subscription
use qlaster_public.Types.Ready
use qlaster_public.Types.ReadyShm
use qlaster_public.Types.Frames.{
  Codecs, IsCodecs, ServerFrame, ServerFrameWithMeta, Supported, decode_server_frame,
  decode_server_frame_owned, decode_server_frame_owned_with_meta,
}
use qlaster_public.Types.ReadyShm.{ConnectionReadyShm, encode, new}
use qlaster_public.Types.Ready.{ConnectionReady}
use qlaster_public.Types.Subscription.{SubscriptionRequest}
use qlaster_public.Types.{unset_slot_index}
use qlaster_public.Extern.{IsDuplex, IsLz4, IsPubkeyApi, Lz4, PubkeyApi, Stream}
use qlaster_public.Error.{QlasterError, Result, Returns, err, map_ok, map_ok-Returns, ok, panicked}
use qlaster_public.Base.{
  Bytes, List, [], ap, arith, false, inr, length, none, refl, set, some, subst, sym, u32_max, ℕ,
  ◌++◌, ◌==◌, ◌∙◌, ◌∷◌, ◌≡◌, ◌≢◌, ◌≤◌,
}

module _ {K : Type 0} (keys : PubkeyApi K) (lz4 : Lz4) (codecs : Codecs) (supported : Supported)
    (keys_laws : IsPubkeyApi keys) (lz4_laws : IsLz4 lz4)
    (codec_laws : IsCodecs supported codecs) where
  -- A frame of the handshake is decoded as itself, without and with its metadata.
  ready_owned :
      (ready : ConnectionReady)
      → IsServerFrame {K = K} supported (ServerFrameWithMeta.connection_ready ready)
      → decode_server_frame_owned keys lz4 codecs (Ready.encode codecs.ready_codec ready)
        ≡ ok (ServerFrame.connection_ready ready)
  unfolding without_meta encode_server_frame
  ready_owned ready set =
      (decode_server_frame_owned-without_meta keys lz4 codecs
        (Ready.encode codecs.ready_codec ready)).0
      ∙ ap (map_ok without_meta) (
          decode_server_frame-encode keys lz4 codecs supported
            (ServerFrameWithMeta.connection_ready ready) keys_laws lz4_laws codec_laws set)

  ready_shm_borrowed :
      (ready : ConnectionReadyShm)
      → IsServerFrame {K = K} supported (ServerFrameWithMeta.connection_ready_shm ready)
      → decode_server_frame keys lz4 codecs (ReadyShm.encode codecs.ready_shm_codec ready)
        ≡ ok (ServerFrame.connection_ready_shm ready)
  unfolding without_meta encode_server_frame
  ready_shm_borrowed ready set =
      let (owned, borrowed) =
        decode_server_frame_owned-without_meta keys lz4 codecs
          (ReadyShm.encode codecs.ready_shm_codec ready) in
      borrowed
      ∙ owned
      ∙ ap (map_ok without_meta) (
          decode_server_frame-encode keys lz4 codecs supported
            (ServerFrameWithMeta.connection_ready_shm ready) keys_laws lz4_laws codec_laws set)

module _ {S K : Type 0} (keys : PubkeyApi K) (lz4 : Lz4) (codecs : Codecs) (stream : Stream S)
    (incoming outgoing : S → Bytes) (laws : IsDuplex stream incoming outgoing) where
  -- A subscription whose reply stands in front of what comes in.
  exchanged :
      (c : ShmConsumer S) (request : SubscriptionRequest K) (reply rest : Bytes)
      → length (Subscription.encode keys codecs.subscription_codec request) ≤ u32_max
      → length reply ≤ max_frame_size
      → incoming c.stream ≡ frame reply ++ rest
      → (s' : S) × (send_subscription keys lz4 codecs stream c request
          ≡ on_reply (record c { stream = s' }) (decode_server_frame_owned keys lz4 codecs reply))
        × (incoming s' ≡ rest)
        × (outgoing s'
            ≡ outgoing c.stream
              ++ frame (Subscription.encode keys codecs.subscription_codec request))
  unfolding send_subscription read_reply decode_reply
  exchanged c request reply rest sized small held =
      let payload = Subscription.encode keys codecs.subscription_codec request in
      let (s1, written, same, out) =
        write_framed-outgoing stream incoming outgoing laws c.stream payload sized in
      let (s2, read, left, kept) =
        read_framed-incoming stream incoming outgoing laws s1 reply rest small (same ∙ held) in
      (s2, rw (written, read) refl, left, kept ∙ out)

  -- A reply that is not a `ConnectionReady` is an error, and the consumer stays as it is.
  on_reply_refused :
      (c : ShmConsumer S) (reply : Result (ServerFrame K))
      → Returns reply
      → ((ready : ConnectionReady) → reply ≢ ok (ServerFrame.connection_ready ready))
      → (e : QlasterError) × (on_reply c reply ≡ (err e, c))
  unfolding on_reply
  on_reply_refused c (ok (ServerFrame.connection_ready ready)) answers other =
      absurd (other ready refl)
  on_reply_refused c (ok (ServerFrame.connection_ready_shm ready)) answers other = (_, refl)
  on_reply_refused c (ok (ServerFrame.account_update update)) answers other = (_, refl)
  on_reply_refused c (ok (ServerFrame.transaction_update update)) answers other = (_, refl)
  on_reply_refused c (ok (ServerFrame.slot_update update)) answers other = (_, refl)
  on_reply_refused c (err e) answers other = (e, refl)
  on_reply_refused c panicked answers other = absurd answers

  owned-Returns : (bytes : Bytes) → Returns (decode_server_frame_owned keys lz4 codecs bytes)
  owned-Returns bytes =
      subst Returns (sym (decode_server_frame_owned-without_meta keys lz4 codecs bytes).0) (
        map_ok-Returns without_meta (decode_server_frame_owned_with_meta keys lz4 codecs bytes)
          (decode_server_frame_owned_with_meta-Returns keys lz4 codecs bytes))

  -- A subscription whose reply, the next frame that comes in, decodes to anything but a
  -- ConnectionReady, or does not decode, fails with an error, keeps the token of the consumer, and
  -- has sent the frame of the request and taken the reply off the stream, so that what follows it
  -- is left; the request fits 32 bits and the reply MAX_FRAME_SIZE, and the stream keeps its laws.
  pub send_subscription_refused :
      (c : ShmConsumer S) (request : SubscriptionRequest K) (reply rest : Bytes)
      → length (Subscription.encode keys codecs.subscription_codec request) ≤ u32_max
      → length reply ≤ max_frame_size
      → incoming c.stream ≡ frame reply ++ rest
      → ((ready : ConnectionReady)
          → decode_server_frame_owned keys lz4 codecs reply
            ≢ ok (ServerFrame.connection_ready ready))
      → (e : QlasterError) × (c' : ShmConsumer S) × (send_subscription keys lz4 codecs stream c
            request
          ≡ (err e, c'))
        × (slot_token c' ≡ slot_token c)
        × (incoming c'.stream ≡ rest)
        × (outgoing c'.stream
            ≡ outgoing c.stream
              ++ frame (Subscription.encode keys codecs.subscription_codec request))
  unfolding slot_token
  send_subscription_refused c request reply rest sized small held other =
      let (s', done, left, out) = exchanged c request reply rest sized small held in
      let c' : ShmConsumer S = record c { stream = s' } in
      let (e, refused) = on_reply_refused c' _ (owned-Returns reply) other in
      (e, c', done ∙ refused, refl, left, out)

  -- A subscription sends the frame of the request and, where the next frame that comes in is an
  -- encoded ConnectionReady, takes over its token and leaves what follows it; the token is set,
  -- the serializer can write the reply, the request fits 32 bits and the reply MAX_FRAME_SIZE, and
  -- keys, compressor, serializers and stream keep their laws.
  pub send_subscription-encode :
      (supported : Supported) (c : ShmConsumer S) (request : SubscriptionRequest K)
      (ready : ConnectionReady) (rest : Bytes)
      → IsPubkeyApi keys
      → IsLz4 lz4
      → IsCodecs supported codecs
      → IsServerFrame {K = K} supported (ServerFrameWithMeta.connection_ready ready)
      → length (Subscription.encode keys codecs.subscription_codec request) ≤ u32_max
      → length (Ready.encode codecs.ready_codec ready) ≤ max_frame_size
      → incoming c.stream ≡ frame (Ready.encode codecs.ready_codec ready) ++ rest
      → (c' : ShmConsumer S) × (send_subscription keys lz4 codecs stream c request ≡ (ok tt, c'))
        × (slot_token c' ≡ some ready.slot_token)
        × (incoming c'.stream ≡ rest)
        × (outgoing c'.stream
            ≡ outgoing c.stream
              ++ frame (Subscription.encode keys codecs.subscription_codec request))
  unfolding slot_token on_reply
  send_subscription-encode supported c request ready rest kl ll cl set sized small held =
      let (s', done, left, out) =
        exchanged c request (Ready.encode codecs.ready_codec ready) rest sized small held in
      let assigned : (ready.slot_token.slot_index == unset_slot_index) ≡ false =
        ground (arith, set.0) in
      let c' : ShmConsumer S = record {
        stream = s';
        slot_token_index = ready.slot_token.slot_index;
        slot_token_generation = ready.slot_token.generation;
      } in
      (
        c',
        done
            ∙ ap (on_reply (record c { stream = s' }))
                (ready_owned keys lz4 codecs supported kl ll cl ready set),
        rw assigned refl,
        left,
        out,
      )

module _ {S K : Type 0} (keys : PubkeyApi K) (lz4 : Lz4) (codecs : Codecs) (stream : Stream S)
    (socket : MessageSocket S) (incoming outgoing : S → Bytes) (messages : S → List (Bytes × ℕ))
    (laws : IsDuplex stream incoming outgoing) (socket_laws : IsMessageSocket socket messages) where
  -- The request that the handshake begins with.
  abbrev pub bootstrap : Bytes
  bootstrap = Subscription.encode keys codecs.subscription_codec (Subscription.new [] [])

  -- The handshake gives a consumer with the token, the ring and the descriptor of the sender,
  -- where the request is answered by one message with an encoded ConnectionReadyShm of at most
  -- 1020 bytes, its token, path and capacity set and the serializer able to write it, the ring
  -- opens, the request fits 32 bits, and keys, compressor, serializers, stream and socket keep
  -- their laws.
  pub setup_shm_consumer-encode :
      (supported : Supported) (s : S) (ready : ConnectionReadyShm) (fd : ℕ) (os : OpenOutcomes)
      → IsPubkeyApi keys
      → IsLz4 lz4
      → IsCodecs supported codecs
      → IsServerFrame {K = K} supported (ServerFrameWithMeta.connection_ready_shm ready)
      → length bootstrap ≤ u32_max
      → length (ReadyShm.encode codecs.ready_shm_codec ready) ≤ 1020
      → os.open_existing ≡ none
      → os.shaq_join_error ≡ none
      → ((s' : S)
          → write_framed stream s bootstrap ≡ ok s'
          → messages s' ≡ (frame (ReadyShm.encode codecs.ready_shm_codec ready), fd) ∷ [])
      → (done : Connected S) × (setup_shm_consumer keys lz4 codecs stream socket os (inr s)
          ≡ ok done)
        × (slot_token done.consumer ≡ some ready.slot_token)
        × (done.ring_path ≡ ready.ring_path)
        × (done.eventfd ≡ fd)
        × (done.ring.closed ≡ false)
  unfolding setup_shm_consumer handshake connected expect_ready_shm open_consumer slot_token
      uds_result frame
  setup_shm_consumer-encode supported s ready fd os kl ll cl set sized small opens joins answered =
      let (s1, written, same, out) =
        write_framed-outgoing stream incoming outgoing laws s bootstrap sized in
      let (s2, got, left) =
        recv_whole socket messages socket_laws s1 (ReadyShm.encode codecs.ready_shm_codec ready) fd
          (answered s1 written) small in
      let assigned : (ready.slot_token.slot_index == unset_slot_index) ≡ false =
        ground (arith, set.0) in
      let decoded = ready_shm_borrowed keys lz4 codecs supported kl ll cl ready set in
      let done : Connected S = record {
        consumer = record {
          stream = s2;
          slot_token_index = ready.slot_token.slot_index;
          slot_token_generation = ready.slot_token.generation;
        };
        ring = record { closed = false };
        ring_path = ready.ring_path;
        eventfd = fd;
      } in
      (done, rw (written, got, decoded, opens, joins) refl, rw assigned refl, refl, refl, refl)
