-- ===== src/Tests/Control.antt =====
-- The control connection from both ends, at concrete inputs.

use qlaster_public.Consumer.Control.Exchange.{
  send_subscription-encode, send_subscription_refused, setup_shm_consumer-encode,
}
use qlaster_public.Consumer.Control.{
  Connected, ShmConsumer, send_subscription, setup_shm_consumer, slot_token,
}
use qlaster_public.Ring.{OpenOutcomes}
use qlaster_public.Wire.Framing.{frame}
use qlaster_public.Wire.{write_framed}
use qlaster_public.Types.Ready.{ConnectionReady, decode, encode, new, to_wire}
use qlaster_public.Types.Subscription.{SubscriptionRequest, token_fields, transactions}
use qlaster_public.Types.ReadyShm.{ConnectionReadyShm}
use qlaster_public.Types.Token.{SlotToken}
use qlaster_public.Tests.Peers.{
  Peer, peer_socket, peer_socket-IsMessageSocket, peer_stream, peer_stream-IsDuplex,
}
use qlaster_public.Tests.Models.{
  Key, codecs, codecs-IsCodecs, keys, keys-IsPubkeyApi, ring_path, supported, zeros_lz4,
  zeros_lz4-IsLz4,
}
use qlaster_public.Error.{QlasterError, err, ok}
use qlaster_public.Types.{ensure_wire}
use qlaster_public.Types.Frames.{ServerFrame, decode_server_frame_owned, wire_tag}
use qlaster_public.Types.Subscription
use qlaster_public.Types.Ready
use qlaster_public.Types.ReadyShm
use qlaster_public.Base.{
  Bool-cases, Bytes, [], ap, arith, false, inl, inr, leb, length, none, refl, some, sym,
  to_le_bytes, u32_max, ◌++◌, ◌∷◌, ◌≡◌, ◌≢◌,
}

abbrev given : SlotToken
given = record { slot_index = 3; generation = 8 }

abbrev its_consumer : ShmConsumer Peer
its_consumer = record {
  stream = record {
    incoming = frame (Ready.encode codecs.ready_codec (Ready.new given));
    outgoing = [];
    messages = [];
  };
  slot_token_index = 2;
  slot_token_generation = 7;
}

abbrev all_transactions : SubscriptionRequest Key
all_transactions = Subscription.transactions Key

send_subscription-encode_example :
    (c' : ShmConsumer Peer) × (send_subscription keys zeros_lz4 codecs peer_stream its_consumer
        all_transactions
      ≡ (ok tt, c'))
    × (slot_token c' ≡ some given)
    × (c'.stream.incoming ≡ [])
    × (c'.stream.outgoing
        ≡ [] ++ frame (Subscription.encode keys codecs.subscription_codec all_transactions))
unfolding Subscription.encode Subscription.to_wire Subscription.transactions Ready.encode
    Ready.to_wire Subscription.token_fields frame to_le_bytes
send_subscription-encode_example =
    send_subscription-encode keys zeros_lz4 codecs peer_stream (λ s. s.incoming) (λ s. s.outgoing)
      peer_stream-IsDuplex supported its_consumer all_transactions (Ready.new given) []
      keys-IsPubkeyApi zeros_lz4-IsLz4 codecs-IsCodecs
      ((λ e. omega (arith, e)), (omega arith, omega arith)) (omega arith) (omega arith) refl

-- A reply of another kind: a handshake for a ring, and a frame behind it.
abbrev misled : ShmConsumer Peer
misled = record its_consumer {
  stream = record { incoming = frame (9 ∷ 3 ∷ []) ++ (5 ∷ []); outgoing = []; messages = [] };
}

not_ready :
    (ready : Ready.ConnectionReady)
    → decode_server_frame_owned keys zeros_lz4 codecs (9 ∷ 3 ∷ [])
      ≢ ok (ServerFrame.connection_ready ready)
unfolding decode_server_frame_owned wire_tag Ready.decode ensure_wire
not_ready ready e = cc

send_subscription_refused_example :
    (e : QlasterError) × (c' : ShmConsumer Peer) × (send_subscription keys zeros_lz4 codecs
        peer_stream misled all_transactions
      ≡ (err e, c'))
    × (slot_token c' ≡ slot_token misled)
    × (c'.stream.incoming ≡ 5 ∷ [])
    × (c'.stream.outgoing
        ≡ [] ++ frame (Subscription.encode keys codecs.subscription_codec all_transactions))
unfolding Subscription.encode Subscription.to_wire Subscription.transactions
    Subscription.token_fields
send_subscription_refused_example =
    send_subscription_refused keys zeros_lz4 codecs peer_stream (λ s. s.incoming) (λ s. s.outgoing)
      peer_stream-IsDuplex misled all_transactions (9 ∷ 3 ∷ []) (5 ∷ []) (omega arith) (omega arith)
      refl not_ready

abbrev ring_ready : ConnectionReadyShm
ring_ready = ReadyShm.new given ring_path 4096

abbrev answering : Peer
answering = record {
  incoming = [];
  outgoing = [];
  messages = (frame (ReadyShm.encode codecs.ready_shm_codec ring_ready), 6) ∷ [];
}

abbrev opened : OpenOutcomes
opened = record { open_existing = none; shaq_join_error = none }

-- A write changes no message.
messages_kept :
    (s s' : Peer) (payload : Bytes)
    → write_framed peer_stream s payload ≡ ok s'
    → s'.messages ≡ s.messages
unfolding write_framed
messages_kept s s' payload h = elim (Bool-cases (leb (length payload) u32_max)) [
  | inl fits ↦
      let h' = rw fits at h in
      let same : record s { outgoing = (s.outgoing ++ to_le_bytes 4 (length payload)) ++ payload }
          ≡ s' =
        cc in
      sym (ap (λ (p : Peer). p.messages) same)
  | inr long ↦ let h' = rw long at h in cc
]

setup_shm_consumer-encode_example :
    (done : Connected Peer) × (setup_shm_consumer keys zeros_lz4 codecs peer_stream peer_socket
        opened
        (inr answering)
      ≡ ok done)
    × (slot_token done.consumer ≡ some given)
    × (done.ring_path ≡ ring_path)
    × (done.eventfd ≡ 6)
    × (done.ring.closed ≡ false)
unfolding Subscription.encode Subscription.to_wire Subscription.new ReadyShm.encode ReadyShm.to_wire
    Subscription.token_fields
setup_shm_consumer-encode_example =
    setup_shm_consumer-encode keys zeros_lz4 codecs peer_stream peer_socket (λ s. s.incoming)
      (λ s. s.outgoing) (λ s. s.messages) peer_stream-IsDuplex peer_socket-IsMessageSocket supported
      answering ring_ready 6 opened keys-IsPubkeyApi zeros_lz4-IsLz4 codecs-IsCodecs
      ((λ e. omega (arith, e)), refl, (λ e. omega (arith, e)), refl) (omega arith) (omega arith)
      refl refl (λ s' written. messages_kept answering s' _ written)
