-- ===== src/Tests/Serving.antt =====
-- An update that is dispatched, and a control connection that is served, at concrete inputs.

use Prim.Native.Char.{code}
use Prim.Native.String.{String}
use qlaster_public.Sender.Connection.Serve.{
  Decodes, Outcome, reply_bytes, reply_descriptors, reply_payload, serve, wire_bytes,
}
use qlaster_public.Sender.Invariant.Run.{on_subscribe, perform_all, perform_all-IsValidAt}
use qlaster_public.Sender.Connection.Refine.{handle_uds_connection-serve}
use qlaster_public.Sender.Connection.{RoundEnv, Session, absent, handle_uds_connection, receiving}
use qlaster_public.Sender.Dispatch.Slotwise.{deliver, dispatch_account_update-deliver}
use qlaster_public.Sender.Dispatch.{dispatch_account_update, encode_account_frame}
use qlaster_public.Sender.Filter.{matches_account}
use qlaster_public.Sender.Slots.{find_free_slot, find_from, load, new, slot_token}
use qlaster_public.Sender.Upsert.{
  created, install, lookup_request, set_up, upsert_found, upsert_shm,
}
use qlaster_public.Ring
use qlaster_public.Ring.{create, double_until, next_power_of_two}
use qlaster_public.Tests.Updates.{account}
use qlaster_public.Tests.Manager.{Manager, at_once, fresh, no_metrics, path_of, working}
use qlaster_public.Tests.Sender.{by_owner, first_bytes}
use qlaster_public.Tests.Peers.{
  Peer, peer_socket, peer_socket-SendsWhole, peer_stream, peer_stream-IsDuplex,
  peer_stream-PassesNone,
}
use qlaster_public.Tests.Models.{Key, byte_queue, codecs, keys, ring_path, zeros_lz4}
use qlaster_public.Types.Ping.{decode, encode, to_wire}
use qlaster_public.Types.Frames.{ClientFrame, Codecs, decode_client_frame, wire_tag}
use qlaster_public.Types.Compression.{choose_payload, should_attempt_lz4}
use qlaster_public.Types.{
  ensure_wire, request_ping_tag, request_subscribe_tag, to_u32, wire_version,
}
use qlaster_public.Transport.{OutboundFrame}
use qlaster_public.Error.{ok}
use qlaster_public.Types.Account
use qlaster_public.Types.Subscription
use qlaster_public.Types.Ping
use qlaster_public.Types.ReadyShm
use qlaster_public.Sender.Slots
use qlaster_public.Base.{
  All, Bytes, List, String, [], arith, inl, length, map, refl, some, u32_max, ℕ, ◌∷◌, ◌≡◌, ◌≤◌,
}

-- One connection that asked for the account by its owner.
abbrev with_one : Manager
with_one =
    (perform_all keys zeros_lz4 first_bytes (byte_queue 4096) path_of 4096
      (on_subscribe 1000 by_owner working ∷ []) fresh).manager

abbrev account_frame : OutboundFrame
account_frame = record {
  header = Account.header_bytes keys account 7 0 3 3;
  payload = 0 ∷ 0 ∷ 0 ∷ [];
  frame_start = 0;
}

account_encoded : encode_account_frame keys zeros_lz4 0 7 account ≡ ok account_frame
unfolding encode_account_frame Account.encode_parts_at choose_payload to_u32 should_attempt_lz4
account_encoded = refl

dispatch_account_update-deliver_example :
    (dispatch_account_update keys zeros_lz4 first_bytes
      (byte_queue 4096)
      at_once
      account
      with_one
      no_metrics).0.connections
    ≡ map
        (deliver
          (byte_queue 4096)
          3000
          (λ filter. matches_account keys first_bytes filter account)
          account_frame)
        with_one.connections
dispatch_account_update-deliver_example =
    let (bound, low, v) =
      perform_all-IsValidAt keys zeros_lz4 first_bytes (byte_queue 4096) path_of 4096
        (on_subscribe 1000 by_owner working ∷ []) absent no_metrics (omega arith) in
    dispatch_account_update-deliver (byte_queue 4096) account_frame keys zeros_lz4 first_bytes
      at_once account with_one no_metrics v.placed v.size account_encoded

-- A client that subscribes, pings and closes the connection.
abbrev two_payloads : List Bytes
two_payloads =
    (wire_version ∷ request_subscribe_tag ∷ 255 ∷ 0 ∷ 1 ∷ [])
    ∷ (wire_version ∷ request_ping_tag ∷ 0 ∷ 1 ∷ [])
    ∷ []

abbrev two_frames : List (ClientFrame Key)
two_frames =
    ClientFrame.subscription (Subscription.transactions Key)
    ∷ ClientFrame.ping (record { slot_token = record { slot_index = 0; generation = 1 } })
    ∷ []

-- The code points of a text.
abbrev text_bytes : String → Bytes
text_bytes String.[] = []
text_bytes (String.◌∷◌ c s) = code c ∷ text_bytes s

-- The serializers, where the path of a ring is written out.
abbrev with_path : Codecs
with_path = record codecs {
  ready_shm_codec = record {
    serialize = λ w.
        w.wire_version
        ∷ w.message_tag
        ∷ w.slot_index
        ∷ w.slot_generation
        ∷ w.ring_capacity
        ∷ text_bytes w.ring_path;
    deserialize = λ b. inl "not read";
  };
}

two_payloads-Decodes : Decodes keys with_path two_payloads two_frames
unfolding decode_client_frame wire_tag Subscription.decode Ping.decode ensure_wire
    Subscription.transactions Subscription.token_of_fields
two_payloads-Decodes = (omega arith, refl, (omega arith, refl, tt))

abbrev begun : Session Peer Key (List ℕ) Bytes
begun = record {
  stream = record { incoming = wire_bytes two_payloads; outgoing = []; messages = [] };
  manager = Slots.new;
  bloom_updates = receiving [];
}

abbrev round_env : ℕ → RoundEnv Bytes
round_env i = record { now_ms = 1000; received_at = 4; provisioning = working }

abbrev outcome : Outcome Key (List ℕ) Bytes
outcome =
    serve keys first_bytes (byte_queue 4096) path_of 4096 round_env 0 two_frames Slots.new
      (receiving [])

one_reply :
    outcome.replies ≡ created (record { slot_index = 0; generation = 1 }) ring_path 4096 5 ∷ []
unfolding serve upsert_shm upsert_found lookup_request set_up install find_free_slot find_from load
    Slots.new Ring.create next_power_of_two double_until Subscription.transactions
one_reply = refl

replies_fit : All (λ p. length (reply_payload with_path p) ≤ u32_max) outcome.replies
unfolding ReadyShm.encode ReadyShm.to_wire
replies_fit = rw one_reply (omega arith, tt)

handle_uds_connection-serve_example :
    (s' : Session Peer Key (List ℕ) Bytes) × (handle_uds_connection keys with_path first_bytes
        (byte_queue 4096)
        peer_stream
        peer_socket
        path_of
        4096
        round_env
        3
        0
        begun
      ≡ some (outcome.result, s'))
    × ((s'.manager ≡ outcome.manager)
        × (s'.bloom_updates ≡ outcome.bloom_updates)
        × (s'.stream.outgoing ≡ reply_bytes with_path outcome.replies)
        × (s'.stream.messages ≡ reply_descriptors with_path outcome.replies))
handle_uds_connection-serve_example =
    handle_uds_connection-serve keys with_path first_bytes (byte_queue 4096) peer_stream peer_socket
      path_of 4096 (λ s. s.incoming) (λ s. s.outgoing) (λ s. s.messages) peer_stream-IsDuplex
      peer_socket-SendsWhole peer_stream-PassesNone round_env 3 0 two_payloads two_frames begun
      (omega arith) two_payloads-Decodes refl replies_fit
