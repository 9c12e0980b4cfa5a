-- ===== src/Consumer/Control.antt =====
-- src/consumer/shm.rs: the control side of the consumer, on Linux: the handshake, subscriptions and
-- pings. A call holds the lock of the stream for all of its exchange. After an error the stream is
-- the one that the call began with: what the call did to it is not told.
pub mod Exchange
use qlaster_public.Types.Slot.{SlotUpdate, encode, new}
use qlaster_public.Types.Transaction.{TransactionUpdate}
use qlaster_public.Consumer.Reader.{ReaderState}
use qlaster_public.Extern.System.{MessageSocket}
use qlaster_public.Base.{Bytes, List, Option, String, [], if◌then◌else◌, none, some, ℕ, ◌==◌, ◌⊎◌}
use qlaster_public.Error.{
  IoError, Result, connect_failed, err, expected_ready_shm, malformed_payload, ok, ok_or, panicked,
  plain_text, uds_error, ◌>>=◌, ◌>>◌,
}
use qlaster_public.Extern.{ArrayQueue, Lz4, PubkeyApi, Stream}
use qlaster_public.Ring.{OpenOutcomes, ShmRingConsumer, open_consumer}
use qlaster_public.Types.{unset_slot_index}
use qlaster_public.Types.Account.{AccountUpdate}
use qlaster_public.Types.Token
use qlaster_public.Types.Token.{SlotToken}
use qlaster_public.Types.Subscription
use qlaster_public.Types.Subscription.{SubscriptionRequest, transactions, with_slot_token}
use qlaster_public.Types.Ping
use qlaster_public.Types.ReadyShm.{ConnectionReadyShm}
use qlaster_public.Types.Frames.{
  Codecs, ServerFrame, account_update, connection_ready, connection_ready_shm, decode_server_frame,
  decode_server_frame_owned, slot_update, transaction_update,
}
use qlaster_public.Uds.{recv_frame_with_fd, uds_result}
use qlaster_public.Wire.{read_framed, write_framed}

pub record ShmConsumer (S : Type 0) : Type 0 where
  pub stream : S
  pub slot_token_index : ℕ
  pub slot_token_generation : ℕ

-- What the handshake sets up: the consumer, the end of its ring with the path that it was opened
-- by, and the descriptor of the wake-ups. The reader's task starts with these.
pub record Connected (S : Type 0) : Type 0 where
  pub consumer : ShmConsumer S
  pub ring : ShmRingConsumer
  pub ring_path : String
  pub eventfd : ℕ

unfoldable pub slot_token : {S : Type 0} → ShmConsumer S → Option SlotToken
slot_token c =
    if c.slot_token_index == unset_slot_index
    then none
    else some (Token.new c.slot_token_index c.slot_token_generation)

-- The match on the reply to a subscription.
unfoldable pub on_reply :
    {S K : Type 0} → ShmConsumer S → Result (ServerFrame K) → Result (Unit {0}) × ShmConsumer S
on_reply c (ok (connection_ready ready)) = (
  ok tt,
  record c {
    slot_token_index = ready.slot_token.slot_index;
    slot_token_generation = ready.slot_token.generation;
  },
)
on_reply c (ok (connection_ready_shm ready)) =
    (err (uds_error (plain_text "unexpected ConnectionReadyShm on re-subscribe")), c)
on_reply c (ok (account_update update)) =
    (err (uds_error (plain_text "AccountUpdate on UDS control channel")), c)
on_reply c (ok (transaction_update update)) =
    (err (uds_error (plain_text "TransactionUpdate on UDS control channel")), c)
on_reply c (ok (slot_update update)) =
    (err (uds_error (plain_text "SlotUpdate on UDS control channel")), c)
on_reply c (err e) = (err e, c)
on_reply c panicked = (panicked, c)

-- The match of the handshake on the frame of the sender; another one is printed, here its kind.
unfoldable pub expect_ready_shm : {K : Type 0} → ServerFrame K → Result ConnectionReadyShm
expect_ready_shm (connection_ready_shm ready) = ok ready
expect_ready_shm (connection_ready ready) = err (uds_error (expected_ready_shm "ConnectionReady"))
expect_ready_shm (account_update update) = err (uds_error (expected_ready_shm "AccountUpdate"))
expect_ready_shm (transaction_update update) =
    err (uds_error (expected_ready_shm "TransactionUpdate"))
expect_ready_shm (slot_update update) = err (uds_error (expected_ready_shm "SlotUpdate"))

module _ {S K : Type 0} (keys : PubkeyApi K) (lz4 : Lz4) (codecs : Codecs) (stream : Stream S) where
  -- What follows the read of the reply.
  unfoldable pub decode_reply :
      ShmConsumer S → Result (Bytes × S) → Result (Unit {0}) × ShmConsumer S
  decode_reply c (ok (reply, s)) =
      on_reply (record c { stream = s }) (decode_server_frame_owned keys lz4 codecs reply)
  decode_reply c (err e) = (err e, c)
  decode_reply c panicked = (panicked, c)

  -- What follows the write of the request.
  unfoldable pub read_reply : ShmConsumer S → Result S → Result (Unit {0}) × ShmConsumer S
  read_reply c (ok s) = decode_reply c (read_framed stream s)
  read_reply c (err e) = (err e, c)
  read_reply c panicked = (panicked, c)

  unfoldable pub send_subscription :
      ShmConsumer S → SubscriptionRequest K → Result (Unit {0}) × ShmConsumer S
  send_subscription c request =
      read_reply c
        (write_framed stream c.stream (Subscription.encode keys codecs.subscription_codec request))

  unfoldable pub subscribe : ShmConsumer S → List K → List K → Result (Unit {0}) × ShmConsumer S
  subscribe c account_pubkeys account_owners = send_subscription c (
      Subscription.with_slot_token (Subscription.new account_pubkeys account_owners) (slot_token c))

  unfoldable pub subscribe_transactions : ShmConsumer S → Result (Unit {0}) × ShmConsumer S
  subscribe_transactions c =
      send_subscription c
        (Subscription.with_slot_token (Subscription.transactions K) (slot_token c))

  unfoldable pub pinged : ShmConsumer S → Result S → Result (Unit {0}) × ShmConsumer S
  pinged c (ok s) = (ok tt, record c { stream = s })
  pinged c (err e) = (err e, c)
  pinged c panicked = (panicked, c)

  unfoldable pub send_ping_token :
      ShmConsumer S → Option SlotToken → Result (Unit {0}) × ShmConsumer S
  send_ping_token c none =
      (err (malformed_payload "cannot send ping before slot token is assigned"), c)
  send_ping_token c (some token) =
      pinged c (write_framed stream c.stream (Ping.encode codecs.ping_codec (Ping.new token)))

  unfoldable pub send_ping : ShmConsumer S → Result (Unit {0}) × ShmConsumer S
  send_ping c = send_ping_token c (slot_token c)

  -- From the frame of the handshake on.
  unfoldable pub connected : OpenOutcomes → S → Bytes × Option ℕ → Result (Connected S)
  connected os s (ready_bytes, fd_opt) = do
    reply ← decode_server_frame keys lz4 codecs ready_bytes
    ready ← expect_ready_shm reply
    fd ← ok_or fd_opt (uds_error (plain_text "ConnectionReadyShm missing eventfd"))
    ring ← open_consumer ready.ring_path os
    ok (record {
      consumer = record {
        stream = s;
        slot_token_index = ready.slot_token.slot_index;
        slot_token_generation = ready.slot_token.generation;
      };
      ring = ring;
      ring_path = ready.ring_path;
      eventfd = fd;
    })

  -- From the written request on.
  unfoldable pub handshake : MessageSocket S → OpenOutcomes → S → Result (Connected S)
  handshake socket os s =
      let (received, s') = recv_frame_with_fd socket s in received >>= connected os s'

  -- `setup_shm_consumer_with_metrics` up to the start of the reader's task.
  unfoldable pub setup_shm_consumer :
      MessageSocket S → OpenOutcomes → IoError ⊎ S → Result (Connected S)
  setup_shm_consumer socket os connection = do
    s ← uds_result connect_failed connection
    s' ←
        write_framed stream s
          (Subscription.encode keys codecs.subscription_codec (Subscription.new [] []))
    handshake socket os s'

module _ {K Q : Type 0} {C : Type 0 → Type 0} (array_queue : ArrayQueue C) where
  unfoldable pub try_next_update : ReaderState K Q C → Option (AccountUpdate K) × ReaderState K Q C
  try_next_update s =
      let (update, rest) = array_queue.pop s.updates in (update, record s { updates = rest })

  unfoldable pub try_next_transaction :
      ReaderState K Q C → Option TransactionUpdate × ReaderState K Q C
  try_next_transaction s =
      let (update, rest) = array_queue.pop s.transactions in
      (update, record s { transactions = rest })

  unfoldable pub try_next_slot : ReaderState K Q C → Option SlotUpdate × ReaderState K Q C
  try_next_slot s =
      let (update, rest) = array_queue.pop s.slots in (update, record s { slots = rest })
