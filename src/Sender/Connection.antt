-- ===== src/Sender/Connection.antt =====
-- src/sender/shm.rs: `bind_listener`, and the control connection of a consumer, on Linux. The calls
-- of one connection are taken without those of others between them. A warning that is logged
-- changes no state; the path of a ring is taken to be valid UTF-8.
pub mod Serve
pub mod Refine
use qlaster_public.Extern.System.{MessageSocket}
use qlaster_public.Base.{
  Bool, Bytes, List, Option, String, [], false, if◌then◌else◌, none, not, some, suc, true, zero, ℕ,
  ◌++◌, ◌==◌, ◌^◌, ◌∷◌,
}
use qlaster_public.Error.{
  IoError, QlasterError, Result, bind_failed, config_error, create_shm_dir, create_uds_parent, err,
  io, not_a_power_of_two, ok, panicked, reject, shm_error, uds_error, unexpected_eof, ◌>>=◌, ◌>>◌,
}
use qlaster_public.Extern.{Bloom, PubkeyApi, Shaq, Stream}
use qlaster_public.Types.Subscription.{SubscriptionRequest, encode, new}
use qlaster_public.Types.Ready
use qlaster_public.Types.ReadyShm
use qlaster_public.Types.Frames.{ClientFrame, Codecs, decode_client_frame, ping, subscription}
use qlaster_public.Uds.{send_frame_with_fd}
use qlaster_public.Wire.{read_framed, write_framed}
use qlaster_public.Sender.Slots.{ConnectionManager, slot_token, touch_ping}
use qlaster_public.Sender.Upsert.{Provisioning, ShmSlotProvision, created, existing, upsert_shm}

-- The receiver of `bloom_updates_tx`: none was given, it is gone, or it has received these.
pub data BloomUpdates (K : Type 0) : Type 0 where
  absent : BloomUpdates K
  dropped : BloomUpdates K
  receiving : List (SubscriptionRequest K × ℕ) → BloomUpdates K

abbrev pub forward : {K : Type 0} → BloomUpdates K → SubscriptionRequest K → ℕ → BloomUpdates K
forward absent request received_at = absent
forward dropped request received_at = dropped
forward (receiving got) request received_at = receiving (got ++ ((request, received_at) ∷ []))

-- What the task of a connection works on.
pub record Session (S K B Q : Type 0) : Type 0 where
  pub stream : S
  pub manager : ConnectionManager K B Q
  pub bloom_updates : BloomUpdates K

-- The clock and the system during a round of the loop.
pub record RoundEnv (Q : Type 0) : Type 0 where
  pub now_ms : ℕ
  pub received_at : ℕ
  pub provisioning : Provisioning Q

-- A round of the loop: the loop goes on, or the function returns.
pub data Turn (S K B Q : Type 0) : Type 0 where
  goes_on : Session S K B Q → Turn S K B Q
  returns : Result (Unit {0}) → Session S K B Q → Turn S K B Q

-- What the system calls of `bind_listener` answer.
pub record BindOutcomes : Type 0 where
  pub has_parent : Bool
  pub create_parent : Option IoError
  pub bind : Option IoError
  pub create_shm_dir_error : Option IoError

abbrev pub reports : Option IoError → (IoError → QlasterError) → Result (Unit {0})
reports none make = ok tt
reports (some e) make = err (make e)

-- `usize::is_power_of_two`, for a number of 64 bits: one of these powers.
unfoldable pub power_below : ℕ → ℕ → Bool
power_below zero n = false
power_below (suc k) n = if n == 2 ^ k then true else power_below k n

unfoldable pub is_power_of_two : ℕ → Bool
is_power_of_two n = power_below 64 n

unfoldable pub bind_listener : String → BindOutcomes → ℕ → Result (Unit {0})
bind_listener uds_path os ring_capacity_bytes = do
  reject (not (is_power_of_two ring_capacity_bytes))
      (config_error (not_a_power_of_two ring_capacity_bytes))
  if os.has_parent then reports os.create_parent (λ e. uds_error (create_uds_parent e)) else ok tt
  reports os.bind (λ e. uds_error (bind_failed uds_path e))
  reports os.create_shm_dir_error (λ e. shm_error (create_shm_dir e))

module _ {S K B Q : Type 0} (keys : PubkeyApi K) (codecs : Codecs) (bloom : Bloom B) (shaq : Shaq Q)
    (stream : Stream S) (socket : MessageSocket S) (ring_path : ℕ → ℕ → String)
    (ring_capacity : ℕ) where
  -- The end of a round, where the reply was sent.
  unfoldable pub forwarded :
      RoundEnv Q → SubscriptionRequest K → Session S K B Q → Result S → Turn S K B Q
  forwarded env request s (ok sent) =
      goes_on (record s {
        stream = sent;
        bloom_updates = forward s.bloom_updates request env.received_at;
      })
  forwarded env request s (err e) = returns (err e) s
  forwarded env request s panicked = returns panicked s

  -- The stream after a message with a descriptor.
  unfoldable pub stream_of : Result (Unit {0}) × S → Result S
  stream_of (ok done, s) = ok s
  stream_of (err e, s) = err e
  stream_of (panicked, s) = panicked

  -- The match on what `upsert_shm` gives.
  unfoldable pub reply :
      RoundEnv Q → SubscriptionRequest K → Session S K B Q → Result ShmSlotProvision → Turn S K B Q
  reply env request s (ok (created slot_token path capacity eventfd)) = forwarded env request s (
      stream_of (
        send_frame_with_fd socket s.stream
          (ReadyShm.encode codecs.ready_shm_codec (ReadyShm.new slot_token path capacity)) eventfd))
  reply env request s (ok (existing slot_token)) =
      forwarded env request s
        (write_framed stream s.stream (Ready.encode codecs.ready_codec (Ready.new slot_token)))
  reply env request s (err e) = returns (err e) s
  reply env request s panicked = returns panicked s

  -- The match on the decoder's result.
  unfoldable pub handle_frame : RoundEnv Q → Session S K B Q → Result (ClientFrame K) → Turn S K B Q
  handle_frame env s (ok (subscription request)) =
      let (provision, manager) =
        upsert_shm keys bloom shaq ring_path ring_capacity env.now_ms request env.provisioning
          s.manager in
      reply env request (record s { manager = manager }) provision
  handle_frame env s (ok (ping frame)) =
      goes_on (record s { manager = (touch_ping shaq env.now_ms s.manager frame).1 })
  handle_frame env s (err e) = returns (err e) s
  handle_frame env s panicked = returns panicked s

  -- The match on the frame that was read.
  unfoldable pub on_read : RoundEnv Q → Session S K B Q → Result (Bytes × S) → Turn S K B Q
  on_read env s (ok (payload, rest)) =
      handle_frame env (record s { stream = rest }) (decode_client_frame keys codecs payload)
  on_read env s (err (io unexpected_eof)) = returns (ok tt) s
  on_read env s (err e) = returns (err e) s
  on_read env s panicked = returns panicked s

  abbrev pub turned :
      Turn S K B Q
      → (Session S K B Q → Option (Result (Unit {0}) × Session S K B Q))
      → Option (Result (Unit {0}) × Session S K B Q)
  turned (goes_on s) rest = rest s
  turned (returns r s) rest = some (r, s)

  -- The loop from its round `i` on, none where the fuel is used up.
  unfoldable pub handle_uds_connection :
      (ℕ → RoundEnv Q) → ℕ → ℕ → Session S K B Q → Option (Result (Unit {0}) × Session S K B Q)
  handle_uds_connection env zero i s = none
  handle_uds_connection env (suc fuel) i s =
      turned (on_read (env i) s (read_framed stream s.stream))
        (handle_uds_connection env fuel (suc i))
