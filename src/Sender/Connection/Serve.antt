-- ===== src/Sender/Connection/Serve.antt =====
-- What the control connection of src/sender/shm.rs promises: the frames of a client, without their
-- bytes, what serving them one by one leads to, and the replies that go back.
use qlaster_public.Sender.Connection.{BloomUpdates, RoundEnv, forward}
use qlaster_public.Sender.Upsert.{ShmSlotProvision, created, existing, upsert_shm}
use qlaster_public.Sender.Slots.{ConnectionManager, touch_ping}
use qlaster_public.Wire.Framing.{frame, frames}
use qlaster_public.Wire.{max_frame_size}
use qlaster_public.Types.Ready
use qlaster_public.Types.ReadyShm
use qlaster_public.Types.Frames.{ClientFrame, Codecs, decode_client_frame, ping, subscription}
use qlaster_public.Extern.{Bloom, PubkeyApi, Shaq}
use qlaster_public.Error.{Result, err, ok, panicked}
use qlaster_public.Base.{Bytes, List, String, [], length, suc, ℕ, ◌++◌, ◌∷◌, ◌≡◌, ◌≤◌}

-- What serving the frames of a client leads to; `replies` are the provisions that it is told.
pub record Outcome (K B Q : Type 0) : Type 0 where
  pub result : Result (Unit {0})
  pub manager : ConnectionManager K B Q
  pub bloom_updates : BloomUpdates K
  pub replies : List ShmSlotProvision

-- What the subscription of a client leads to: a reply and the rest of the frames, or the end with an
-- error.
abbrev pub served :
    {K B Q : Type 0}
    → Result ShmSlotProvision
    → ConnectionManager K B Q
    → BloomUpdates K
    → Outcome K B Q
    → Outcome K B Q
served (ok provision) m updates rest = record rest { replies = provision ∷ rest.replies }
served (err e) m updates rest = record {
  result = err e;
  manager = m;
  bloom_updates = updates;
  replies = [];
}
served panicked m updates rest = record {
  result = panicked;
  manager = m;
  bloom_updates = updates;
  replies = [];
}

-- The message that tells a client its provision, and the descriptor that goes with it.
abbrev pub reply_payload : Codecs → ShmSlotProvision → Bytes
reply_payload codecs (created token path capacity fd) =
    ReadyShm.encode codecs.ready_shm_codec (ReadyShm.new token path capacity)
reply_payload codecs (existing token) = Ready.encode codecs.ready_codec (Ready.new token)

abbrev pub reply_descriptor : Codecs → ShmSlotProvision → List (Bytes × ℕ)
reply_descriptor codecs (created token path capacity fd) =
    (frame (reply_payload codecs (created token path capacity fd)), fd) ∷ []
reply_descriptor codecs (existing token) = []

-- The bytes of all replies, and the messages among them that have a descriptor.
unfoldable pub reply_bytes : Codecs → List ShmSlotProvision → Bytes
reply_bytes codecs [] = []
reply_bytes codecs (p ∷ replies) = frame (reply_payload codecs p) ++ reply_bytes codecs replies

unfoldable pub reply_descriptors : Codecs → List ShmSlotProvision → List (Bytes × ℕ)
reply_descriptors codecs [] = []
reply_descriptors codecs (p ∷ replies) =
    reply_descriptor codecs p ++ reply_descriptors codecs replies

-- The payloads decode to these frames.
abbrev pub Decodes :
    {K : Type 0} → PubkeyApi K → Codecs → List Bytes → List (ClientFrame K) → Type 0
Decodes keys codecs [] [] = Unit {0}
Decodes keys codecs [] (f ∷ frames) = ⊥
Decodes keys codecs (payload ∷ payloads) [] = ⊥
Decodes keys codecs (payload ∷ payloads) (f ∷ frames) =
    (length payload ≤ max_frame_size)
    × (decode_client_frame keys codecs payload ≡ ok f)
    × Decodes keys codecs payloads frames

unfoldable pub wire_bytes : List Bytes → Bytes
wire_bytes [] = []
wire_bytes (payload ∷ payloads) = frame payload ++ wire_bytes payloads

module _ {K B Q : Type 0} (keys : PubkeyApi K) (bloom : Bloom B) (shaq : Shaq Q)
    (ring_path : ℕ → ℕ → String) (ring_capacity : ℕ) where
  -- The frames alone, without their bytes.
  unfoldable pub serve :
      (ℕ → RoundEnv Q)
      → ℕ
      → List (ClientFrame K)
      → ConnectionManager K B Q
      → BloomUpdates K
      → Outcome K B Q
  serve env i [] m updates = record {
    result = ok tt;
    manager = m;
    bloom_updates = updates;
    replies = [];
  }
  serve env i (ping f ∷ frames) m updates =
      serve env (suc i) frames (touch_ping shaq (env i).now_ms m f).1 updates
  serve env i (subscription request ∷ frames) m updates =
      let (provision, m') =
        upsert_shm keys bloom shaq ring_path ring_capacity (env i).now_ms request
          (env i).provisioning m in
      served provision m' updates
        (serve env (suc i) frames m' (forward updates request (env i).received_at))
