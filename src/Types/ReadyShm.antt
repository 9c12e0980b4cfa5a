-- ===== src/Types/ReadyShm.antt =====
-- src/types.rs: `ConnectionReadyShm` and its frame, over the serializer of its wire struct.
use Prim.Native.String.{String}
use qlaster_public.Base.{Bool, Bytes, String, arith, false, if◌then◌else◌, true, ℕ, ◌==◌, ◌≡◌}
use qlaster_public.Error.{Result, Returns, err, malformed_payload, ok, reject, ◌>>=◌, ◌>>◌}
use qlaster_public.Extern.{IsWincode, Wincode}
use qlaster_public.Types.{ensure_wire, ready_shm_tag, unset_slot_index, wire_version}
use qlaster_public.Types.Token
use qlaster_public.Types.Token.{SlotToken, deserialized}

pub record ConnectionReadyShm : Type 0 where
  pub slot_token : SlotToken
  pub ring_path : String
  pub ring_capacity : ℕ

pub record WireConnectionReadyShm : Type 0 where
  pub wire_version : ℕ
  pub message_tag : ℕ
  pub slot_index : ℕ
  pub slot_generation : ℕ
  pub ring_path : String
  pub ring_capacity : ℕ

abbrev pub new : SlotToken → String → ℕ → ConnectionReadyShm
new slot_token ring_path ring_capacity = record {
  slot_token = slot_token;
  ring_path = ring_path;
  ring_capacity = ring_capacity;
}

-- `String::is_empty`.
abbrev pub is_empty : String → Bool
is_empty String.[] = true
is_empty (String.◌∷◌ c s) = false

unfoldable pub to_wire : ConnectionReadyShm → WireConnectionReadyShm
to_wire r = record {
  wire_version = wire_version;
  message_tag = ready_shm_tag;
  slot_index = r.slot_token.slot_index;
  slot_generation = r.slot_token.generation;
  ring_path = r.ring_path;
  ring_capacity = r.ring_capacity;
}

module _ (codec : Wincode WireConnectionReadyShm) where
  unfoldable pub encode : ConnectionReadyShm → Bytes
  encode r = codec.serialize (to_wire r)

  unfoldable pub decode : Bytes → Result ConnectionReadyShm
  decode bytes = do
    wire ← deserialized (codec.deserialize bytes) "connection ready shm"
    ensure_wire wire.wire_version wire.message_tag ready_shm_tag
    reject (wire.slot_index == unset_slot_index)
        (malformed_payload "connection ready shm missing slot token")
    reject (is_empty wire.ring_path) (malformed_payload "connection ready shm missing ring path")
    reject (wire.ring_capacity == 0)
        (malformed_payload "connection ready shm has zero ring capacity")
    ok (new (Token.new wire.slot_index wire.slot_generation) wire.ring_path wire.ring_capacity)

  -- A ring handshake that the serializer can write is read back if its token, path and capacity
  -- are all set, and is otherwise refused with the error of the first that is not, where the
  -- serializer keeps its laws.
  pub ready_shm_decode-encode :
      (Fits : WireConnectionReadyShm → Type 0) (r : ConnectionReadyShm)
      → Fits (to_wire r)
      → IsWincode Fits (λ w. w.wire_version) (λ w. w.message_tag) codec
      → decode (encode r) ≡ (
          if r.slot_token.slot_index == unset_slot_index
          then err (malformed_payload "connection ready shm missing slot token")
          else if is_empty r.ring_path
          then err (malformed_payload "connection ready shm missing ring path")
          else if r.ring_capacity == 0
          then err (malformed_payload "connection ready shm has zero ring capacity")
          else ok r)
  unfolding decode encode to_wire ensure_wire
  ready_shm_decode-encode Fits r fits inverse =
      rw (inverse.deserialize_serialize (to_wire r) fits) (ground arith)

  pub decode-Returns : (bytes : Bytes) → Returns (decode bytes)
  unfolding decode ensure_wire
  decode-Returns bytes = ground arith
