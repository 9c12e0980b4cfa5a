-- ===== src/Types/Ping.antt =====
-- src/types.rs: `PingRequest` and its frame, over the serializer of its wire struct.
use qlaster_public.Base.{Bytes, arith, if◌then◌else◌, ℕ, ◌==◌, ◌≡◌}
use qlaster_public.Error.{Result, Returns, err, malformed_payload, ok, reject, ◌>>=◌, ◌>>◌}
use qlaster_public.Extern.{IsWincode, Wincode}
use qlaster_public.Types.{ensure_wire, request_ping_tag, unset_slot_index, wire_version}
use qlaster_public.Types.Token
use qlaster_public.Types.Token.{SlotToken, deserialized}

pub record PingRequest : Type 0 where
  pub slot_token : SlotToken

pub record WirePingRequest : Type 0 where
  pub wire_version : ℕ
  pub message_tag : ℕ
  pub slot_index : ℕ
  pub slot_generation : ℕ

abbrev pub new : SlotToken → PingRequest
new slot_token = record { slot_token = slot_token }

unfoldable pub to_wire : PingRequest → WirePingRequest
to_wire r = record {
  wire_version = wire_version;
  message_tag = request_ping_tag;
  slot_index = r.slot_token.slot_index;
  slot_generation = r.slot_token.generation;
}

module _ (codec : Wincode WirePingRequest) where
  unfoldable pub encode : PingRequest → Bytes
  encode r = codec.serialize (to_wire r)

  unfoldable pub decode : Bytes → Result PingRequest
  decode bytes = do
    wire ← deserialized (codec.deserialize bytes) "ping request"
    ensure_wire wire.wire_version wire.message_tag request_ping_tag
    reject (wire.slot_index == unset_slot_index)
        (malformed_payload "ping request missing slot token")
    ok (new (Token.new wire.slot_index wire.slot_generation))

  -- A frame is read back, unless its token has the index `UNSET_SLOT_INDEX`, which is refused.
  pub ping_decode-encode :
      (Fits : WirePingRequest → Type 0) (r : PingRequest)
      → Fits (to_wire r)
      → IsWincode Fits (λ w. w.wire_version) (λ w. w.message_tag) codec
      → decode (encode r) ≡ (
          if r.slot_token.slot_index == unset_slot_index
          then err (malformed_payload "ping request missing slot token")
          else ok r)
  unfolding decode encode to_wire ensure_wire
  ping_decode-encode Fits r fits inverse =
      rw (inverse.deserialize_serialize (to_wire r) fits) (ground arith)

  pub decode-Returns : (bytes : Bytes) → Returns (decode bytes)
  unfolding decode ensure_wire
  decode-Returns bytes = ground arith
