-- ===== src/Types/Slot.antt =====
-- src/types.rs: `SlotUpdate` and its frame. Children prove what decoding and encoding do.
pub mod RoundTrip
use qlaster_public.Base.{Bytes, [], length, not, to_le_bytes, ℕ, ◌++◌, ◌==◌, ◌∷◌}
use qlaster_public.Error.{Result, malformed_payload, map_ok, ok, reject, ◌>>=◌, ◌>>◌}
use qlaster_public.Types.{
  AccountUpdateWireMeta, check_frame, sent_at, slot_update_fixed_bytes, slot_update_tag,
  wire_version,
}
use qlaster_public.Types.Cursor.{take_u64_le}

pub record SlotUpdate : Type 0 where
  pub slot : ℕ

abbrev pub new : ℕ → SlotUpdate
new slot = record { slot = slot }

-- The header, and an empty payload.
unfoldable pub encode_parts_at : SlotUpdate → ℕ → Result (Bytes × Bytes)
encode_parts_at u sender_created_at_unix_nanos = ok (
  wire_version
      ∷ slot_update_tag
      ∷ (to_le_bytes 8 sender_created_at_unix_nanos ++ to_le_bytes 8 u.slot),
  [],
)

-- `now` is what `unix_time_nanos` returns.
unfoldable pub encode_parts : SlotUpdate → ℕ → Result (Bytes × Bytes)
encode_parts u now = encode_parts_at u now

unfoldable pub encode : SlotUpdate → ℕ → Result Bytes
encode u now = do (header, payload) ← encode_parts u now; ok (header ++ payload)

pub record DecodedSlotUpdate : Type 0 where
  pub sender_created_at_unix_nanos : ℕ
  pub slot : ℕ

unfoldable pub parse : Bytes → Result DecodedSlotUpdate
parse bytes = do
  check_frame bytes slot_update_fixed_bytes "slot update frame shorter than fixed header"
      slot_update_tag
  (sender_created_at_unix_nanos, c1) ← take_u64_le bytes 2
  (slot, c2) ← take_u64_le bytes c1
  reject (not (length bytes == c2)) (malformed_payload "slot update payload size mismatch")
  ok (record { sender_created_at_unix_nanos = sender_created_at_unix_nanos; slot = slot })

unfoldable pub decode_with_meta : Bytes → Result (SlotUpdate × AccountUpdateWireMeta)
decode_with_meta bytes = do
  decoded ← parse bytes
  ok (record { slot = decoded.slot }, sent_at decoded.sender_created_at_unix_nanos)

unfoldable pub decode : Bytes → Result SlotUpdate
decode bytes = map_ok (λ p. p.0) (decode_with_meta bytes)

unfoldable pub decode_owned_with_meta : Bytes → Result (SlotUpdate × AccountUpdateWireMeta)
decode_owned_with_meta bytes = decode_with_meta bytes

unfoldable pub decode_owned : Bytes → Result SlotUpdate
decode_owned bytes = map_ok (λ p. p.0) (decode_owned_with_meta bytes)
