-- ===== src/Types/Transaction.antt =====
-- src/types.rs: `TransactionUpdate` and its frame. Children prove what decoding and encoding do.
pub mod RoundTrip
pub mod Canonical
use qlaster_public.Base.{
  Bool, Bytes, add_usize, length, ltb, not, to_le_bytes, ℕ, ◌++◌, ◌<◌, ◌==◌, ◌^◌, ◌∷◌, ◌≡◌, ◌≤◌,
}
use qlaster_public.Error.{
  Result, malformed_payload, map_ok, ok, or_panic, payload_too_large, reject, ◌>>=◌, ◌>>◌,
}
use qlaster_public.Types.{
  AccountUpdateWireMeta, check_frame, decode_flag, max_transaction_payload_bytes, sent_at, to_u32,
  transaction_update_fixed_bytes, transaction_update_tag, u8_from_bool, wire_version,
}
use qlaster_public.Types.Cursor.{get_range, take_array_64, take_u32_le, take_u64_le, take_u8}
use qlaster_public.Types.TransactionPayload
use qlaster_public.Types.TransactionPayload.{TransactionPayload, clone_bytes, from_bytes, len}

pub record TransactionUpdate : Type 0 where
  pub slot : ℕ
  pub index : ℕ
  pub signature : Bytes
  pub is_vote : Bool
  pub payload : TransactionPayload

unfoldable pub new : ℕ → ℕ → Bytes → Bool → Bytes → Result TransactionUpdate
new slot index signature is_vote payload = do
  payload' ← TransactionPayload.new payload
  ok (record {
    slot = slot;
    index = index;
    signature = signature;
    is_vote = is_vote;
    payload = payload';
  })

-- The bytes of the header, in the order of the pushes.
abbrev pub header_bytes : TransactionUpdate → ℕ → ℕ → Bytes
header_bytes u sender_created_at_unix_nanos payload_len =
    wire_version
    ∷ transaction_update_tag
    ∷ (to_le_bytes 8 sender_created_at_unix_nanos
        ++ (to_le_bytes 8 u.slot
            ++ (to_le_bytes 4 u.index
                ++ (u8_from_bool u.is_vote ∷ (u.signature ++ to_le_bytes 4 payload_len)))))

unfoldable pub encode_parts_at : TransactionUpdate → ℕ → Result (Bytes × Bytes)
encode_parts_at u sender_created_at_unix_nanos = do
  reject (ltb max_transaction_payload_bytes (TransactionPayload.len u.payload))
      (payload_too_large (TransactionPayload.len u.payload) max_transaction_payload_bytes)
  let payload = TransactionPayload.clone_bytes u.payload
  payload_len_u32 ←
      to_u32 (length payload) (payload_too_large (length payload) max_transaction_payload_bytes)
  ok (header_bytes u sender_created_at_unix_nanos payload_len_u32, payload)

-- `now` is what `unix_time_nanos` returns.
unfoldable pub encode_parts : TransactionUpdate → ℕ → Result (Bytes × Bytes)
encode_parts u now = encode_parts_at u now

unfoldable pub encode : TransactionUpdate → ℕ → Result Bytes
encode u now = do (header, payload) ← encode_parts u now; ok (header ++ payload)

pub record DecodedTransactionUpdate : Type 0 where
  pub sender_created_at_unix_nanos : ℕ
  pub slot : ℕ
  pub index : ℕ
  pub is_vote : Bool
  pub signature : Bytes
  pub payload_offset : ℕ
  pub payload_len : ℕ

unfoldable pub parse : Bytes → Result DecodedTransactionUpdate
parse bytes = do
  check_frame bytes transaction_update_fixed_bytes
      "transaction update frame shorter than fixed header" transaction_update_tag
  (sender_created_at_unix_nanos, c1) ← take_u64_le bytes 2
  (slot, c2) ← take_u64_le bytes c1
  (index, c3) ← take_u32_le bytes c2
  (vote, c4) ← take_u8 bytes c3
  is_vote ← decode_flag vote "transaction update vote flag must be 0 or 1"
  (signature, c5) ← take_array_64 bytes c4
  (payload_len, c6) ← take_u32_le bytes c5
  reject (ltb max_transaction_payload_bytes payload_len)
      (payload_too_large payload_len max_transaction_payload_bytes)
  reject (not (length bytes == add_usize c6 payload_len))
      (malformed_payload "transaction update payload size mismatch")
  ok (record {
    sender_created_at_unix_nanos = sender_created_at_unix_nanos;
    slot = slot;
    index = index;
    is_vote = is_vote;
    signature = signature;
    payload_offset = c6;
    payload_len = payload_len;
  })

unfoldable pub from_decoded :
    DecodedTransactionUpdate → Bytes → Result (TransactionUpdate × AccountUpdateWireMeta)
from_decoded d payload = do
  payload' ← TransactionPayload.from_bytes payload
  ok (
    record {
      slot = d.slot;
      index = d.index;
      signature = d.signature;
      is_vote = d.is_vote;
      payload = payload';
    },
    sent_at d.sender_created_at_unix_nanos,
  )

unfoldable pub decode_with_meta : Bytes → Result (TransactionUpdate × AccountUpdateWireMeta)
decode_with_meta bytes = do
  d ← parse bytes
  payload ← or_panic (get_range bytes d.payload_offset (add_usize d.payload_offset d.payload_len))
  from_decoded d payload

unfoldable pub decode : Bytes → Result TransactionUpdate
decode bytes = map_ok (λ p. p.0) (decode_with_meta bytes)

-- `Bytes::slice` panics out of range, as indexing by a range does.
unfoldable pub decode_owned_with_meta : Bytes → Result (TransactionUpdate × AccountUpdateWireMeta)
decode_owned_with_meta bytes = do
  d ← parse bytes
  payload ← or_panic (get_range bytes d.payload_offset (add_usize d.payload_offset d.payload_len))
  from_decoded d payload

unfoldable pub decode_owned : Bytes → Result TransactionUpdate
decode_owned bytes = map_ok (λ p. p.0) (decode_owned_with_meta bytes)

-- The widths of the fields.
pub record IsTransactionUpdate (u : TransactionUpdate) : Type 0 where
  pub slot_fits : u.slot < 2 ^ 64
  pub index_fits : u.index < 2 ^ 32
  pub signature_size : length u.signature ≡ 64
  pub payload_size : length u.payload.bytes ≤ max_transaction_payload_bytes
