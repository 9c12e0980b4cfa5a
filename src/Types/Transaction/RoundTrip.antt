-- ===== src/Types/Transaction/RoundTrip.antt =====
-- `TransactionUpdate` frames: decoding what was encoded gives it back.

use qlaster_public.Base.{
  ==_iff, Bytes, [], add_usize, ap, append_assoc, arith, false, length, length-append,
  length-to_le_bytes, le→ltb, ltb, refl, to_le_bytes, true, ℕ, ◌++◌, ◌+◌, ◌<◌, ◌==◌, ◌^◌, ◌∷◌, ◌≡◌,
  ◌≤◌,
}
use qlaster_public.Error.{ok, ◌>>=◌}
use qlaster_public.Types.{
  check_frame, max_transaction_payload_bytes, sent_at, transaction_update_tag, u8_from_bool,
  wire_version,
}
use qlaster_public.Types.Header.{check_frame-eq-ok, decode_flag-u8_from_bool, to_u32_of_lt}
use qlaster_public.Types.Cursor.Reads.{
  At, At-body, At-next, get_range-At, take_array_64-At, take_u32_le-At, take_u64_le-At, take_u8-At,
}
use qlaster_public.Types.TransactionPayload
use qlaster_public.Types.Transaction.{
  IsTransactionUpdate, TransactionUpdate, decode_with_meta, encode, encode_parts, encode_parts_at,
  from_decoded, parse,
}

module _ (u : TransactionUpdate) (ts : ℕ) (v : IsTransactionUpdate u) (ts_fits : ts < 2 ^ 64) where
  abbrev payload : Bytes
  payload = u.payload.bytes

  -- What stands behind the signature, the vote flag's place, and so on to the front.
  behind_signature : Bytes
  behind_signature = to_le_bytes 4 (length payload) ++ payload

  behind_index : Bytes
  behind_index = u8_from_bool u.is_vote ∷ (u.signature ++ behind_signature)

  behind_created_at : Bytes
  behind_created_at = to_le_bytes 8 u.slot ++ (to_le_bytes 4 u.index ++ behind_index)

  frame : Bytes
  frame = wire_version ∷ transaction_update_tag ∷ (to_le_bytes 8 ts ++ behind_created_at)

  length-frame : length frame ≡ 91 + length payload
  unfolding frame behind_created_at behind_index behind_signature
  length-frame = omega (arith, length-append {0}, length-to_le_bytes, v.signature_size)

  frame_fits : length frame < 2 ^ 64
  frame_fits = omega (arith, length-frame, v.payload_size)

  At-created : At frame 2 (to_le_bytes 8 ts ++ behind_created_at)
  unfolding frame
  At-created =
      At-body wire_version transaction_update_tag (to_le_bytes 8 ts ++ behind_created_at) frame_fits

  At-slot : At frame 10 (to_le_bytes 8 u.slot ++ (to_le_bytes 4 u.index ++ behind_index))
  unfolding behind_created_at
  At-slot = At-next _ _ 8 At-created (length-to_le_bytes 8 ts)

  At-index : At frame 18 (to_le_bytes 4 u.index ++ behind_index)
  At-index = At-next _ _ 8 At-slot (length-to_le_bytes 8 u.slot)

  At-vote : At frame 22 (u8_from_bool u.is_vote ∷ (u.signature ++ behind_signature))
  unfolding behind_index
  At-vote = At-next _ _ 4 At-index (length-to_le_bytes 4 u.index)

  At-signature : At frame 23 (u.signature ++ behind_signature)
  At-signature = At-next (u8_from_bool u.is_vote ∷ []) _ 1 At-vote refl

  At-payload_len : At frame 87 (to_le_bytes 4 (length payload) ++ payload)
  unfolding behind_signature
  At-payload_len = At-next _ _ 64 At-signature v.signature_size

  At-payload : At frame 91 payload
  At-payload = At-next _ _ 4 At-payload_len (length-to_le_bytes 4 (length payload))

  parse-frame :
      parse frame
      ≡ ok (record {
        sender_created_at_unix_nanos = ts;
        slot = u.slot;
        index = u.index;
        is_vote = u.is_vote;
        signature = u.signature;
        payload_offset = 91;
        payload_len = length payload;
      })
  unfolding parse
  parse-frame =
      let top : check_frame frame 91 "transaction update frame shorter than fixed header"
            transaction_update_tag
          ≡ ok tt =
        unfold frame in
        check_frame-eq-ok (to_le_bytes 8 ts ++ behind_created_at) 91 _ transaction_update_tag
          (omega (arith, length-frame)) in
      let small : ltb max_transaction_payload_bytes (length payload) ≡ false =
        le→ltb _ _ v.payload_size in
      let size : (length frame == add_usize 91 (length payload)) ≡ true =
        (==_iff _ _).1 (omega (arith, length-frame, v.payload_size)) in
      rw (
        top,
        take_u64_le-At ts _ ts_fits At-created,
        take_u64_le-At u.slot _ v.slot_fits At-slot,
        take_u32_le-At u.index _ v.index_fits At-index,
        take_u8-At _ _ At-vote,
        decode_flag-u8_from_bool u.is_vote "transaction update vote flag must be 0 or 1",
        take_array_64-At u.signature _ v.signature_size At-signature,
        take_u32_le-At (length payload) _ (omega (arith, v.payload_size)) At-payload_len,
        small,
        size,
      )

-- The whole frame, field by field.
unfoldable pub layout : TransactionUpdate → ℕ → Bytes
layout u ts =
    wire_version
    ∷ transaction_update_tag
    ∷ (to_le_bytes 8 ts
        ++ (to_le_bytes 8 u.slot
            ++ (to_le_bytes 4 u.index
                ++ (u8_from_bool u.is_vote
                    ∷ (u.signature
                        ++ (to_le_bytes 4 (length u.payload.bytes) ++ u.payload.bytes))))))

pub encode-layout :
    (u : TransactionUpdate) (ts : ℕ)
    → length u.payload.bytes ≤ max_transaction_payload_bytes
    → encode u ts ≡ ok (layout u ts)
unfolding encode encode_parts encode_parts_at layout
encode-layout u ts h =
    let small : ltb max_transaction_payload_bytes (length u.payload.bytes) ≡ false = le→ltb _ _ h in
    let fits : length u.payload.bytes < 2 ^ 32 = omega arith in
    rw (small, to_u32_of_lt _ _ fits) (ap ok (simp append_assoc))

-- Decoding what TransactionUpdate::encode wrote gives the update back with its timestamp, for an
-- update whose fields fit their widths and a timestamp of 64 bits.
pub transaction_decode_with_meta-encode :
    (u : TransactionUpdate) (ts : ℕ)
    → IsTransactionUpdate u
    → ts < 2 ^ 64
    → (encode u ts >>= decode_with_meta) ≡ ok (u, sent_at ts)
unfolding decode_with_meta from_decoded TransactionPayload.from_bytes
transaction_decode_with_meta-encode u ts v h =
    let same : layout u ts ≡ frame u ts v h =
      unfold layout frame behind_created_at behind_index behind_signature in refl in
    rw (
      encode-layout u ts v.payload_size,
      same,
      parse-frame u ts v h,
      get_range-At u.payload.bytes (At-payload u ts v h),
      TransactionPayload.new_of_le _ v.payload_size,
    )
