-- ===== src/Types/Account/RoundTrip.antt =====
-- `AccountUpdate` frames: what encoding writes, and that decoding gives it back, whether or not the
-- payload was compressed.

use qlaster_public.Types.Header.{check_frame-eq-ok, decode_flag-u8_from_bool, to_u32_of_lt}
use qlaster_public.Types.Compression.{choose_payload, choose_payload_cases}
use qlaster_public.Error.{ok, ◌>>=◌}
use Prim.Native.Nat.{bit_and, bit_xor}
use qlaster_public.Base.{
  ==_iff, ==_refl, Bool, Bytes, [], add_usize, ap, append_assoc, arith, false, inl, inr, length,
  length-append, length-to_le_bytes, le→ltb, ltb, not, refl, to_le_bytes, true, ℕ, ◌++◌, ◌+◌, ◌<◌,
  ◌==◌, ◌^◌, ◌∷◌, ◌≡◌, ◌≤◌,
}
use qlaster_public.Extern.{IsLz4, IsPubkeyApi, Lz4, PubkeyApi}
use qlaster_public.Types.{
  account_update_flag_lz4, check_frame, max_account_payload_bytes, sent_at, u8_from_bool,
  update_tag, wire_version,
}
use qlaster_public.Types.Cursor.Reads.{
  At, At-body, At-next, get_range-At, take_array_32-At, take_u32_le-At, take_u64_le-At, take_u8-At,
}
use qlaster_public.Types.AccountPayload
use qlaster_public.Types.Account.{
  AccountUpdate, DecodedAccountUpdate, IsAccountUpdate, check_decompressed, decode_with_meta,
  encode, encode_parts, encode_parts_at, from_decoded, parse, unpack_payload,
}

-- The whole frame, field by field, for the flags, the size declared and the payload on the wire.
unfoldable pub layout : {K : Type 0} → PubkeyApi K → AccountUpdate K → ℕ → ℕ → ℕ → Bytes → Bytes
layout keys u ts flags raw_len wire =
    wire_version
    ∷ update_tag
    ∷ (to_le_bytes 8 ts
        ++ (keys.to_bytes u.account_pubkey
            ++ (keys.to_bytes u.account_owner
                ++ (to_le_bytes 8 u.lamports
                    ++ (u8_from_bool u.executable
                        ∷ (to_le_bytes 8 u.rent_epoch
                            ++ (to_le_bytes 8 u.slot
                                ++ (to_le_bytes 8 u.write_version
                                    ++ (flags
                                        ∷ (to_le_bytes 4 raw_len
                                            ++ (to_le_bytes 4 (length wire) ++ wire)))))))))))

module _ {K : Type 0} (keys : PubkeyApi K) (laws : IsPubkeyApi keys) (u : AccountUpdate K)
    (v : IsAccountUpdate u) (ts : ℕ) (ts_fits : ts < 2 ^ 64) (flags raw_len : ℕ)
    (raw_fits : raw_len ≤ max_account_payload_bytes) (wire : Bytes)
    (wire_fits : length wire < 2 ^ 32) where
  -- The frame in three parts, and where each field stands.
  lengths : Bytes
  lengths = to_le_bytes 4 raw_len ++ (to_le_bytes 4 (length wire) ++ wire)

  numbers : Bytes
  numbers =
      to_le_bytes 8 u.rent_epoch
      ++ (to_le_bytes 8 u.slot ++ (to_le_bytes 8 u.write_version ++ (flags ∷ lengths)))

  keyed : Bytes
  keyed =
      keys.to_bytes u.account_pubkey
      ++ (keys.to_bytes u.account_owner
          ++ (to_le_bytes 8 u.lamports ++ (u8_from_bool u.executable ∷ numbers)))

  frame : Bytes
  frame = wire_version ∷ update_tag ∷ (to_le_bytes 8 ts ++ keyed)

  layout-eq-frame : layout keys u ts flags raw_len wire ≡ frame
  unfolding layout frame keyed numbers lengths
  layout-eq-frame = refl

  length-frame : length frame ≡ 116 + length wire
  unfolding frame keyed numbers lengths
  length-frame = omega (
    arith,
    length-append {0},
    length-to_le_bytes,
    laws.to_bytes_size u.account_pubkey,
    laws.to_bytes_size u.account_owner,
  )

  frame_fits : length frame < 2 ^ 64
  frame_fits = omega (arith, length-frame, wire_fits)

  At-created : At frame 2 (to_le_bytes 8 ts ++ keyed)
  unfolding frame
  At-created = At-body wire_version update_tag (to_le_bytes 8 ts ++ keyed) frame_fits

  At-pubkey : At frame 10 (
      keys.to_bytes u.account_pubkey
      ++ (keys.to_bytes u.account_owner
          ++ (to_le_bytes 8 u.lamports ++ (u8_from_bool u.executable ∷ numbers))))
  unfolding keyed
  At-pubkey = At-next _ _ 8 At-created (length-to_le_bytes 8 ts)

  At-owner : At frame 42 (
      keys.to_bytes u.account_owner
      ++ (to_le_bytes 8 u.lamports ++ (u8_from_bool u.executable ∷ numbers)))
  At-owner = At-next _ _ 32 At-pubkey (laws.to_bytes_size u.account_pubkey)

  At-lamports : At frame 74 (to_le_bytes 8 u.lamports ++ (u8_from_bool u.executable ∷ numbers))
  At-lamports = At-next _ _ 32 At-owner (laws.to_bytes_size u.account_owner)

  At-executable : At frame 82 (u8_from_bool u.executable ∷ numbers)
  At-executable = At-next _ _ 8 At-lamports (length-to_le_bytes 8 u.lamports)

  At-rent_epoch : At frame 83 (
      to_le_bytes 8 u.rent_epoch
      ++ (to_le_bytes 8 u.slot ++ (to_le_bytes 8 u.write_version ++ (flags ∷ lengths))))
  unfolding numbers
  At-rent_epoch = At-next (u8_from_bool u.executable ∷ []) _ 1 At-executable refl

  At-slot :
      At frame 91 (to_le_bytes 8 u.slot ++ (to_le_bytes 8 u.write_version ++ (flags ∷ lengths)))
  At-slot = At-next _ _ 8 At-rent_epoch (length-to_le_bytes 8 u.rent_epoch)

  At-write_version : At frame 99 (to_le_bytes 8 u.write_version ++ (flags ∷ lengths))
  At-write_version = At-next _ _ 8 At-slot (length-to_le_bytes 8 u.slot)

  At-flags : At frame 107 (flags ∷ lengths)
  At-flags = At-next _ _ 8 At-write_version (length-to_le_bytes 8 u.write_version)

  At-raw_len : At frame 108 (to_le_bytes 4 raw_len ++ (to_le_bytes 4 (length wire) ++ wire))
  unfolding lengths
  At-raw_len = At-next (flags ∷ []) _ 1 At-flags refl

  At-wire_len : At frame 112 (to_le_bytes 4 (length wire) ++ wire)
  At-wire_len = At-next _ _ 4 At-raw_len (length-to_le_bytes 4 raw_len)

  At-wire : At frame 116 wire
  At-wire = At-next _ _ 4 At-wire_len (length-to_le_bytes 4 (length wire))

  -- What `parse` returns for the frame.
  decoded : Bool → DecodedAccountUpdate
  decoded compressed = record {
    sender_created_at_unix_nanos = ts;
    account_pubkey = keys.to_bytes u.account_pubkey;
    account_owner = keys.to_bytes u.account_owner;
    lamports = u.lamports;
    executable = u.executable;
    rent_epoch = u.rent_epoch;
    slot = u.slot;
    write_version = u.write_version;
    compressed = compressed;
    raw_payload_len = raw_len;
    payload_offset = 116;
    wire_payload_len = length wire;
  }

  parse-frame :
      (compressed : Bool)
      → bit_and flags (bit_xor 255 account_update_flag_lz4) ≡ 0
      → not (bit_and flags account_update_flag_lz4 == 0) ≡ compressed
      → parse frame ≡ ok (decoded compressed)
  unfolding parse decoded
  parse-frame compressed no_other flag =
      let top : check_frame frame 116 "account update frame shorter than fixed header" update_tag
          ≡ ok tt =
        unfold frame in
        check_frame-eq-ok (to_le_bytes 8 ts ++ keyed) 116 _ update_tag
          (omega (arith, length-frame)) in
      let small : ltb max_account_payload_bytes raw_len ≡ false = le→ltb _ _ raw_fits in
      let raw_fits_u32 : raw_len < 2 ^ 32 = omega (arith, raw_fits) in
      let size : (length frame == add_usize 116 (length wire)) ≡ true =
        (==_iff _ _).1 (omega (arith, length-frame, wire_fits)) in
      rw (
        top,
        take_u64_le-At ts _ ts_fits At-created,
        take_array_32-At _ _ (laws.to_bytes_size u.account_pubkey) At-pubkey,
        take_array_32-At _ _ (laws.to_bytes_size u.account_owner) At-owner,
        take_u64_le-At u.lamports _ v.lamports_fits At-lamports,
        take_u8-At _ _ At-executable,
        decode_flag-u8_from_bool u.executable "account update executable flag must be 0 or 1",
        take_u64_le-At u.rent_epoch _ v.rent_epoch_fits At-rent_epoch,
        take_u64_le-At u.slot _ v.slot_fits At-slot,
        take_u64_le-At u.write_version _ v.write_version_fits At-write_version,
        take_u8-At _ _ At-flags,
        no_other,
        take_u32_le-At raw_len _ raw_fits_u32 At-raw_len,
        small,
        take_u32_le-At (length wire) _ wire_fits At-wire_len,
        size,
        flag,
      )

  -- A frame with the flags and the payload of `unpack_payload`'s branch decodes to the update.
  decode_frame :
      (compressed : Bool)
      → bit_and flags (bit_xor 255 account_update_flag_lz4) ≡ 0
      → not (bit_and flags account_update_flag_lz4 == 0) ≡ compressed
      → (lz4 : Lz4) → unpack_payload keys lz4 (decoded compressed) wire ≡ ok u.payload.bytes
      → decode_with_meta keys lz4 (layout keys u ts flags raw_len wire) ≡ ok (u, sent_at ts)
  unfolding decode_with_meta from_decoded AccountPayload.from_bytes decoded
  decode_frame compressed no_other flag lz4 unpacks = rw (
    layout-eq-frame,
    parse-frame compressed no_other flag,
    get_range-At wire At-wire,
    unpacks,
    AccountPayload.new_of_le u.payload.bytes v.payload_size,
    laws.of_to_bytes u.account_pubkey,
    laws.of_to_bytes u.account_owner,
  )

-- What `AccountUpdate::encode` writes: the fields in order, and the payload that was chosen.
pub encode-layout :
    {K : Type 0} (keys : PubkeyApi K) (lz4 : Lz4) (u : AccountUpdate K) (ts : ℕ)
    → length u.payload.bytes ≤ max_account_payload_bytes
    → length (choose_payload lz4 u.payload.bytes).1 < 2 ^ 32
    → encode keys lz4 u ts
      ≡ ok (
          layout keys u ts
            (choose_payload lz4 u.payload.bytes).0
            (length u.payload.bytes)
            (choose_payload lz4 u.payload.bytes).1)
unfolding encode encode_parts encode_parts_at layout
encode-layout keys lz4 u ts h k =
    let small : ltb max_account_payload_bytes (length u.payload.bytes) ≡ false = le→ltb _ _ h in
    let fits : length u.payload.bytes < 2 ^ 32 = omega arith in
    rw (small, to_u32_of_lt _ _ fits, to_u32_of_lt _ _ k) (ap ok (simp append_assoc))

-- Decoding what AccountUpdate::encode wrote gives the update back with its timestamp, whether or
-- not the payload was compressed, for an update whose fields fit their widths, a timestamp of 64
-- bits, and keys and a compressor that keep their laws.
pub account_decode_with_meta-encode :
    {K : Type 0} (keys : PubkeyApi K) (lz4 : Lz4) (u : AccountUpdate K) (ts : ℕ)
    → IsPubkeyApi keys
    → IsLz4 lz4
    → IsAccountUpdate u
    → ts < 2 ^ 64
    → (encode keys lz4 u ts >>= decode_with_meta keys lz4) ≡ ok (u, sent_at ts)
unfolding unpack_payload check_decompressed decoded
account_decode_with_meta-encode keys lz4 u ts laws inverse v h =
    elim (choose_payload_cases lz4 u.payload.bytes) [
      | inl ((_, shorter, _), e) ↦
          let packed = lz4.compress u.payload.bytes in
          let fits : length packed < 2 ^ 32 = omega (arith, v.payload_size) in
          rw (encode-layout keys lz4 u ts v.payload_size (rw e fits), e)
            (decode_frame keys laws u v ts h 1 (length u.payload.bytes) v.payload_size packed fits
              true refl refl lz4
              (rw (inverse.decompress_compress u.payload.bytes, ==_refl (length u.payload.bytes))))
      | inr (_, e) ↦
          let fits : length u.payload.bytes < 2 ^ 32 = omega (arith, v.payload_size) in
          rw (encode-layout keys lz4 u ts v.payload_size (rw e fits), e)
            (decode_frame keys laws u v ts h 0 (length u.payload.bytes) v.payload_size
              u.payload.bytes fits false refl refl lz4 (rw (==_refl (length u.payload.bytes))))
    ]
