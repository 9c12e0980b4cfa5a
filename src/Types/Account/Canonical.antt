-- ===== src/Types/Account/Canonical.antt =====
-- `AccountUpdate` frames: what the frames that decoding accepts look like.

use qlaster_public.Error.{ok, ok-injective, with_ok}
use Prim.Native.Nat.{bit_and, bit_xor}
use qlaster_public.Base.{
  All-drop, Bool, Bytes, IsByte, IsBytes, ap, ap₂, arith, dec_le, drop, false, false≢true, inl, inr,
  leb, length, length-drop, not, refl, subst, suc, sym, to_le_bytes, true, zero, ℕ, ◌&&◌, ◌++◌, ◌<◌,
  ◌==◌, ◌^◌, ◌||◌, ◌∙◌, ◌∷◌, ◌≡◌, ◌≤◌, ◌⊎◌,
}
use qlaster_public.Extern.{IsPubkeyApi, Lz4, PubkeyApi}
use qlaster_public.Types.{
  AccountUpdateWireMeta, account_update_flag_lz4, max_account_payload_bytes, update_tag,
  wire_version,
}
use qlaster_public.Types.Header.{check_frame_inv, decode_flag_inv}
use qlaster_public.Types.Cursor.Inverts.{
  take_array_32-drop, take_u32_le-drop, take_u64_le-drop, take_u8-drop,
}
use qlaster_public.Types.AccountPayload
use qlaster_public.Types.Account.{
  AccountUpdate, DecodedAccountUpdate, IsAccountUpdate, check_decompressed, decode_with_meta,
  from_decoded, parse, unpack_payload,
}
use qlaster_public.Types.Account.RoundTrip.{layout}
use qlaster_public.Types.Account.Steps.{Steps, parse_slice, parse-Steps}

-- Of the byte values only 0 and 1 have no bit but the lowest.
only_low_bit : ℕ → Bool
only_low_bit zero = true
only_low_bit (suc n) =
    (leb (suc n) 1 || not (bit_and (suc n) (bit_xor 255 account_update_flag_lz4) == 0))
    && only_low_bit n

only_low_bit_sound :
    (n flags : ℕ)
    → only_low_bit n ≡ true
    → flags ≤ n
    → bit_and flags (bit_xor 255 account_update_flag_lz4) ≡ 0
    → flags ≤ 1
unfolding only_low_bit
only_low_bit_sound zero flags h k e = omega arith
only_low_bit_sound (suc n) flags h k e = elim (dec_le flags n) [
  | yes below ↦ only_low_bit_sound n flags (ground arith) below e
  | no above ↦
      let same : flags ≡ suc n = omega arith in
      let e' : bit_and (suc n) (bit_xor 255 account_update_flag_lz4) ≡ 0 = rw same at e in
      ground arith
]

flags_cases :
    (flags : ℕ)
    → flags < 256
    → bit_and flags (bit_xor 255 account_update_flag_lz4) ≡ 0
    → (flags ≡ 0) ⊎ (flags ≡ 1)
unfolding only_low_bit
flags_cases flags h e =
    let low : flags ≤ 1 = only_low_bit_sound 255 flags refl (omega arith) e in grind arith

-- The frame is the layout of the values read, with what stands behind the header.
module _ {K : Type 0} (keys : PubkeyApi K) (laws : IsPubkeyApi keys) where
  -- The update of the values read, with a payload.
  result : DecodedAccountUpdate → Bytes → AccountUpdate K
  result d payload = record {
    account_pubkey = keys.new_from_array d.account_pubkey;
    account_owner = keys.new_from_array d.account_owner;
    lamports = d.lamports;
    executable = d.executable;
    rent_epoch = d.rent_epoch;
    slot = d.slot;
    write_version = d.write_version;
    payload = record { bytes = payload };
  }

  Steps-whole :
      (bytes : Bytes) (d : DecodedAccountUpdate) (s : Steps bytes d) (payload : Bytes)
      → IsBytes bytes
      → (bytes
          ≡ layout keys
              (result d payload)
              d.sender_created_at_unix_nanos
              s.flags
              d.raw_payload_len
              (drop d.payload_offset bytes))
        × (length (drop d.payload_offset bytes) ≡ d.wire_payload_len)
        × ((s.flags ≡ 0) ⊎ (s.flags ≡ 1))
        × (d.lamports < 2 ^ 64)
        × (d.rent_epoch < 2 ^ 64)
        × (d.slot < 2 ^ 64)
        × (d.write_version < 2 ^ 64)
  unfolding layout result
  Steps-whole bytes d s payload all =
      let (_, front) = check_frame_inv bytes 116 _ update_tag s.top in
      let (d1, n1, _) =
        take_u64_le-drop bytes 2 s.c1 d.sender_created_at_unix_nanos all s.created_at_read in
      let (d2, n2, key_size) = take_array_32-drop bytes s.c1 s.c2 d.account_pubkey s.pubkey_read in
      let (d3, n3, owner_size) = take_array_32-drop bytes s.c2 s.c3 d.account_owner s.owner_read in
      let (d4, n4, f4) = take_u64_le-drop bytes s.c3 s.c4 d.lamports all s.lamports_read in
      let (d5, n5) = take_u8-drop bytes s.c4 s.c5 s.flag s.flag_read in
      let flag = decode_flag_inv s.flag _ d.executable s.executable_read in
      let (d6, n6, f6) = take_u64_le-drop bytes s.c5 s.c6 d.rent_epoch all s.rent_epoch_read in
      let (d7, n7, f7) = take_u64_le-drop bytes s.c6 s.c7 d.slot all s.slot_read in
      let (d8, n8, f8) =
        take_u64_le-drop bytes s.c7 s.c8 d.write_version all s.write_version_read in
      let (d9, n9) = take_u8-drop bytes s.c8 s.c9 s.flags s.flags_read in
      let (d10, n10, _) = take_u32_le-drop bytes s.c9 s.c10 d.raw_payload_len all s.raw_len_read in
      let (d11, n11, f11) =
        take_u32_le-drop bytes s.c10 d.payload_offset d.wire_payload_len all s.wire_len_read in
      let offset : d.payload_offset ≡ 116 =
        omega (arith, n1, n2, n3, n4, n5, n6, n7, n8, n9, n10, n11) in
      let size : length (drop d.payload_offset bytes) ≡ d.wire_payload_len =
        omega (arith, offset, s.size, f11, length-drop d.payload_offset bytes) in
      let key : d.account_pubkey ≡ keys.to_bytes (keys.new_from_array d.account_pubkey) =
        sym (laws.to_bytes_of d.account_pubkey key_size) in
      let owner : d.account_owner ≡ keys.to_bytes (keys.new_from_array d.account_owner) =
        sym (laws.to_bytes_of d.account_owner owner_size) in
      let byte : IsBytes (s.flags ∷ drop s.c9 bytes) =
        subst IsBytes d9 (All-drop IsByte s.c8 bytes all) in
      let tail1 =
        d9
        ∙ ap (◌∷◌ s.flags) (
            d10
            ∙ ap (λ r. to_le_bytes 4 d.raw_payload_len ++ r)
                (d11 ∙ ap (λ n. to_le_bytes 4 n ++ drop d.payload_offset bytes) (sym size))) in
      let tail2 =
        d6
        ∙ ap (λ r. to_le_bytes 8 d.rent_epoch ++ r)
            (d7
              ∙ ap (λ r. to_le_bytes 8 d.slot ++ r)
                  (d8 ∙ ap (λ r. to_le_bytes 8 d.write_version ++ r) tail1)) in
      let tail3 = d4 ∙ ap (λ r. to_le_bytes 8 d.lamports ++ r) (d5 ∙ ap₂ ◌∷◌ flag tail2) in
      let tail4 = d2 ∙ ap₂ ◌++◌ key (d3 ∙ ap₂ ◌++◌ owner tail3) in
      (
        front
            ∙ ap (λ r. wire_version ∷ update_tag ∷ r)
                (d1 ∙ ap (λ r. to_le_bytes 8 d.sender_created_at_unix_nanos ++ r) tail4),
        size,
        flags_cases s.flags byte.0 s.no_other,
        f4,
        f6,
        f7,
        f8,
      )

  unpack_payload_inv :
      (lz4 : Lz4) (d : DecodedAccountUpdate) (wire payload : Bytes)
      → unpack_payload keys lz4 d wire ≡ ok payload
      → ((d.compressed ≡ false) × (wire ≡ payload) × (d.wire_payload_len ≡ d.raw_payload_len))
        ⊎ ((d.compressed ≡ true)
            × (lz4.decompress wire d.raw_payload_len ≡ inr payload)
            × (length payload ≡ d.raw_payload_len))
  unfolding unpack_payload check_decompressed
  unpack_payload_inv lz4 d wire payload h = ground arith

  -- The frames that stand for an update with a timestamp.
  abbrev pub Encodes : Lz4 → AccountUpdate K → ℕ → Bytes → Type 0
  Encodes lz4 u ts bytes =
      (bytes ≡ layout keys u ts 0 (length u.payload.bytes) u.payload.bytes)
      ⊎ ((wire : Bytes) × (bytes ≡ layout keys u ts 1 (length u.payload.bytes) wire)
          × (lz4.decompress wire (length u.payload.bytes) ≡ inr u.payload.bytes))

  Steps-Encodes :
      (lz4 : Lz4) (bytes : Bytes) (d : DecodedAccountUpdate) (payload : Bytes)
      → IsBytes bytes
      → Steps bytes d
      → unpack_payload keys lz4 d (drop d.payload_offset bytes) ≡ ok payload
      → length payload ≤ max_account_payload_bytes
      → Encodes lz4 (result d payload) d.sender_created_at_unix_nanos bytes
        × IsAccountUpdate (result d payload)
  unfolding result
  Steps-Encodes lz4 bytes d payload all s h small =
      let (whole, size, low, f1, f2, f3, f4) = Steps-whole bytes d s payload all in
      let fields : IsAccountUpdate (result d payload) = record {
        lamports_fits = f1;
        rent_epoch_fits = f2;
        slot_fits = f3;
        write_version_fits = f4;
        payload_size = small;
      } in
      (
        elim (unpack_payload_inv lz4 d (drop d.payload_offset bytes) payload h) [
          | inl (plain, same, len) ↦
              let flag : s.flags ≡ 0 = elim low [
                | inl z ↦ z
                | inr o ↦ absurd (false≢true (sym plain ∙ s.compressed_read ∙ rw o))
              ] in
              let raw : d.raw_payload_len ≡ length payload = sym len ∙ sym size ∙ ap length same in
              inl (whole ∙ rw (flag, raw, same))
          | inr (packed, back, len) ↦
              let flag : s.flags ≡ 1 = elim low [
                | inl z ↦ absurd (false≢true (sym (sym packed ∙ s.compressed_read ∙ rw z)))
                | inr o ↦ o
              ] in
              inr (drop d.payload_offset bytes, whole ∙ rw (flag, ← len), rw len back)
        ],
        fields,
      )

  -- A frame of bytes that decodes is the layout of the result with its timestamp, either with its
  -- payload as it is and no flag, or with the compression flag and bytes that decompress to its
  -- payload, and the fields of the result fit their widths, where the keys keep their laws.
  pub account_decode_with_meta-Encodes :
      (lz4 : Lz4) (bytes : Bytes) (u : AccountUpdate K) (meta : AccountUpdateWireMeta)
      → IsBytes bytes
      → decode_with_meta keys lz4 bytes ≡ ok (u, meta)
      → Encodes lz4 u meta.sender_created_at_unix_nanos bytes × IsAccountUpdate u
  unfolding decode_with_meta from_decoded AccountPayload.from_bytes result
  account_decode_with_meta-Encodes lz4 bytes u meta all h = with_ok (parse bytes) _ h λ d e k.
      let s = parse-Steps bytes d e in
      with_ok (unpack_payload keys lz4 d (drop d.payload_offset bytes)) _
        (rw (parse_slice bytes d s) at k)
        λ payload e' k'. with_ok (AccountPayload.new payload) _ k' λ p ep kp.
          let (same, small) = AccountPayload.new_inv payload p ep in
          subst (λ q. Encodes lz4 q.0 q.1.sender_created_at_unix_nanos bytes × IsAccountUpdate q.0)
            (ok-injective kp) (rw same (Steps-Encodes lz4 bytes d payload all s e' small))
