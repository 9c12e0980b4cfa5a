-- ===== src/Types/Account/Steps.antt =====
-- The reads that `DecodedAccountUpdate::parse` makes where it succeeds, and that decoding an
-- `AccountUpdate` never panics.
use Prim.Native.Nat.{bit_and, bit_xor}
use qlaster_public.Base.{
  Bytes, add_usize, arith, drop, length, ltb, not, refl, some, ℕ, ◌==◌, ◌≡◌, ◌≤◌,
}
use qlaster_public.Error.{
  >>=-Returns, Returns, ok, ok-injective, reject, reject->>-Returns, reject-ltb_inv, reject_ne_inv,
  with_ok,
}
use qlaster_public.Extern.{Lz4, PubkeyApi}
use qlaster_public.Types.{
  account_update_flag_lz4, check_frame, decode_flag, max_account_payload_bytes, update_tag,
}
use qlaster_public.Types.Header.{check_frame-Returns, decode_flag-Returns}
use qlaster_public.Types.Cursor.{get_range, take_array_32, take_u32_le, take_u64_le, take_u8}
use qlaster_public.Types.Cursor.Inverts.{
  get_range_to_end, take_array_32-Returns, take_u32_le-Returns, take_u32_le-next,
  take_u64_le-Returns, take_u8-Returns,
}
use qlaster_public.Types.AccountPayload
use qlaster_public.Types.AccountPayload.{AccountPayload, from_bytes, new, new-Returns}
use qlaster_public.Types.Account.{
  DecodedAccountUpdate, check_decompressed, decode_with_meta, from_decoded, parse, unpack_payload,
}

-- The reads of `parse`, in order, where it succeeds.
pub record Steps (bytes : Bytes) (d : DecodedAccountUpdate) : Type 0 where
  pub flag : ℕ
  pub flags : ℕ
  pub c1 : ℕ
  pub c2 : ℕ
  pub c3 : ℕ
  pub c4 : ℕ
  pub c5 : ℕ
  pub c6 : ℕ
  pub c7 : ℕ
  pub c8 : ℕ
  pub c9 : ℕ
  pub c10 : ℕ
  pub top :
      check_frame bytes 116 "account update frame shorter than fixed header" update_tag ≡ ok tt
  pub created_at_read : take_u64_le bytes 2 ≡ ok (d.sender_created_at_unix_nanos, c1)
  pub pubkey_read : take_array_32 bytes c1 ≡ ok (d.account_pubkey, c2)
  pub owner_read : take_array_32 bytes c2 ≡ ok (d.account_owner, c3)
  pub lamports_read : take_u64_le bytes c3 ≡ ok (d.lamports, c4)
  pub flag_read : take_u8 bytes c4 ≡ ok (flag, c5)
  pub executable_read :
      decode_flag flag "account update executable flag must be 0 or 1" ≡ ok d.executable
  pub rent_epoch_read : take_u64_le bytes c5 ≡ ok (d.rent_epoch, c6)
  pub slot_read : take_u64_le bytes c6 ≡ ok (d.slot, c7)
  pub write_version_read : take_u64_le bytes c7 ≡ ok (d.write_version, c8)
  pub flags_read : take_u8 bytes c8 ≡ ok (flags, c9)
  pub no_other : bit_and flags (bit_xor 255 account_update_flag_lz4) ≡ 0
  pub compressed_read : d.compressed ≡ not (bit_and flags account_update_flag_lz4 == 0)
  pub raw_len_read : take_u32_le bytes c9 ≡ ok (d.raw_payload_len, c10)
  pub small : d.raw_payload_len ≤ max_account_payload_bytes
  pub wire_len_read : take_u32_le bytes c10 ≡ ok (d.wire_payload_len, d.payload_offset)
  pub size : length bytes ≡ add_usize d.payload_offset d.wire_payload_len

pub parse-Steps : (bytes : Bytes) (d : DecodedAccountUpdate) → parse bytes ≡ ok d → Steps bytes d
unfolding parse
parse-Steps bytes d h = with_ok (check_frame bytes 116 _ update_tag) _ h λ _ e0 k0.
    with_ok (take_u64_le bytes 2) _ k0 λ (ts, c1) e1 k1.
      with_ok (take_array_32 bytes c1) _ k1 λ (pubkey, c2) e2 k2.
        with_ok (take_array_32 bytes c2) _ k2 λ (owner, c3) e3 k3.
          with_ok (take_u64_le bytes c3) _ k3 λ (lamports, c4) e4 k4.
            with_ok (take_u8 bytes c4) _ k4 λ (flag, c5) e5 k5.
              with_ok (decode_flag flag _) _ k5 λ executable e5' k5'.
                with_ok (take_u64_le bytes c5) _ k5' λ (rent_epoch, c6) e6 k6.
                  with_ok (take_u64_le bytes c6) _ k6 λ (slot, c7) e7 k7.
                    with_ok (take_u64_le bytes c7) _ k7 λ (write_version, c8) e8 k8.
                      with_ok (take_u8 bytes c8) _ k8 λ (flags, c9) e9 k9.
                        with_ok
                          (reject (not (bit_and flags (bit_xor 255 account_update_flag_lz4) == 0))
                            _)
                          _ k9
                          λ _ e9' k9'.
                            with_ok (take_u32_le bytes c9) _ k9' λ (raw_len, c10) e10 k10.
                              with_ok (reject (ltb max_account_payload_bytes raw_len) _) _ k10
                                λ _ e11 k11.
                                  with_ok (take_u32_le bytes c10) _ k11 λ (wire_len, c11) e12 k12.
                                    with_ok
                                      (reject (not (length bytes == add_usize c11 wire_len)) _) _
                                      k12
                                      λ _ e13 k13. rw (← ok-injective k13) (record {
                                        flag = flag;
                                        flags = flags;
                                        c1 = c1;
                                        c2 = c2;
                                        c3 = c3;
                                        c4 = c4;
                                        c5 = c5;
                                        c6 = c6;
                                        c7 = c7;
                                        c8 = c8;
                                        c9 = c9;
                                        c10 = c10;
                                        top = e0;
                                        created_at_read = e1;
                                        pubkey_read = e2;
                                        owner_read = e3;
                                        lamports_read = e4;
                                        flag_read = e5;
                                        executable_read = e5';
                                        rent_epoch_read = e6;
                                        slot_read = e7;
                                        write_version_read = e8;
                                        flags_read = e9;
                                        no_other = reject_ne_inv _ _ _ e9';
                                        compressed_read = refl;
                                        raw_len_read = e10;
                                        small = reject-ltb_inv _ _ _ e11;
                                        wire_len_read = e12;
                                        size = reject_ne_inv _ _ _ e13;
                                      })

-- The range of the payload ends with the frame.
pub parse_slice :
    (bytes : Bytes) (d : DecodedAccountUpdate)
    → Steps bytes d
    → get_range bytes d.payload_offset (add_usize d.payload_offset d.wire_payload_len)
      ≡ some (drop d.payload_offset bytes)
parse_slice bytes d s =
    get_range_to_end bytes d.payload_offset _
      (take_u32_le-next bytes s.c10 d.wire_payload_len d.payload_offset s.wire_len_read) s.size

parse-Returns : (bytes : Bytes) → Returns (parse bytes)
unfolding parse
parse-Returns bytes =
    >>=-Returns (check_frame bytes 116 _ _) _ (check_frame-Returns bytes 116 _ _ (omega arith))
      λ _ _. >>=-Returns (take_u64_le bytes 2) _ (take_u64_le-Returns bytes 2) λ p1 _.
        >>=-Returns (take_array_32 bytes p1.1) _ (take_array_32-Returns bytes p1.1) λ p2 _.
          >>=-Returns (take_array_32 bytes p2.1) _ (take_array_32-Returns bytes p2.1) λ p3 _.
            >>=-Returns (take_u64_le bytes p3.1) _ (take_u64_le-Returns bytes p3.1) λ p4 _.
              >>=-Returns (take_u8 bytes p4.1) _ (take_u8-Returns bytes p4.1) λ p5 _.
                >>=-Returns (decode_flag p5.0 _) _ (decode_flag-Returns p5.0 _) λ _ _.
                  >>=-Returns (take_u64_le bytes p5.1) _ (take_u64_le-Returns bytes p5.1) λ p6 _.
                    >>=-Returns (take_u64_le bytes p6.1) _ (take_u64_le-Returns bytes p6.1) λ p7 _.
                      >>=-Returns (take_u64_le bytes p7.1) _ (take_u64_le-Returns bytes p7.1)
                        λ p8 _.
                          >>=-Returns (take_u8 bytes p8.1) _ (take_u8-Returns bytes p8.1) λ p9 _.
                            reject->>-Returns
                              (not (bit_and p9.0 (bit_xor 255 account_update_flag_lz4) == 0)) _ _
                              (>>=-Returns (take_u32_le bytes p9.1) _
                                (take_u32_le-Returns bytes p9.1)
                                λ p10 _.
                                  reject->>-Returns (ltb max_account_payload_bytes p10.0) _ _ (
                                    >>=-Returns (take_u32_le bytes p10.1) _
                                      (take_u32_le-Returns bytes p10.1)
                                      λ p11 _.
                                        reject->>-Returns
                                          (not (length bytes == add_usize p11.1 p11.0)) _ (ok _)
                                          tt))

unpack_payload-Returns :
    {K : Type 0} (keys : PubkeyApi K) (lz4 : Lz4) (d : DecodedAccountUpdate) (wire : Bytes)
    → Returns (unpack_payload keys lz4 d wire)
unfolding unpack_payload check_decompressed
unpack_payload-Returns keys lz4 d wire = ground arith

-- No frame makes the decoder panic, whatever the decompressor answers.
pub account_decode_with_meta-Returns :
    {K : Type 0} (keys : PubkeyApi K) (lz4 : Lz4) (bytes : Bytes)
    → Returns (decode_with_meta keys lz4 bytes)
unfolding decode_with_meta from_decoded AccountPayload.from_bytes
account_decode_with_meta-Returns keys lz4 bytes =
    >>=-Returns (parse bytes) _ (parse-Returns bytes) λ d e.
      rw (parse_slice bytes d (parse-Steps bytes d e)) (
        >>=-Returns (unpack_payload keys lz4 d _) _ (unpack_payload-Returns keys lz4 d _)
          λ p _. >>=-Returns (AccountPayload.new p) _ (AccountPayload.new-Returns p) (λ _ _. tt))
