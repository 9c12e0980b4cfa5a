-- ===== src/Types/Transaction/Canonical.antt =====
-- `TransactionUpdate` frames: decoding never panics, and accepts only what encoding writes.
use qlaster_public.Types.Header.{
  check_frame-Returns, check_frame_inv, decode_flag-Returns, decode_flag_inv,
}
use qlaster_public.Types.Transaction.RoundTrip.{encode-layout, layout}
use qlaster_public.Base.{
  Bytes, IsBytes, add_usize, ap, ap₂, arith, drop, length, length-drop, ltb, not, some, subst, sym,
  to_le_bytes, ℕ, ◌++◌, ◌<◌, ◌==◌, ◌^◌, ◌∙◌, ◌∷◌, ◌≡◌, ◌≤◌,
}
use qlaster_public.Error.{
  >>=-Returns, Returns, ok, ok-injective, reject, reject->>-Returns, reject-ltb_inv, reject_ne_inv,
  with_ok,
}
use qlaster_public.Types.{
  AccountUpdateWireMeta, check_frame, decode_flag, max_transaction_payload_bytes,
  transaction_update_tag, u8_from_bool, wire_version,
}
use qlaster_public.Types.Cursor.{get_range, take_array_64, take_u32_le, take_u64_le, take_u8}
use qlaster_public.Types.Cursor.Inverts.{
  get_range_to_end, take_array_64-Returns, take_array_64-drop, take_u32_le-Returns,
  take_u32_le-drop, take_u32_le-next, take_u64_le-Returns, take_u64_le-drop, take_u8-Returns,
  take_u8-drop,
}
use qlaster_public.Types.TransactionPayload
use qlaster_public.Types.TransactionPayload.{
  TransactionPayload, from_bytes, len, new, new-Returns, new_inv,
}
use qlaster_public.Types.Transaction.{
  DecodedTransactionUpdate, IsTransactionUpdate, TransactionUpdate, decode_with_meta, encode,
  from_decoded, parse,
}

-- The reads of `parse`, in order, where it succeeds.
record Steps (bytes : Bytes) (d : DecodedTransactionUpdate) : Type 0 where
  vote : ℕ
  c1 : ℕ
  c2 : ℕ
  c3 : ℕ
  c4 : ℕ
  c5 : ℕ
  top :
      check_frame bytes 91 "transaction update frame shorter than fixed header"
        transaction_update_tag
      ≡ ok tt
  created_at_read : take_u64_le bytes 2 ≡ ok (d.sender_created_at_unix_nanos, c1)
  slot_read : take_u64_le bytes c1 ≡ ok (d.slot, c2)
  index_read : take_u32_le bytes c2 ≡ ok (d.index, c3)
  vote_read : take_u8 bytes c3 ≡ ok (vote, c4)
  is_vote_read : decode_flag vote "transaction update vote flag must be 0 or 1" ≡ ok d.is_vote
  signature_read : take_array_64 bytes c4 ≡ ok (d.signature, c5)
  payload_len_read : take_u32_le bytes c5 ≡ ok (d.payload_len, d.payload_offset)
  small : d.payload_len ≤ max_transaction_payload_bytes
  size : length bytes ≡ add_usize d.payload_offset d.payload_len

parse-Steps : (bytes : Bytes) (d : DecodedTransactionUpdate) → parse bytes ≡ ok d → Steps bytes d
unfolding parse
parse-Steps bytes d h = with_ok (check_frame bytes 91 _ transaction_update_tag) _ h λ _ e0 k0.
    with_ok (take_u64_le bytes 2) _ k0 λ (ts, c1) e1 k1.
      with_ok (take_u64_le bytes c1) _ k1 λ (slot, c2) e2 k2.
        with_ok (take_u32_le bytes c2) _ k2 λ (index, c3) e3 k3.
          with_ok (take_u8 bytes c3) _ k3 λ (vote, c4) e4 k4.
            with_ok (decode_flag vote _) _ k4 λ is_vote e5 k5.
              with_ok (take_array_64 bytes c4) _ k5 λ (signature, c5) e6 k6.
                with_ok (take_u32_le bytes c5) _ k6 λ (len, c6) e7 k7.
                  with_ok (reject (ltb max_transaction_payload_bytes len) _) _ k7 λ _ e8 k8.
                    with_ok (reject (not (length bytes == add_usize c6 len)) _) _ k8 λ _ e9 k9.
                      rw (← ok-injective k9) (record {
                        vote = vote;
                        c1 = c1;
                        c2 = c2;
                        c3 = c3;
                        c4 = c4;
                        c5 = c5;
                        top = e0;
                        created_at_read = e1;
                        slot_read = e2;
                        index_read = e3;
                        vote_read = e4;
                        is_vote_read = e5;
                        signature_read = e6;
                        payload_len_read = e7;
                        small = reject-ltb_inv _ _ _ e8;
                        size = reject_ne_inv _ _ _ e9;
                      })

-- The payload's range ends with the frame.
parse_slice :
    (bytes : Bytes) (d : DecodedTransactionUpdate)
    → Steps bytes d
    → get_range bytes d.payload_offset (add_usize d.payload_offset d.payload_len)
      ≡ some (drop d.payload_offset bytes)
parse_slice bytes d s =
    get_range_to_end bytes d.payload_offset _
      (take_u32_le-next bytes s.c5 d.payload_len d.payload_offset s.payload_len_read) s.size

parse-Returns : (bytes : Bytes) → Returns (parse bytes)
unfolding parse
parse-Returns bytes =
    >>=-Returns (check_frame bytes 91 _ _) _ (check_frame-Returns bytes 91 _ _ (omega arith)) λ _ _.
      >>=-Returns (take_u64_le bytes 2) _ (take_u64_le-Returns bytes 2) λ p1 _.
        >>=-Returns (take_u64_le bytes p1.1) _ (take_u64_le-Returns bytes p1.1) λ p2 _.
          >>=-Returns (take_u32_le bytes p2.1) _ (take_u32_le-Returns bytes p2.1) λ p3 _.
            >>=-Returns (take_u8 bytes p3.1) _ (take_u8-Returns bytes p3.1) λ p4 _.
              >>=-Returns (decode_flag p4.0 _) _ (decode_flag-Returns p4.0 _) λ _ _.
                >>=-Returns (take_array_64 bytes p4.1) _ (take_array_64-Returns bytes p4.1) λ p5 _.
                  >>=-Returns (take_u32_le bytes p5.1) _ (take_u32_le-Returns bytes p5.1) λ p6 _.
                    reject->>-Returns (ltb max_transaction_payload_bytes p6.0) _ _
                      (reject->>-Returns (not (length bytes == add_usize p6.1 p6.0)) _ (ok _) tt)

-- No frame makes the decoder panic: every index and range lies within the frame.
pub transaction_decode_with_meta-Returns : (bytes : Bytes) → Returns (decode_with_meta bytes)
unfolding decode_with_meta from_decoded TransactionPayload.from_bytes
transaction_decode_with_meta-Returns bytes =
    >>=-Returns (parse bytes) _ (parse-Returns bytes) λ d e.
      rw (parse_slice bytes d (parse-Steps bytes d e))
        (>>=-Returns (TransactionPayload.new _) _ (TransactionPayload.new-Returns _) (λ _ _. tt))

-- The frame is the encoding of the values read, with what stands behind the header.
Steps-whole :
    (bytes : Bytes) (d : DecodedTransactionUpdate)
    → IsBytes bytes
    → Steps bytes d
    → (bytes
        ≡ wire_version
          ∷ transaction_update_tag
          ∷ (to_le_bytes 8 d.sender_created_at_unix_nanos
              ++ (to_le_bytes 8 d.slot
                  ++ (to_le_bytes 4 d.index
                      ++ (u8_from_bool d.is_vote
                          ∷ (d.signature
                              ++ (to_le_bytes 4 d.payload_len ++ drop d.payload_offset bytes)))))))
      × (d.slot < 2 ^ 64)
      × (d.index < 2 ^ 32)
      × (length d.signature ≡ 64)
      × (length (drop d.payload_offset bytes) ≡ d.payload_len)
Steps-whole bytes d all s =
    let (_, front) = check_frame_inv bytes 91 _ transaction_update_tag s.top in
    let (d1, n1, _) =
      take_u64_le-drop bytes 2 s.c1 d.sender_created_at_unix_nanos all s.created_at_read in
    let (d2, n2, slot_fits) = take_u64_le-drop bytes s.c1 s.c2 d.slot all s.slot_read in
    let (d3, n3, index_fits) = take_u32_le-drop bytes s.c2 s.c3 d.index all s.index_read in
    let (d4, n4) = take_u8-drop bytes s.c3 s.c4 s.vote s.vote_read in
    let flag = decode_flag_inv s.vote _ d.is_vote s.is_vote_read in
    let (d5, n5, sig_size) = take_array_64-drop bytes s.c4 s.c5 d.signature s.signature_read in
    let (d6, n6, _) =
      take_u32_le-drop bytes s.c5 d.payload_offset d.payload_len all s.payload_len_read in
    let offset : d.payload_offset ≡ 91 = omega (arith, n1, n2, n3, n4, n5, n6) in
    let size : length (drop d.payload_offset bytes) ≡ d.payload_len =
      omega (arith, offset, s.size, s.small, length-drop d.payload_offset bytes) in
    let whole =
      front
      ∙ ap (λ r. wire_version ∷ transaction_update_tag ∷ r)
          (d1
            ∙ ap (λ r. to_le_bytes 8 d.sender_created_at_unix_nanos ++ r)
                (d2
                  ∙ ap (λ r. to_le_bytes 8 d.slot ++ r)
                      (d3
                        ∙ ap (λ r. to_le_bytes 4 d.index ++ r)
                            (d4 ∙ ap₂ ◌∷◌ flag (d5 ∙ ap (λ r. d.signature ++ r) d6))))) in
    (whole, slot_fits, index_fits, sig_size, size)

-- A frame of bytes that decodes is, byte for byte, the one that encoding the result with its
-- timestamp writes, and the fields of the result fit their widths.
pub transaction_encode-decode_with_meta :
    (bytes : Bytes) (u : TransactionUpdate) (meta : AccountUpdateWireMeta)
    → IsBytes bytes
    → decode_with_meta bytes ≡ ok (u, meta)
    → (encode u meta.sender_created_at_unix_nanos ≡ ok bytes) × IsTransactionUpdate u
unfolding decode_with_meta from_decoded TransactionPayload.from_bytes
transaction_encode-decode_with_meta bytes u meta all h = with_ok (parse bytes) _ h λ d e k.
    let s = parse-Steps bytes d e in
    with_ok (TransactionPayload.new (drop d.payload_offset bytes)) _
      (rw (parse_slice bytes d s) at k)
      λ p ep kp.
        let (whole, slot_fits, index_fits, sig_size, size) = Steps-whole bytes d all s in
        let (same, small) = TransactionPayload.new_inv _ p ep in
        subst
          (λ q. (encode q.0 q.1.sender_created_at_unix_nanos ≡ ok bytes) × IsTransactionUpdate q.0)
          (ok-injective kp)
          (rw same (
            encode-layout _ _ small ∙ ap ok (sym (whole ∙ unfold layout in rw size)),
            record {
              slot_fits = slot_fits;
              index_fits = index_fits;
              signature_size = sig_size;
              payload_size = small;
            },
          ))
