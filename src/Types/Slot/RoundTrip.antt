-- ===== src/Types/Slot/RoundTrip.antt =====
-- `SlotUpdate` frames: decoding and encoding are inverse, and decoding never panics.
use qlaster_public.Types.Cursor.Inverts.{take_u64_le-Returns, take_u64_le-drop}
use qlaster_public.Base.{
  Bytes, IsBytes, [], ap, append-nil, arith, drop, drop-length, length, length-append,
  length-to_le_bytes, not, refl, to_le_bytes, ℕ, ◌++◌, ◌<◌, ◌==◌, ◌^◌, ◌∙◌, ◌∷◌, ◌≡◌,
}
use qlaster_public.Error.{
  >>=-Returns, >>=-eq-ok, Returns, ok, reject, reject-Returns, reject-eq-ok, ◌>>=◌,
}
use qlaster_public.Types.{
  AccountUpdateWireMeta, check_frame, sent_at, slot_update_tag, wire_version,
}
use qlaster_public.Types.Header.{check_frame-Returns, check_frame-eq-ok, check_frame_inv}
use qlaster_public.Types.Cursor.Reads.{At, At-next, take_u64_le-At}
use qlaster_public.Types.Cursor.{take_u64_le}
use qlaster_public.Types.Slot.{
  DecodedSlotUpdate, SlotUpdate, decode_with_meta, encode, encode_parts, encode_parts_at, parse,
}

module _ (u : SlotUpdate) (ts : ℕ) (slot_fits : u.slot < 2 ^ 64) (ts_fits : ts < 2 ^ 64) where
  words : Bytes
  words = to_le_bytes 8 ts ++ to_le_bytes 8 u.slot

  length-words : length words ≡ 16
  unfolding words
  length-words = rw (
    length-append (to_le_bytes 8 ts) (to_le_bytes 8 u.slot),
    length-to_le_bytes 8 ts,
    length-to_le_bytes 8 u.slot,
  )

  parse_encoded :
      parse (wire_version ∷ slot_update_tag ∷ words)
      ≡ ok (record { sender_created_at_unix_nanos = ts; slot = u.slot })
  unfolding parse
  parse_encoded =
      let frame : Bytes = wire_version ∷ slot_update_tag ∷ words in
      let start : At frame 2 words = record {
        left = refl;
        within = omega arith;
        fits = omega (arith, length-words);
      } in
      let first : At frame 2 (to_le_bytes 8 ts ++ to_le_bytes 8 u.slot) = unfold words in start in
      let second : At frame 10 (to_le_bytes 8 u.slot ++ []) =
        rw append-nil
          (At-next (to_le_bytes 8 ts) (to_le_bytes 8 u.slot) 8 first (length-to_le_bytes 8 ts)) in
      rw (
        check_frame-eq-ok words 18 "slot update frame shorter than fixed header" slot_update_tag
            (omega (arith, length-words)),
        take_u64_le-At ts (to_le_bytes 8 u.slot) ts_fits first,
        take_u64_le-At u.slot [] slot_fits second,
        length-words,
      )

-- Decoding what SlotUpdate::encode wrote gives the update back with its timestamp, for a slot and
-- a timestamp of 64 bits.
pub slot_decode_with_meta-encode :
    (u : SlotUpdate) (ts : ℕ)
    → u.slot < 2 ^ 64
    → ts < 2 ^ 64
    → (encode u ts >>= decode_with_meta) ≡ ok (u, sent_at ts)
unfolding encode encode_parts encode_parts_at decode_with_meta words
slot_decode_with_meta-encode u ts h k = rw (append-nil, parse_encoded u ts h k)

parse_inv :
    (bytes : Bytes) (d : DecodedSlotUpdate)
    → IsBytes bytes
    → parse bytes ≡ ok d
    → (bytes
        ≡ wire_version
          ∷ slot_update_tag
          ∷ (to_le_bytes 8 d.sender_created_at_unix_nanos ++ to_le_bytes 8 d.slot))
      × (d.sender_created_at_unix_nanos < 2 ^ 64)
      × (d.slot < 2 ^ 64)
unfolding parse
parse_inv bytes d all h =
    let (_, e0, k0) =
      >>=-eq-ok (check_frame bytes 18 "slot update frame shorter than fixed header" slot_update_tag)
        _ h in
    let ((ts, c1), e1, k1) = >>=-eq-ok (take_u64_le bytes 2) _ k0 in
    let ((slot, c2), e2, k2) = >>=-eq-ok (take_u64_le bytes c1) _ k1 in
    let (_, e3, k3) = >>=-eq-ok (reject (not (length bytes == c2)) _) _ k2 in
    let size : length bytes ≡ c2 = ground (arith, reject-eq-ok _ _ e3) in
    let (_, front) = check_frame_inv bytes 18 _ slot_update_tag e0 in
    let (d1, _, ts_fits) = take_u64_le-drop bytes 2 c1 ts all e1 in
    let (d2, _, slot_fits) = take_u64_le-drop bytes c1 c2 slot all e2 in
    let done : drop c2 bytes ≡ [] = rw (← size) (drop-length bytes) in
    let whole : bytes ≡ wire_version ∷ slot_update_tag ∷ (to_le_bytes 8 ts ++ to_le_bytes 8 slot) =
      front
      ∙ ap (λ r. wire_version ∷ slot_update_tag ∷ r)
          (d1 ∙ ap (λ r. to_le_bytes 8 ts ++ r) (d2 ∙ rw (done, append-nil))) in
    ground (arith, whole, ts_fits, slot_fits)

-- A frame of bytes that decodes to a slot update is, byte for byte, the one that encoding the
-- result with its timestamp writes.
pub slot_encode-decode_with_meta :
    (bytes : Bytes) (u : SlotUpdate) (meta : AccountUpdateWireMeta)
    → IsBytes bytes
    → decode_with_meta bytes ≡ ok (u, meta)
    → encode u meta.sender_created_at_unix_nanos ≡ ok bytes
unfolding decode_with_meta encode encode_parts encode_parts_at
slot_encode-decode_with_meta bytes u meta all h =
    let (d, e, k) = >>=-eq-ok (parse bytes) _ h in
    let (whole, _, _) = parse_inv bytes d all e in rw append-nil (ground (arith, whole))

-- No frame makes the decoder panic.
pub slot_decode_with_meta-Returns : (bytes : Bytes) → Returns (decode_with_meta bytes)
unfolding decode_with_meta parse
slot_decode_with_meta-Returns bytes =
    >>=-Returns (parse bytes) _
      (>>=-Returns (check_frame bytes 18 _ slot_update_tag) _
        (check_frame-Returns bytes 18 _ _ (omega arith))
        λ _ _. >>=-Returns (take_u64_le bytes 2) _ (take_u64_le-Returns bytes 2) λ p _.
          >>=-Returns (take_u64_le bytes p.1) _ (take_u64_le-Returns bytes p.1) λ q _.
            >>=-Returns (reject (not (length bytes == q.1)) _) _ (reject-Returns _ _) (λ _ _. tt))
      (λ d e. tt)
