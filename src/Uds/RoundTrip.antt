-- ===== src/Uds/RoundTrip.antt =====
-- src/shm/uds.rs: what is sent with a descriptor is received with it, if it fits the buffer.
use qlaster_public.Extern.System.{IsMessageSocket, MessageSocket}
use qlaster_public.Base.{
  ==_refl, Bytes, List, [], ap, arith, dec_le, drop, false, from_le_bytes,
  from_le_bytes-to_le_bytes, if◌then◌else◌, leb, length, length-append, length-take,
  length-to_le_bytes, ltb, refl, some, suc, take, take-length, to_le_bytes, true, u32_max, zero, ℕ,
  ◌++◌, ◌+◌, ◌<◌, ◌==◌, ◌∙◌, ◌∷◌, ◌≡◌, ◌≤◌,
}
use qlaster_public.Error.{err, larger_than_buffer, ok, uds_error}
use qlaster_public.Uds.{
  Received, ancillary_recv_buf, parse_frame, recv_frame_with_fd, recvmsg_with_fd, scan_control,
  send_frame_with_fd, sendmsg_with_fd, sent_whole, uds_result, with_control,
}

take_all : (n : ℕ) (xs : Bytes) → length xs ≤ n → take n xs ≡ xs
take_all zero [] h = refl
take_all zero (x ∷ xs) h = absurd (omega (arith, h))
take_all (suc n) [] h = refl
take_all (suc n) (x ∷ xs) h = ap (◌∷◌ x) (take_all n xs (omega (arith, h)))

length_prefixed : (size : ℕ) (rest : Bytes) → length (to_le_bytes 4 size ++ rest) ≡ 4 + length rest
length_prefixed size rest =
    length-append (to_le_bytes 4 size) rest ∙ ap (λ n. n + length rest) (length-to_le_bytes 4 size)

take_prefix : (size : ℕ) (rest : Bytes) → take 4 (to_le_bytes 4 size ++ rest) ≡ to_le_bytes 4 size
unfolding to_le_bytes
take_prefix size rest = refl

drop_prefix : (size : ℕ) (rest : Bytes) → drop 4 (to_le_bytes 4 size ++ rest) ≡ rest
unfolding to_le_bytes
drop_prefix size rest = refl

take_buffer :
    (size : ℕ) (rest : Bytes)
    → take 1024 (to_le_bytes 4 size ++ rest) ≡ to_le_bytes 4 size ++ take 1020 rest
unfolding to_le_bytes
take_buffer size rest = refl

abbrev received_with : Bytes → ℕ → Received
received_with bytes fd = record { bytes = bytes; fd = some fd; closed = [] }

-- What a receive makes of bytes that begin with a length.
parse_whole :
    (payload : Bytes) (fd : ℕ)
    → length payload ≤ 1020
    → parse_frame (received_with (to_le_bytes 4 (length payload) ++ payload) fd)
      ≡ ok (payload, some fd)
unfolding parse_frame
parse_whole payload fd small =
    let bytes = to_le_bytes 4 (length payload) ++ payload in
    let word : from_le_bytes (take 4 bytes) ≡ length payload =
      ap from_le_bytes (take_prefix (length payload) payload)
      ∙ from_le_bytes-to_le_bytes 4 (length payload) (omega (arith, small)) in
    let size : length bytes ≡ 4 + length payload = length_prefixed (length payload) payload in
    let some_bytes : (4 + length payload == 0) ≡ false = ground arith in
    let a_length : ltb (4 + length payload) 4 ≡ false = ground arith in
    let fits : ltb (4 + length payload) (4 + length payload) ≡ false = ground arith in
    rw
      (
        word,
        size,
        some_bytes,
        a_length,
        fits,
        drop_prefix (length payload) payload,
        take-length payload,
      )
      refl

beyond_buffer : (n : ℕ) → 1020 < n → ltb 1024 (4 + n) ≡ true
beyond_buffer n h = ground (arith, h)

within_buffer : (n : ℕ) → n ≤ 1020 → leb (4 + n) 1024 ≡ true
within_buffer n h = ground (arith, h)

over_buffer : (n : ℕ) → 1020 < n → leb (4 + n) 1024 ≡ false
over_buffer n h = ground (arith, h)

parse_cut :
    (payload : Bytes) (fd : ℕ)
    → 1020 < length payload
    → length payload ≤ u32_max
    → parse_frame (received_with (to_le_bytes 4 (length payload) ++ take 1020 payload) fd)
      ≡ err (uds_error (larger_than_buffer (4 + length payload) 1024))
unfolding parse_frame
parse_cut payload fd large bound =
    let rest = take 1020 payload in
    let bytes = to_le_bytes 4 (length payload) ++ rest in
    let word : from_le_bytes (take 4 bytes) ≡ length payload =
      ap from_le_bytes (take_prefix (length payload) rest)
      ∙ from_le_bytes-to_le_bytes 4 (length payload) (omega (arith, bound)) in
    let size : length bytes ≡ 1024 =
      length_prefixed (length payload) rest ∙ omega (arith, length-take 1020 payload, large) in
    let cut : ltb 1024 (4 + length payload) ≡ true = beyond_buffer (length payload) large in
    rw (word, size, cut) refl

module _ {S : Type 0} (socket : MessageSocket S) (messages : S → List (Bytes × ℕ))
    (laws : IsMessageSocket socket messages) where
  send_frame :
      (s : S) (payload : Bytes) (fd : ℕ)
      → length payload ≤ u32_max
      → (s' : S) × (send_frame_with_fd socket s payload fd ≡ (ok tt, s'))
        × (messages s' ≡ messages s ++ ((to_le_bytes 4 (length payload) ++ payload, fd) ∷ []))
  unfolding send_frame_with_fd sendmsg_with_fd sent_whole uds_result
  send_frame s payload fd bound =
      let frame = to_le_bytes 4 (length payload) ++ payload in
      let (s', answer, held) = laws.sends s frame fd in
      let small : ltb u32_max (length payload) ≡ false = ground (arith, bound) in
      let whole : (length frame == length frame) ≡ true = ==_refl (length frame) in
      (s', rw (small, answer, whole) refl, held)

  recv_frame :
      (s : S) (frame : Bytes) (fd : ℕ)
      → messages s ≡ (frame, fd) ∷ []
      → (s' : S) × (recv_frame_with_fd socket s
          ≡ (parse_frame (record { bytes = take 1024 frame; fd = some fd; closed = [] }), s'))
        × (length frame ≤ 1024 → messages s' ≡ [])
  unfolding recv_frame_with_fd recvmsg_with_fd with_control scan_control uds_result
  recv_frame s frame fd held =
      let (s', answer, left) = laws.receives s frame fd 1024 [] held in (s', rw answer refl, left)

  pub recv_whole :
      (s : S) (payload : Bytes) (fd : ℕ)
      → messages s ≡ (to_le_bytes 4 (length payload) ++ payload, fd) ∷ []
      → length payload ≤ 1020
      → (s' : S) × (recv_frame_with_fd socket s ≡ (ok (payload, some fd), s')) × (messages s' ≡ [])
  recv_whole s payload fd held small =
      let message = to_le_bytes 4 (length payload) ++ payload in
      let size : length message ≤ 1024 =
        omega (arith, small, length_prefixed (length payload) payload) in
      let (s', got, left) = recv_frame s message fd held in
      (
        s',
        got
            ∙ ap (λ b. (parse_frame (received_with b fd), s')) (take_all 1024 message size)
            ∙ ap (λ r. (r, s')) (parse_whole payload fd small),
        left size,
      )

  -- A frame that does not fit the buffer.
  recv_cut :
      (s : S) (payload : Bytes) (fd : ℕ)
      → messages s ≡ (to_le_bytes 4 (length payload) ++ payload, fd) ∷ []
      → 1020 < length payload
      → length payload ≤ u32_max
      → (s' : S) × (recv_frame_with_fd socket s
          ≡ (err (uds_error (larger_than_buffer (4 + length payload) 1024)), s'))
  recv_cut s payload fd held large bound =
      let (s', got, left) = recv_frame s (to_le_bytes 4 (length payload) ++ payload) fd held in
      (
        s',
        got
            ∙ ap (λ b. (parse_frame (received_with b fd), s'))
                (take_buffer (length payload) payload)
            ∙ ap (λ r. (r, s')) (parse_cut payload fd large bound),
      )

  -- A payload whose size fits 32 bits is sent with its descriptor on a socket that keeps its laws
  -- and has no other message on the way, and received with it if with its length it fits the 1024
  -- bytes of the buffer, and is refused as larger than the buffer if not.
  pub recv_frame_with_fd-send_frame_with_fd :
      (s : S) (payload : Bytes) (fd : ℕ)
      → messages s ≡ []
      → length payload ≤ u32_max
      → (s1 s2 : S) × (send_frame_with_fd socket s payload fd ≡ (ok tt, s1))
        × (recv_frame_with_fd socket s1 ≡ (
          if leb (4 + length payload) ancillary_recv_buf
              then ok (payload, some fd)
              else err (uds_error (larger_than_buffer (4 + length payload) ancillary_recv_buf)),
          s2,
        ))
  recv_frame_with_fd-send_frame_with_fd s payload fd empty bound =
      let (s1, sent, held) = send_frame s payload fd bound in
      let first =
        held ∙ ap (λ ms. ms ++ ((to_le_bytes 4 (length payload) ++ payload, fd) ∷ [])) empty in
      elim (dec_le (length payload) 1020) [
        | yes small ↦
            let fits : leb (4 + length payload) 1024 ≡ true =
              within_buffer (length payload) small in
            let (s2, got, left) = recv_whole s1 payload fd first small in
            (s1, s2, sent, rw fits got)
        | no large ↦
            let over : leb (4 + length payload) 1024 ≡ false =
              over_buffer (length payload) (omega (arith, large)) in
            let (s2, got) = recv_cut s1 payload fd first (omega (arith, large)) bound in
            (s1, s2, sent, rw over got)
      ]
