-- ===== src/Wire/Framing.antt =====
-- Frames written to a stream are read back in order, and what the reader refuses.
use qlaster_public.Base.{
  All, Bytes, List, [], ap, append-nil, append_assoc, arith, dec_lt, drop, false,
  from_le_bytes-to_le_bytes, inr, leb, length, length-append, length-drop, length-to_le_bytes,
  le→ltb, ltb, lt→ltb, refl, suc, sym, take, take-append, take-append-drop, take-append_le,
  to_le_bytes, true, u32_max, zero, ℕ, ◌++◌, ◌+◌, ◌<◌, ◌^◌, ◌∙◌, ◌∷◌, ◌≡◌, ◌≤◌,
}
use qlaster_public.Error.{Result, err, frame_too_large, io, ok, unexpected_eof, ◌>>=◌}
use qlaster_public.Extern.{IsStream, Stream}
use qlaster_public.Wire.{max_frame_size, read_framed, write_framed}

-- A frame on the stream.
unfoldable pub frame : Bytes → Bytes
frame payload = to_le_bytes 4 (length payload) ++ payload

module _ {S : Type 0} (stream : Stream S) (pending : S → Bytes)
    (laws : IsStream stream pending) where
  -- Where the size does not exceed 32 bits, `write_framed` appends the frame.
  pub write_framed-frame :
      (s : S) (payload : Bytes)
      → length payload ≤ u32_max
      → (s' : S) × (write_framed stream s payload ≡ ok s')
        × (pending s' ≡ pending s ++ frame payload)
  unfolding write_framed frame
  write_framed-frame s payload h =
      let (s1, e1, p1) = laws.writes s (to_le_bytes 4 (length payload)) in
      let (s2, e2, p2) = laws.writes s1 payload in
      let fits : leb (length payload) u32_max ≡ true = ground arith in
      (
        s2,
        rw (fits, e1, e2),
        rw (p2, p1) (append_assoc (pending s) (to_le_bytes 4 (length payload)) payload),
      )

  -- The header of a frame, whatever size it states.
  read_header :
      (s : S) (size : ℕ) (rest : Bytes)
      → pending s ≡ to_le_bytes 4 size ++ rest
      → (s' : S) × (stream.read_exact s 4 ≡ inr (to_le_bytes 4 size, s')) × (pending s' ≡ rest)
  read_header s size rest e =
      let (s', r, p) = laws.reads s (to_le_bytes 4 size) rest e in
      (s', rw (sym (ap (stream.read_exact s) (length-to_le_bytes 4 size))) r, p)

  -- A frame within `MAX_FRAME_SIZE` at the front of the stream is read, and what follows it stays.
  pub read_framed-frame :
      (s : S) (payload rest : Bytes)
      → length payload ≤ max_frame_size
      → pending s ≡ frame payload ++ rest
      → (s' : S) × (read_framed stream s ≡ ok (payload, s')) × (pending s' ≡ rest)
  unfolding read_framed frame
  read_framed-frame s payload rest h e =
      let (s1, e1, p1) = read_header s (length payload) (payload ++ rest) (rw append_assoc at e) in
      let (s2, e2, p2) = laws.reads s1 payload rest p1 in
      let fits : length payload < 2 ^ 32 = omega arith in
      let small : ltb max_frame_size (length payload) ≡ false = le→ltb _ _ h in
      (s2, rw (e1, from_le_bytes-to_le_bytes 4 (length payload) fits, small, e2), p2)

  -- A length of 32 bits above MAX_FRAME_SIZE is refused with that length, whatever follows it on a
  -- stream that keeps the laws of IsStream.
  pub read_framed_too_large :
      (s : S) (size : ℕ) (rest : Bytes)
      → max_frame_size < size
      → size ≤ u32_max
      → pending s ≡ to_le_bytes 4 size ++ rest
      → read_framed stream s ≡ err (frame_too_large size)
  unfolding read_framed
  read_framed_too_large s size rest h k e =
      let (s1, e1, _) = read_header s size rest e in
      let fits : size < 2 ^ 32 = omega arith in
      let large : ltb max_frame_size size ≡ true = lt→ltb _ _ h in
      rw (e1, from_le_bytes-to_le_bytes 4 size fits, large)

  -- A stream that holds a proper prefix of a frame within MAX_FRAME_SIZE gives an UnexpectedEof,
  -- whether it ends in the length or in the payload, where it keeps the laws of IsStream.
  pub read_framed_truncated :
      (s : S) (payload cut : Bytes) (x : ℕ) (more : Bytes)
      → length payload ≤ max_frame_size
      → pending s ≡ cut
      → frame payload ≡ cut ++ x ∷ more
      → read_framed stream s ≡ err (io unexpected_eof)
  unfolding read_framed frame
  read_framed_truncated s payload cut x more h e k =
      let size : 4 + length payload ≡ length cut + suc (length more) = omega (
        arith,
        ap length k,
        length-append (to_le_bytes 4 (length payload)) payload,
        length-to_le_bytes 4 (length payload),
        length-append cut (x ∷ more),
      ) in
      elim (dec_lt (length cut) 4) [
        | yes short ↦ let early : length (pending s) < 4 = rw e short in rw (laws.ends s 4 early)
        | no long ↦
            let full : 4 ≤ length cut = omega arith in
            let width = length-to_le_bytes 4 (length payload) in
            let head : take 4 cut ≡ to_le_bytes 4 (length payload) =
              sym (take-append_le 4 cut (x ∷ more) full)
              ∙ ap (take 4) (sym k)
              ∙ ap (λ n. take n (to_le_bytes 4 (length payload) ++ payload)) (sym width)
              ∙ take-append (to_le_bytes 4 (length payload)) payload in
            let (s1, e1, p1) =
              read_header s (length payload) (drop 4 cut)
                (e ∙ sym (take-append-drop 4 cut) ∙ ap (λ r. r ++ drop 4 cut) head) in
            let fits : length payload < 2 ^ 32 = omega arith in
            let small : ltb max_frame_size (length payload) ≡ false = le→ltb _ _ h in
            let rest : length (pending s1) < length payload =
              rw p1 (omega (arith, size, length-drop 4 cut)) in
            rw (
              e1,
              from_le_bytes-to_le_bytes 4 (length payload) fits,
              small,
              laws.ends s1 (length payload) rest,
            )
      ]

-- Several frames, one after the other.
unfoldable pub write_all_frames : {S : Type 0} → Stream S → S → List Bytes → Result S
write_all_frames stream s [] = ok s
write_all_frames stream s (p ∷ ps) = write_framed stream s p >>= λ s'. write_all_frames stream s' ps

unfoldable pub read_frames : {S : Type 0} → Stream S → ℕ → S → Result (List Bytes × S)
read_frames stream zero s = ok ([], s)
read_frames stream (suc n) s = do
  (p, s1) ← read_framed stream s
  (ps, s2) ← read_frames stream n s1
  ok (p ∷ ps, s2)

unfoldable pub frames : List Bytes → Bytes
frames [] = []
frames (p ∷ ps) = frame p ++ frames ps

abbrev pub IsSmall : Bytes → Type 0
IsSmall p = length p ≤ max_frame_size

module _ {S : Type 0} (stream : Stream S) (pending : S → Bytes)
    (laws : IsStream stream pending) where
  write_all_frames-frames :
      (ps : List Bytes) (s : S)
      → All IsSmall ps
      → (s' : S) × (write_all_frames stream s ps ≡ ok s') × (pending s' ≡ pending s ++ frames ps)
  unfolding write_all_frames frames
  write_all_frames-frames [] s h = (s, refl, sym (append-nil (pending s)))
  write_all_frames-frames (p ∷ ps) s h =
      let (s1, e1, p1) = write_framed-frame stream pending laws s p (omega (arith, h.0)) in
      let (s2, e2, p2) = write_all_frames-frames ps s1 h.1 in
      (
        s2,
        rw e1 e2,
        p2 ∙ ap (λ r. r ++ frames ps) p1 ∙ append_assoc (pending s) (frame p) (frames ps),
      )

  read_frames-frames :
      (ps : List Bytes) (s : S) (rest : Bytes)
      → All IsSmall ps
      → pending s ≡ frames ps ++ rest
      → (s' : S) × (read_frames stream (length ps) s ≡ ok (ps, s')) × (pending s' ≡ rest)
  unfolding read_frames frames
  read_frames-frames [] s rest h e = (s, refl, e)
  read_frames-frames (p ∷ ps) s rest h e =
      let (s1, e1, p1) =
        read_framed-frame stream pending laws s p (frames ps ++ rest) h.0
          (e ∙ append_assoc (frame p) (frames ps) rest) in
      let (s2, e2, p2) = read_frames-frames ps s1 rest h.1 p1 in (s2, rw (e1, e2), p2)

  -- Payloads of at most MAX_FRAME_SIZE that are written one after the other to a drained stream
  -- are read back in the same order and leave it drained, on a stream that keeps the laws of
  -- IsStream.
  pub read_frames-write_all_frames :
      (ps : List Bytes) (s : S)
      → All IsSmall ps
      → pending s ≡ []
      → (s' : S) × ((write_all_frames stream s ps >>= read_frames stream (length ps)) ≡ ok (ps, s'))
        × (pending s' ≡ [])
  read_frames-write_all_frames ps s h e =
      let (s1, e1, p1) = write_all_frames-frames ps s h in
      let (s2, e2, p2) =
        read_frames-frames ps s1 [] h
          (p1 ∙ ap (λ r. r ++ frames ps) e ∙ sym (append-nil (frames ps))) in
      (s2, rw (e1, e2), p2)
