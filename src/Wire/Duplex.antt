-- ===== src/Wire/Duplex.antt =====
-- src/wire.rs: frames on a connection with a peer, where what comes in and what goes out differ.
use qlaster_public.Base.{
  Bool, Bytes, List, [], ap, append_assoc, arith, false, from_le_bytes, from_le_bytes-to_le_bytes,
  if◌then◌else◌, inl, inr, leb, length, length-to_le_bytes, le→ltb, ltb, refl, sym, to_le_bytes,
  true, u32_max, ℕ, ◌++◌, ◌∙◌, ◌≡◌, ◌≤◌, ◌⊎◌,
}
use qlaster_public.Error.{
  IoError, QlasterError, Result, err, frame_too_large, io, ok, ok-injective, reject, unexpected_eof,
  with_ok, ◌>>=◌, ◌>>◌,
}
use qlaster_public.Extern.{IsDuplex, Stream}
use qlaster_public.Extern.System.{PassesNone}
use qlaster_public.Wire.{io_result, max_frame_size, read_framed, write_framed}
use qlaster_public.Wire.Framing.{frame}

io_result_inv : {A : Type 0} {a : A} (r : IoError ⊎ A) → io_result r ≡ ok a → r ≡ inr a
io_result_inv (inl e) h = cc
io_result_inv (inr a) h = cc

module _ {S : Type 0} (stream : Stream S) (incoming outgoing : S → Bytes)
    (laws : IsDuplex stream incoming outgoing) where
  pub write_framed-outgoing :
      (s : S) (payload : Bytes)
      → length payload ≤ u32_max
      → (s' : S) × (write_framed stream s payload ≡ ok s')
        × (incoming s' ≡ incoming s)
        × (outgoing s' ≡ outgoing s ++ frame payload)
  unfolding write_framed frame
  write_framed-outgoing s payload h =
      let (s1, e1, i1, o1) = laws.writes s (to_le_bytes 4 (length payload)) in
      let (s2, e2, i2, o2) = laws.writes s1 payload in
      let fits : leb (length payload) u32_max ≡ true = ground arith in
      (
        s2,
        rw (fits, e1, e2) refl,
        i2 ∙ i1,
        o2
            ∙ ap (λ b. b ++ payload) o1
            ∙ append_assoc (outgoing s) (to_le_bytes 4 (length payload)) payload,
      )

  pub read_framed-incoming :
      (s : S) (payload rest : Bytes)
      → length payload ≤ max_frame_size
      → incoming s ≡ frame payload ++ rest
      → (s' : S) × (read_framed stream s ≡ ok (payload, s'))
        × (incoming s' ≡ rest)
        × (outgoing s' ≡ outgoing s)
  unfolding read_framed frame
  read_framed-incoming s payload rest h e =
      let size = to_le_bytes 4 (length payload) in
      let (s1, e1, i1, o1) =
        laws.reads s size (payload ++ rest) (e ∙ append_assoc size payload rest) in
      let (s2, e2, i2, o2) = laws.reads s1 payload rest i1 in
      let e1' : stream.read_exact s 4 ≡ inr (size, s1) =
        ap (stream.read_exact s) (sym (length-to_le_bytes 4 (length payload))) ∙ e1 in
      let word : from_le_bytes size ≡ length payload =
        from_le_bytes-to_le_bytes 4 (length payload) (omega (arith, h)) in
      let small : ltb max_frame_size (length payload) ≡ false = le→ltb _ _ h in
      (s2, rw (e1', word, small, e2) refl, i2, o2 ∙ o1)

  pub read_framed_end : (s : S) → incoming s ≡ [] → read_framed stream s ≡ err (io unexpected_eof)
  unfolding read_framed
  read_framed_end s e = let missing = laws.ends s 4 (omega (arith, ap length e)) in rw missing refl

module _ {S : Type 0} (stream : Stream S) (passed : S → List (Bytes × ℕ))
    (laws : PassesNone stream passed) where
  write_both-passed :
      (s s' : S) (front back : Bytes)
      → (io_result (stream.write_all s front) >>= λ s1. io_result (stream.write_all s1 back))
        ≡ ok s'
      → passed s' ≡ passed s
  write_both-passed s s' front back h =
      with_ok (io_result (stream.write_all s front)) (λ s1. io_result (stream.write_all s1 back)) h
        λ s1 e1 e2.
          laws.writes_pass s1 s' back (io_result_inv (stream.write_all s1 back) e2)
          ∙ laws.writes_pass s s1 front (io_result_inv (stream.write_all s front) e1)

  pub write_framed-passed :
      (s s' : S) (payload : Bytes) → write_framed stream s payload ≡ ok s' → passed s' ≡ passed s
  unfolding write_framed
  write_framed-passed s s' payload h =
      with_ok
        (if leb (length payload) u32_max
          then ok (length payload)
          else err (frame_too_large (length payload)))
        (λ size. io_result (stream.write_all s (to_le_bytes 4 size)) >>= λ s1.
          io_result (stream.write_all s1 payload))
        h λ size _ h1. write_both-passed s s' (to_le_bytes 4 size) payload h1

  abbrev given : Bytes × S → Result (Bytes × S)
  given p = ok p

  read_payload-passed :
      (large : Bool) (e : QlasterError) (s s' : S) (size : ℕ) (payload : Bytes)
      → (reject large e >> (io_result (stream.read_exact s size) >>= given)) ≡ ok (payload, s')
      → passed s' ≡ passed s
  read_payload-passed true e s s' size payload h = cc
  read_payload-passed false e s s' size payload h =
      with_ok (io_result (stream.read_exact s size)) given h λ p e1 e2.
        laws.reads_pass s s' size payload
          (io_result_inv (stream.read_exact s size) e1 ∙ ap inr (ok-injective e2))

  pub read_framed-passed :
      (s s' : S) (payload : Bytes) → read_framed stream s ≡ ok (payload, s') → passed s' ≡ passed s
  unfolding read_framed
  read_framed-passed s s' payload h =
      with_ok (io_result (stream.read_exact s 4))
        (λ (p : Bytes × S).
          let size = from_le_bytes p.0 in
          reject (ltb max_frame_size size) (frame_too_large size)
          >> (io_result (stream.read_exact p.1 size) >>= given))
        h
        λ p e1 h1.
          read_payload-passed _ _ p.1 s' (from_le_bytes p.0) payload h1
          ∙ laws.reads_pass s p.1 4 p.0 (io_result_inv (stream.read_exact s 4) e1)
