-- ===== src/Wire.antt =====
-- src/wire.rs: length-prefixed frames over a byte stream. An operation returns the stream after it;
-- after an error the callers drop the stream.
pub mod Framing
pub mod Duplex
use qlaster_public.Base.{
  Bytes, from_le_bytes, if◌then◌else◌, inl, inr, leb, length, ltb, to_le_bytes, u32_max, ℕ, ◌*◌,
  ◌⊎◌,
}
use qlaster_public.Error.{IoError, Result, err, frame_too_large, io, ok, reject, ◌>>=◌, ◌>>◌}
use qlaster_public.Extern.{Stream}

abbrev pub max_frame_size : ℕ
max_frame_size = 16 * 1024 * 1024

-- `?` on an `io::Result`.
abbrev pub io_result : {A : Type 0} → IoError ⊎ A → Result A
io_result (inl e) = err (io e)
io_result (inr a) = ok a

module _ {S : Type 0} (stream : Stream S) where
  unfoldable pub read_framed : S → Result (Bytes × S)
  read_framed s = do
    (len, s1) ← io_result (stream.read_exact s 4)
    let size = from_le_bytes len
    reject (ltb max_frame_size size) (frame_too_large size)
    (payload, s2) ← io_result (stream.read_exact s1 size)
    ok (payload, s2)

  unfoldable pub write_framed : S → Bytes → Result S
  write_framed s payload = do
    size ←
        if leb (length payload) u32_max
        then ok (length payload)
        else err (frame_too_large (length payload))
    s1 ← io_result (stream.write_all s (to_le_bytes 4 size))
    io_result (stream.write_all s1 payload)
