-- ===== src/Uds.antt =====
-- src/shm/uds.rs: a frame with a descriptor, on Linux. The two system calls are taken from a socket;
-- `set_nosigpipe` does nothing there.
pub mod RoundTrip
use qlaster_public.Extern.System.{ControlMessage, MessageSocket, other_control, rights}
use qlaster_public.Base.{
  Bytes, List, Option, [], drop, from_le_bytes, if◌then◌else◌, inl, inr, length, ltb, none, some,
  take, to_le_bytes, u32_max, ℕ, ◌++◌, ◌+◌, ◌==◌, ◌∷◌, ◌⊎◌,
}
use qlaster_public.Error.{
  IoError, Message, Result, err, frame_too_large, larger_than_buffer, ok, plain_text,
  recvmsg_failed, sendmsg_failed, short_recvmsg, uds_error, write_zero, ◌>>=◌,
}

abbrev pub ancillary_recv_buf : ℕ
ancillary_recv_buf = 1024

-- The descriptor that a frame came with, and the descriptors that were closed.
pub record Received : Type 0 where
  pub bytes : Bytes
  pub fd : Option ℕ
  pub closed : List ℕ

-- The loop over the control messages. Of each `SCM_RIGHTS` message the first descriptor is read: the
-- first one of all is kept, the later ones are closed.
unfoldable pub scan_control : List ControlMessage → Option ℕ → List ℕ → Option ℕ × List ℕ
scan_control [] out_fd closed = (out_fd, closed)
scan_control (other_control ∷ messages) out_fd closed = scan_control messages out_fd closed
scan_control (rights fd more ∷ messages) none closed = scan_control messages (some fd) closed
scan_control (rights fd more ∷ messages) (some first) closed =
    scan_control messages (some first) (closed ++ (fd ∷ []))

-- `map_err` with the text of the call.
unfoldable pub uds_result : {A : Type 0} → (IoError → Message) → IoError ⊎ A → Result A
uds_result failed (inl e) = err (uds_error (failed e))
uds_result failed (inr a) = ok a

-- A send that writes a part only is an error.
unfoldable pub sent_whole : ℕ → IoError ⊎ ℕ → IoError ⊎ Unit {0}
sent_whole size (inl e) = inl e
sent_whole size (inr n) = if n == size then inr tt else inl write_zero

unfoldable pub with_control : IoError ⊎ (Bytes × List ControlMessage) → IoError ⊎ Received
with_control (inl e) = inl e
with_control (inr (bytes, messages)) =
    let (fd, closed) = scan_control messages none [] in
    inr (record { bytes = bytes; fd = fd; closed = closed })

-- The frame in the bytes that were received.
unfoldable pub parse_frame : Received → Result (Bytes × Option ℕ)
parse_frame r =
    let n = length r.bytes in
    let payload_len = from_le_bytes (take 4 r.bytes) in
    if n == 0
    then err (uds_error (plain_text "peer closed UDS before sending ready frame"))
    else if ltb n 4
    then err (uds_error (short_recvmsg n))
    else if ltb n (4 + payload_len)
    then err (uds_error (larger_than_buffer (4 + payload_len) n))
    else ok (take payload_len (drop 4 r.bytes), r.fd)

module _ {S : Type 0} (socket : MessageSocket S) where
  unfoldable pub sendmsg_with_fd : S → Bytes → ℕ → (IoError ⊎ Unit {0}) × S
  sendmsg_with_fd s bytes fd =
      let (n, s') = socket.sendmsg s bytes fd in (sent_whole (length bytes) n, s')

  unfoldable pub recvmsg_with_fd : S → ℕ → (IoError ⊎ Received) × S
  recvmsg_with_fd s size = let (got, s') = socket.recvmsg s size in (with_control got, s')

  unfoldable pub send_frame_with_fd : S → Bytes → ℕ → Result (Unit {0}) × S
  send_frame_with_fd s payload fd =
      let (r, s') = sendmsg_with_fd s (to_le_bytes 4 (length payload) ++ payload) fd in
      if ltb u32_max (length payload)
      then (err (frame_too_large (length payload)), s)
      else (uds_result sendmsg_failed r, s')

  unfoldable pub recv_frame_with_fd : S → Result (Bytes × Option ℕ) × S
  recv_frame_with_fd s =
      let (got, s') = recvmsg_with_fd s ancillary_recv_buf in
      (uds_result recvmsg_failed got >>= parse_frame, s')
