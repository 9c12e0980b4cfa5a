-- ===== src/Extern/System.antt =====
-- The system calls that the code makes: records of the calls, and beside each the documented
-- behaviour that a theorem assumes.
use qlaster_public.Base.{
  Bytes, List, [], from_le_bytes, inl, inr, length, min, take, to_le_bytes, u64_max, ℕ, ◌++◌, ◌+◌,
  ◌<◌, ◌∷◌, ◌≡◌, ◌≤◌, ◌⊎◌,
}
use qlaster_public.Error.{IoError, interrupted, would_block}
use qlaster_public.Extern.{Stream}

-- `write(2)` and `read(2)` on a descriptor that does not block: the number of bytes written, or the
-- bytes read into a buffer of that size.
pub record Descriptor (F : Type 0) : Type 0 where
  pub write : F → Bytes → (IoError ⊎ ℕ) × F
  pub read : F → ℕ → (IoError ⊎ Bytes) × F

-- `eventfd(2)`: a counter that a write of 8 bytes raises, to 2^64 - 2 at most, and a read takes. A
-- signal interrupts the next `signals f` calls.
pub record IsEventfd {F : Type 0} (fd : Descriptor F) (count signals : F → ℕ) : Type 0 where
  pub write_interrupted :
      (f : F) (bytes : Bytes)
      → 0 < signals f
      → (f' : F) × (fd.write f bytes ≡ (inl interrupted, f'))
        × (count f' ≡ count f)
        × (signals f' + 1 ≡ signals f)
  pub raises :
      (f : F) (bytes : Bytes)
      → signals f ≡ 0
      → length bytes ≡ 8
      → count f + from_le_bytes bytes < u64_max
      → (f' : F) × (fd.write f bytes ≡ (inr 8, f'))
        × (count f' ≡ count f + from_le_bytes bytes)
        × (signals f' ≡ 0)
  pub saturated :
      (f : F) (bytes : Bytes)
      → signals f ≡ 0
      → length bytes ≡ 8
      → u64_max ≤ count f + from_le_bytes bytes
      → fd.write f bytes ≡ (inl would_block, f)
  pub read_interrupted :
      (f : F) (n : ℕ)
      → 0 < signals f
      → (f' : F) × (fd.read f n ≡ (inl interrupted, f'))
        × (count f' ≡ count f)
        × (signals f' + 1 ≡ signals f)
  pub takes :
      (f : F) (n : ℕ)
      → signals f ≡ 0
      → 8 ≤ n
      → 0 < count f
      → (f' : F) × (fd.read f n ≡ (inr (to_le_bytes 8 (count f)), f'))
        × (count f' ≡ 0)
        × (signals f' ≡ 0)
  pub nothing : (f : F) (n : ℕ) → signals f ≡ 0 → count f ≡ 0 → fd.read f n ≡ (inl would_block, f)

-- `pipe(2)`, both ends open: `pending f` bytes were written and not read, `room` at most.
pub record IsPipe {F : Type 0} (fd : Descriptor F) (pending signals : F → ℕ) (room : ℕ)
    : Type 0 where
  pub write_interrupted :
      (f : F) (bytes : Bytes)
      → 0 < signals f
      → (f' : F) × (fd.write f bytes ≡ (inl interrupted, f'))
        × (pending f' ≡ pending f)
        × (signals f' + 1 ≡ signals f)
  pub writes :
      (f : F) (b : ℕ)
      → signals f ≡ 0
      → pending f < room
      → (f' : F) × (fd.write f (b ∷ []) ≡ (inr 1, f'))
        × (pending f' ≡ pending f + 1)
        × (signals f' ≡ 0)
  pub full :
      (f : F) (b : ℕ)
      → signals f ≡ 0
      → room ≤ pending f
      → fd.write f (b ∷ []) ≡ (inl would_block, f)
  pub read_interrupted :
      (f : F) (n : ℕ)
      → 0 < signals f
      → (f' : F) × (fd.read f n ≡ (inl interrupted, f'))
        × (pending f' ≡ pending f)
        × (signals f' + 1 ≡ signals f)
  pub takes :
      (f : F) (n : ℕ)
      → signals f ≡ 0
      → 0 < pending f
      → 0 < n
      → (f' : F) × (bytes : Bytes) × (fd.read f n ≡ (inr bytes, f'))
        × (length bytes ≡ min n (pending f))
        × (pending f' + length bytes ≡ pending f)
        × (signals f' ≡ 0)
  pub empty : (f : F) (n : ℕ) → signals f ≡ 0 → pending f ≡ 0 → fd.read f n ≡ (inl would_block, f)

-- `sendmsg(2)` and `recvmsg(2)` on a Unix-domain socket, behind `async_io`, which waits until a call
-- would not block. A control message carries descriptors (`SCM_RIGHTS`), or something else.
pub data ControlMessage : Type 0 where
  rights : ℕ → List ℕ → ControlMessage
  other_control : ControlMessage

pub record MessageSocket (S : Type 0) : Type 0 where
  pub sendmsg : S → Bytes → ℕ → (IoError ⊎ ℕ) × S
  pub recvmsg : S → ℕ → (IoError ⊎ (Bytes × List ControlMessage)) × S

-- A socket whose peer reads one message at a time: a message is sent whole with its descriptor, and
-- a receive into a large enough buffer gives the oldest one.
pub record IsMessageSocket {S : Type 0} (socket : MessageSocket S) (messages : S → List (Bytes × ℕ))
    : Type 0 where
  pub sends :
      (s : S) (bytes : Bytes) (fd : ℕ)
      → (s' : S) × (socket.sendmsg s bytes fd ≡ (inr (length bytes), s'))
        × (messages s' ≡ messages s ++ ((bytes, fd) ∷ []))
  pub receives :
      (s : S) (bytes : Bytes) (fd n : ℕ) (rest : List (Bytes × ℕ))
      → messages s ≡ (bytes, fd) ∷ rest
      → (s' : S) × (socket.recvmsg s n ≡ (inr (take n bytes, rights fd [] ∷ []), s'))
        × (length bytes ≤ n → messages s' ≡ rest)

-- A socket that sends each message whole, behind what was written before: what comes in stays, the
-- bytes go out, and the descriptor is passed with them.
pub record SendsWhole {S : Type 0} (socket : MessageSocket S) (incoming outgoing : S → Bytes)
    (passed : S → List (Bytes × ℕ)) : Type 0 where
  pub sends_whole :
      (s : S) (bytes : Bytes) (fd : ℕ)
      → (s' : S) × (socket.sendmsg s bytes fd ≡ (inr (length bytes), s'))
        × (incoming s' ≡ incoming s)
        × (outgoing s' ≡ outgoing s ++ bytes)
        × (passed s' ≡ passed s ++ ((bytes, fd) ∷ []))

-- A read or a write of a stream passes no descriptor.
pub record PassesNone {S : Type 0} (stream : Stream S) (passed : S → List (Bytes × ℕ))
    : Type 0 where
  pub reads_pass :
      (s s' : S) (n : ℕ) (bytes : Bytes)
      → stream.read_exact s n ≡ inr (bytes, s')
      → passed s' ≡ passed s
  pub writes_pass :
      (s s' : S) (bytes : Bytes) → stream.write_all s bytes ≡ inr s' → passed s' ≡ passed s
