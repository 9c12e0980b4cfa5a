-- ===== src/Ring.antt =====
-- src/shm/ring.rs: framing over the shared-memory byte queue. The queue is the state that the two
-- ends share; each method takes it and returns it. The file and the mapping are not modelled:
-- `create` takes the outcomes of its system calls.
pub mod Spec
pub mod Refine
pub mod Capacity
use qlaster_public.Base.{
  Bool, Bytes, List, Option, String, [], false, fetch_add, from_le_bytes, if◌then◌else◌, leb,
  length, ltb, none, not, some, suc, to_le_bytes, true, u32_max, zero, ℕ, ◌*◌, ◌++◌, ◌+◌, ◌==◌,
  ◌||◌, ◌∷◌,
}
use qlaster_public.Error.{
  IoError, Message, Result, capacity_too_small, create_parent_dir, err, frame_exceeds_capacity, ok,
  open_file, payload_too_large, reject, shaq_create, shaq_join, shm_error, shm_full, ◌>>=◌, ◌>>◌,
}
use qlaster_public.Extern.{Shaq}

abbrev pub frame_len_bytes : ℕ
frame_len_bytes = 4

abbrev pub close_sentinel : ℕ
close_sentinel = u32_max

pub record ShmRingProducer : Type 0 where
  pub capacity : ℕ
  pub dropped_frames : ℕ

pub record ShmRingConsumer : Type 0 where
  pub closed : Bool

-- What the system calls of `create` answer: an error, or nothing.
pub record CreateOutcomes : Type 0 where
  pub create_dir_all : Option IoError
  pub open_new : Option IoError
  pub shaq_create_error : Option String

abbrev pub succeeds : {E : Type 0} → Option E → (E → Message) → Result (Unit {0})
succeeds none message = ok tt
succeeds (some e) message = err (shm_error (message e))

-- `usize::next_power_of_two`: from 1, doubled at most 63 times.
unfoldable pub double_until : ℕ → ℕ → ℕ → ℕ
double_until zero p n = p
double_until (suc fuel) p n = let rest = double_until fuel (2 * p) n in if leb n p then p else rest

unfoldable pub next_power_of_two : ℕ → ℕ
unfolding double_until
next_power_of_two n = double_until 63 1 n

unfoldable pub create : String → CreateOutcomes → ℕ → Result ShmRingProducer
create path os capacity = do
  reject (ltb capacity 64) (shm_error (capacity_too_small capacity))
  succeeds os.create_dir_all create_parent_dir
  succeeds os.open_new (open_file path)
  let normalized_capacity = next_power_of_two capacity
  succeeds os.shaq_create_error shaq_create
  ok (record { capacity = normalized_capacity; dropped_frames = 0 })

-- `parts.iter().map(|p| p.len()).sum()`; slices in memory do not exceed `usize` together.
unfoldable pub total_len : List Bytes → ℕ
total_len [] = 0
total_len (part ∷ parts) = length part + total_len parts

-- The loop of `extend_from_slice`.
unfoldable pub concat_parts : List Bytes → Bytes
concat_parts [] = []
concat_parts (part ∷ parts) = part ++ concat_parts parts

module _ {Q : Type 0} (shaq : Shaq Q) where
  unfoldable pub write_frame : ShmRingProducer → Q → Bytes → Result (Unit {0}) × ShmRingProducer × Q
  write_frame p q frame =
      let (written, q') = shaq.try_write_slice q frame in
      if written
      then (ok tt, p, q')
      else (err shm_full, record p { dropped_frames = fetch_add p.dropped_frames 1 }, q')

  unfoldable pub try_push :
      ShmRingProducer → Q → List Bytes → Result (Unit {0}) × ShmRingProducer × Q
  try_push p q parts =
      let body_len = total_len parts in
      let frame_size = frame_len_bytes + body_len in
      if ltb u32_max body_len
      then (err (payload_too_large body_len u32_max), p, q)
      else if ltb p.capacity frame_size
      then (err (shm_error (frame_exceeds_capacity frame_size p.capacity)), p, q)
      else write_frame p q (to_le_bytes 4 body_len ++ concat_parts parts)

  unfoldable pub close : Q → Q
  close q = (shaq.try_write_slice q (to_le_bytes 4 close_sentinel)).1

  -- A batch of another size than asked for is an error that is logged.
  unfoldable pub whole_batch : ℕ → Option Bytes → Option Bytes
  whole_batch len none = none
  whole_batch len (some batch) = if length batch == len then some batch else none

  unfoldable pub read_exact : Q → ℕ → Option Bytes × Q
  read_exact q len = let (batch, q') = shaq.read_batch q len in (whole_batch len batch, q')

  -- `try_pop` behind the read of the length.
  unfoldable pub pop_body : ShmRingConsumer → Q → Option Bytes → Option Bytes × ShmRingConsumer × Q
  pop_body c q none = (none, c, q)
  pop_body c q (some len_bytes) =
      let frame_len = from_le_bytes len_bytes in
      let (body, q') = read_exact q frame_len in
      if not (length len_bytes == 4)
      then (none, c, q)
      else if frame_len == close_sentinel
      then (none, record c { closed = true }, q)
      else if frame_len == 0
      then (some [], c, q)
      else (body, c, q')

  unfoldable pub try_pop : ShmRingConsumer → Q → Option Bytes × ShmRingConsumer × Q
  try_pop c q = let (len_bytes, q') = read_exact q frame_len_bytes in pop_body c q' len_bytes

abbrev pub is_closed : ShmRingConsumer → Bool → Bool
is_closed c path_exists = c.closed || not path_exists

-- What the system calls of `ShmRingConsumer::open` answer.
pub record OpenOutcomes : Type 0 where
  pub open_existing : Option IoError
  pub shaq_join_error : Option String

-- `ShmRingConsumer::open`.
unfoldable pub open_consumer : String → OpenOutcomes → Result ShmRingConsumer
open_consumer path os = do
  succeeds os.open_existing (open_file path)
  succeeds os.shaq_join_error shaq_join
  ok (record { closed = false })
