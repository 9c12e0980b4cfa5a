-- ===== src/Types/Cursor.antt =====
-- src/types.rs, `take_exact` and the readers over it. A reader takes the frame and the cursor,
-- and returns the value and the cursor after it.
pub mod Reads
pub mod Inverts
use qlaster_public.Base.{
  Bytes, Option, String, checked_add, drop, from_le_bytes, get_elem?, if◌then◌else◌, leb, length,
  none, some, take, ℕ, ◌&&◌, ◌-◌, ◌==◌,
}
use qlaster_public.Error.{Result, err, malformed_payload, ok, ok_or, or_panic, ◌>>=◌, ◌>>◌}

-- `bytes.get(from..to)`: `none` unless `from ≤ to ≤ len`.
unfoldable pub get_range : Bytes → ℕ → ℕ → Option Bytes
get_range bytes from to =
    if leb from to && leb to (length bytes) then some (take (to - from) (drop from bytes)) else none

unfoldable pub take_exact : Bytes → ℕ → ℕ → String → Result (Bytes × ℕ)
take_exact bytes cursor len context = do
  end ← ok_or (checked_add cursor len) (malformed_payload context)
  slice ← ok_or (get_range bytes cursor end) (malformed_payload context)
  ok (slice, end)

-- `raw.try_into()` to an array of `n` bytes.
unfoldable pub to_array : ℕ → Bytes → String → Result Bytes
to_array n raw context = if length raw == n then ok raw else err (malformed_payload context)

unfoldable pub take_u8 : Bytes → ℕ → Result (ℕ × ℕ)
take_u8 bytes cursor = do
  (raw, cursor') ← take_exact bytes cursor 1 "account update u8 out of bounds"
  b ← or_panic (get_elem? raw 0)
  ok (b, cursor')

unfoldable pub take_u32_le : Bytes → ℕ → Result (ℕ × ℕ)
take_u32_le bytes cursor = do
  (raw, cursor') ← take_exact bytes cursor 4 "account update u32 out of bounds"
  array ← to_array 4 raw "account update bad u32"
  ok (from_le_bytes array, cursor')

unfoldable pub take_u64_le : Bytes → ℕ → Result (ℕ × ℕ)
take_u64_le bytes cursor = do
  (raw, cursor') ← take_exact bytes cursor 8 "account update u64 out of bounds"
  array ← to_array 8 raw "account update bad u64"
  ok (from_le_bytes array, cursor')

unfoldable pub take_array_32 : Bytes → ℕ → Result (Bytes × ℕ)
take_array_32 bytes cursor = do
  (raw, cursor') ← take_exact bytes cursor 32 "account update [u8;32] out of bounds"
  array ← to_array 32 raw "account update bad [u8;32]"
  ok (array, cursor')

unfoldable pub take_array_64 : Bytes → ℕ → Result (Bytes × ℕ)
take_array_64 bytes cursor = do
  (raw, cursor') ← take_exact bytes cursor 64 "transaction update [u8;64] out of bounds"
  array ← to_array 64 raw "transaction update bad [u8;64]"
  ok (array, cursor')
