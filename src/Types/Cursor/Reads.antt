-- ===== src/Types/Cursor/Reads.antt =====
-- The readers of src/types.rs on a frame whose next bytes are known.
use qlaster_public.Base.{
  Bytes, String, [], add_usize, ap, arith, drop, drop-append, drop-drop, from_le_bytes-to_le_bytes,
  length, length-append, length-drop, length-to_le_bytes, refl, some, sym, take, take-append,
  take-length, to_le_bytes, ℕ, ◌++◌, ◌+◌, ◌-◌, ◌<◌, ◌^◌, ◌∙◌, ◌∷◌, ◌≡◌, ◌≤◌,
}
use qlaster_public.Error.{ok}
use qlaster_public.Types.Cursor.{
  get_range, take_array_32, take_array_64, take_exact, take_u32_le, take_u64_le, take_u8, to_array,
}

-- `rest` is what the frame holds from the cursor on, and a slice's length fits `usize`.
pub record At (bytes : Bytes) (cursor : ℕ) (rest : Bytes) : Type 0 where
  pub left : drop cursor bytes ≡ rest
  pub within : cursor ≤ length bytes
  pub fits : length bytes < 2 ^ 64

pub to_array_lem :
    {n : ℕ} (raw : Bytes) (context : String) → length raw ≡ n → to_array n raw context ≡ ok raw
unfolding to_array
to_array_lem raw context e = ground arith

module _ {bytes : Bytes} {cursor : ℕ} where
  pub length-At : (rest : Bytes) → At bytes cursor rest → length bytes ≡ cursor + length rest
  length-At rest a = omega (arith, ap length a.left, length-drop cursor bytes, a.within)

  pub At-next :
      (mid rest : Bytes) (n : ℕ)
      → At bytes cursor (mid ++ rest)
      → length mid ≡ n
      → At bytes (cursor + n) rest
  At-next mid rest n a e = record {
    left = sym (drop-drop cursor n bytes) ∙ rw (a.left, ← e) (drop-append mid rest);
    within = omega (arith, length-At (mid ++ rest) a, length-append mid rest, e);
    fits = a.fits;
  }

  pub take_exact-At :
      (mid rest : Bytes) (n : ℕ) (context : String)
      → At bytes cursor (mid ++ rest)
      → length mid ≡ n
      → take_exact bytes cursor n context ≡ ok (mid, cursor + n)
  unfolding take_exact get_range
  take_exact-At mid rest n context a e =
      let whole : length bytes ≡ cursor + (length mid + length rest) =
        omega (arith, length-At (mid ++ rest) a, length-append mid rest) in
      let size : cursor + n - cursor ≡ n = omega arith in
      let mids : take n (drop cursor bytes) ≡ mid = rw (a.left, ← e) (take-append mid rest) in
      ground (arith, whole, size, mids, a.fits, e)

  pub take_u8-At :
      (b : ℕ) (rest : Bytes)
      → At bytes cursor (b ∷ rest)
      → take_u8 bytes cursor ≡ ok (b, cursor + 1)
  unfolding take_u8
  take_u8-At b rest a = rw (take_exact-At (b ∷ []) rest 1 "account update u8 out of bounds" a refl)

  pub take_u32_le-At :
      (n : ℕ) (rest : Bytes)
      → n < 2 ^ 32
      → At bytes cursor (to_le_bytes 4 n ++ rest)
      → take_u32_le bytes cursor ≡ ok (n, cursor + 4)
  unfolding take_u32_le
  take_u32_le-At n rest h a = rw (
    take_exact-At _ rest 4 "account update u32 out of bounds" a (length-to_le_bytes 4 n),
    to_array_lem _ "account update bad u32" (length-to_le_bytes 4 n),
    from_le_bytes-to_le_bytes 4 n h,
  )

  pub take_u64_le-At :
      (n : ℕ) (rest : Bytes)
      → n < 2 ^ 64
      → At bytes cursor (to_le_bytes 8 n ++ rest)
      → take_u64_le bytes cursor ≡ ok (n, cursor + 8)
  unfolding take_u64_le
  take_u64_le-At n rest h a = rw (
    take_exact-At _ rest 8 "account update u64 out of bounds" a (length-to_le_bytes 8 n),
    to_array_lem _ "account update bad u64" (length-to_le_bytes 8 n),
    from_le_bytes-to_le_bytes 8 n h,
  )

  pub take_array_32-At :
      (key rest : Bytes)
      → length key ≡ 32
      → At bytes cursor (key ++ rest)
      → take_array_32 bytes cursor ≡ ok (key, cursor + 32)
  unfolding take_array_32 to_array
  take_array_32-At key rest e a =
      rw (take_exact-At key rest 32 "account update [u8;32] out of bounds" a e, e)

  pub take_array_64-At :
      (key rest : Bytes)
      → length key ≡ 64
      → At bytes cursor (key ++ rest)
      → take_array_64 bytes cursor ≡ ok (key, cursor + 64)
  unfolding take_array_64 to_array
  take_array_64-At key rest e a =
      rw (take_exact-At key rest 64 "transaction update [u8;64] out of bounds" a e, e)

pub At-start : (rest : Bytes) → length rest < 2 ^ 64 → At rest 0 rest
At-start rest h = record { left = refl; within = omega arith; fits = h }

-- The last part of a frame is what its range gives.
pub get_range-At :
    {bytes : Bytes} {cursor : ℕ} (mid : Bytes)
    → At bytes cursor mid
    → get_range bytes cursor (add_usize cursor (length mid)) ≡ some mid
unfolding get_range
get_range-At {bytes} {cursor} mid a =
    let whole : length bytes ≡ cursor + length mid = length-At mid a in
    let end : add_usize cursor (length mid) ≡ cursor + length mid = omega (arith, a.fits) in
    let size : cursor + length mid - cursor ≡ length mid = omega arith in
    let part : take (length mid) (drop cursor bytes) ≡ mid = rw a.left (take-length mid) in
    rw (end, size, part) (ground (arith, whole))

-- Behind the version and the tag.
pub At-body :
    (version tag : ℕ) (body : Bytes)
    → length (version ∷ tag ∷ body) < 2 ^ 64
    → At (version ∷ tag ∷ body) 2 body
At-body version tag body h = record { left = refl; within = omega arith; fits = h }
