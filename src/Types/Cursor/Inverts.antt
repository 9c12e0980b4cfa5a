-- ===== src/Types/Cursor/Inverts.antt =====
-- The readers of src/types.rs on any frame: none panics, and a value that one returns stands in
-- the frame at the cursor.
use qlaster_public.Base.{
  All-drop, All-take, Bytes, IsByte, IsBytes, String, [], ap, ap₂, arith, drop, drop-drop,
  from_le_bytes, from_le_bytes-lt, get_elem?, length, length-drop, length-take, some, subst, subst₂,
  sym, take, take-append-drop, take-length, to_le_bytes, to_le_bytes-from_le_bytes, ℕ, ◌++◌, ◌+◌,
  ◌-◌, ◌<◌, ◌^◌, ◌∙◌, ◌∷◌, ◌≡◌, ◌≤◌,
}
use qlaster_public.Error.{>>=-Returns, >>=-eq-ok, Result, Returns, ok, or_panic, ◌>>=◌}
use qlaster_public.Types.Cursor.{
  get_range, take_array_32, take_array_64, take_exact, take_u32_le, take_u64_le, take_u8, to_array,
}

-- A slice that `take_exact` returns has the length asked for, and ends at the new cursor.
pub take_exact_slice :
    (bytes : Bytes) (cursor n : ℕ) (context : String) (s : Bytes) (next : ℕ)
    → take_exact bytes cursor n context ≡ ok (s, next)
    → (length s ≡ n)
      × (next ≡ cursor + n)
      × (next ≤ length bytes)
      × (s ≡ take n (drop cursor bytes))
unfolding take_exact get_range
take_exact_slice bytes cursor n context s next h =
    let size : cursor + n - cursor ≡ n = omega arith in
    ground (arith, size, length-take n (drop cursor bytes), length-drop cursor bytes)

pub take_exact-Returns :
    (bytes : Bytes) (cursor n : ℕ) (context : String) → Returns (take_exact bytes cursor n context)
unfolding take_exact get_range
take_exact-Returns bytes cursor n context = ground arith

pub take_u8-Returns : (bytes : Bytes) (cursor : ℕ) → Returns (take_u8 bytes cursor)
unfolding take_u8
take_u8-Returns bytes cursor =
    >>=-Returns (take_exact bytes cursor 1 "account update u8 out of bounds") _
      (take_exact-Returns bytes cursor 1 _)
      (λ (raw, next) e. one raw next (take_exact_slice bytes cursor 1 _ raw next e).0)
  where
    one :
        (raw : Bytes) (next : ℕ)
        → length raw ≡ 1
        → Returns {A = ℕ × ℕ} (or_panic (get_elem? raw 0) >>= λ b. ok (b, next))
    one [] next e = absurd (omega arith)
    one (b ∷ bs) next e = tt

-- A reader of `n` bytes with an array conversion behind it.
abbrev array_reader {ℓ} :
    {A : Type ℓ} → Bytes → ℕ → ℕ → String → String → (Bytes → A) → Result (A × ℕ)
array_reader bytes cursor n context bad f = do
  (raw, cursor') ← take_exact bytes cursor n context
  array ← to_array n raw bad
  ok (f array, cursor')

array_reader-Returns {ℓ} :
    {A : Type ℓ} (bytes : Bytes) (cursor n : ℕ) (context bad : String) (f : Bytes → A)
    → Returns (array_reader bytes cursor n context bad f)
unfolding to_array
array_reader-Returns bytes cursor n context bad f =
    >>=-Returns (take_exact bytes cursor n context) _ (take_exact-Returns bytes cursor n context)
      (λ (raw, next) e. ground arith)

array_reader-eq-ok {ℓ} :
    {A : Type ℓ} (bytes : Bytes) (cursor n : ℕ) (context bad : String) (f : Bytes → A) (a : A)
    (next : ℕ)
    → array_reader bytes cursor n context bad f ≡ ok (a, next)
    → (s : Bytes) × (a ≡ f s) × (take_exact bytes cursor n context ≡ ok (s, next))
unfolding to_array
array_reader-eq-ok bytes cursor n context bad f a next h =
    let ((raw, end), e, k) = >>=-eq-ok (take_exact bytes cursor n context) _ h in
    (raw, ground arith, ground arith)

pub take_u32_le-Returns : (bytes : Bytes) (cursor : ℕ) → Returns (take_u32_le bytes cursor)
unfolding take_u32_le
take_u32_le-Returns bytes cursor =
    array_reader-Returns bytes cursor 4 "account update u32 out of bounds" "account update bad u32"
      from_le_bytes

pub take_u64_le-Returns : (bytes : Bytes) (cursor : ℕ) → Returns (take_u64_le bytes cursor)
unfolding take_u64_le
take_u64_le-Returns bytes cursor =
    array_reader-Returns bytes cursor 8 "account update u64 out of bounds" "account update bad u64"
      from_le_bytes

pub take_array_32-Returns : (bytes : Bytes) (cursor : ℕ) → Returns (take_array_32 bytes cursor)
unfolding take_array_32
take_array_32-Returns bytes cursor =
    array_reader-Returns bytes cursor 32 "account update [u8;32] out of bounds"
      "account update bad [u8;32]" (λ raw. raw)

pub take_array_64-Returns : (bytes : Bytes) (cursor : ℕ) → Returns (take_array_64 bytes cursor)
unfolding take_array_64
take_array_64-Returns bytes cursor =
    array_reader-Returns bytes cursor 64 "transaction update [u8;64] out of bounds"
      "transaction update bad [u8;64]" (λ raw. raw)

take_exact-drop :
    (bytes : Bytes) (cursor n : ℕ) (context : String) (s : Bytes) (next : ℕ)
    → take_exact bytes cursor n context ≡ ok (s, next)
    → drop cursor bytes ≡ s ++ drop next bytes
take_exact-drop bytes cursor n context s next h =
    let (_, e, _, slice) = take_exact_slice bytes cursor n context s next h in
    rw (slice, e, ← drop-drop cursor n bytes) (sym (take-append-drop n (drop cursor bytes)))

module _ (bytes : Bytes) (cursor : ℕ) (next : ℕ) where
  -- The byte that `take_u8` returns is the next one of the frame.
  pub take_u8-drop :
      (b : ℕ)
      → take_u8 bytes cursor ≡ ok (b, next)
      → (drop cursor bytes ≡ b ∷ drop next bytes) × (next ≡ cursor + 1)
  unfolding take_u8
  take_u8-drop b h =
      let ((raw, end), e, k) =
        >>=-eq-ok (take_exact bytes cursor 1 "account update u8 out of bounds") _ h in
      one raw end (take_exact_slice bytes cursor 1 _ raw end e)
        (take_exact-drop bytes cursor 1 _ raw end e) k
    where
      one :
          (raw : Bytes) (end : ℕ)
          → (length raw ≡ 1)
            × (end ≡ cursor + 1)
            × (end ≤ length bytes)
            × (raw ≡ take 1 (drop cursor bytes))
          → drop cursor bytes ≡ raw ++ drop end bytes
          → ◌≡◌ {A = Result (ℕ × ℕ)}
              (or_panic (get_elem? raw 0) >>= λ b'. ok (b', end))
              (ok (b, next))
          → (drop cursor bytes ≡ b ∷ drop next bytes) × (next ≡ cursor + 1)
      one [] end f d k = absurd (omega arith)
      one (x ∷ []) end f d k = (cc, cc)
      one (x ∷ y ∷ zs) end f d k = absurd (omega arith)

  -- The bytes that an array reader returns are the next ones of the frame.
  array_reader-drop :
      (n : ℕ) (context bad : String) (key : Bytes)
      → array_reader bytes cursor n context bad (λ raw. raw) ≡ ok (key, next)
      → (drop cursor bytes ≡ key ++ drop next bytes) × (next ≡ cursor + n) × (length key ≡ n)
  array_reader-drop n context bad key h =
      let (s, e, k) = array_reader-eq-ok bytes cursor n context bad (λ raw. raw) key next h in
      let (size, end, _, _) = take_exact_slice bytes cursor n context s next k in
      rw e (take_exact-drop bytes cursor n context s next k, end, size)

  -- The word that a reader returns fits its width, and its encoding is what stands next.
  word_reader-drop :
      (width : ℕ) (context bad : String) (n : ℕ)
      → IsBytes bytes
      → array_reader bytes cursor width context bad from_le_bytes ≡ ok (n, next)
      → (drop cursor bytes ≡ to_le_bytes width n ++ drop next bytes)
        × (next ≡ cursor + width)
        × (n < 256 ^ width)
  word_reader-drop width context bad n all h =
      let (s, e, k) = array_reader-eq-ok bytes cursor width context bad from_le_bytes n next h in
      let (size, end, _, slice) = take_exact_slice bytes cursor width context s next k in
      let bs : IsBytes s =
        subst IsBytes (sym slice) (All-take IsByte width _ (All-drop IsByte cursor bytes all)) in
      let same : to_le_bytes width n ≡ s =
        ap₂ to_le_bytes (sym size) e ∙ to_le_bytes-from_le_bytes s bs in
      (
        take_exact-drop bytes cursor width context s next k
            ∙ ap (λ r. r ++ drop next bytes) (sym same),
        end,
        subst₂ (λ w x. x < 256 ^ w) size (sym e) (from_le_bytes-lt s bs),
      )

  pub take_u32_le-drop :
      (n : ℕ)
      → IsBytes bytes
      → take_u32_le bytes cursor ≡ ok (n, next)
      → (drop cursor bytes ≡ to_le_bytes 4 n ++ drop next bytes)
        × (next ≡ cursor + 4)
        × (n < 2 ^ 32)
  unfolding take_u32_le
  take_u32_le-drop n =
      word_reader-drop 4 "account update u32 out of bounds" "account update bad u32" n

  pub take_u64_le-drop :
      (n : ℕ)
      → IsBytes bytes
      → take_u64_le bytes cursor ≡ ok (n, next)
      → (drop cursor bytes ≡ to_le_bytes 8 n ++ drop next bytes)
        × (next ≡ cursor + 8)
        × (n < 2 ^ 64)
  unfolding take_u64_le
  take_u64_le-drop n =
      word_reader-drop 8 "account update u64 out of bounds" "account update bad u64" n

  pub take_array_32-drop :
      (key : Bytes)
      → take_array_32 bytes cursor ≡ ok (key, next)
      → (drop cursor bytes ≡ key ++ drop next bytes) × (next ≡ cursor + 32) × (length key ≡ 32)
  unfolding take_array_32
  take_array_32-drop =
      array_reader-drop 32 "account update [u8;32] out of bounds" "account update bad [u8;32]"

  pub take_array_64-drop :
      (key : Bytes)
      → take_array_64 bytes cursor ≡ ok (key, next)
      → (drop cursor bytes ≡ key ++ drop next bytes) × (next ≡ cursor + 64) × (length key ≡ 64)
  unfolding take_array_64
  take_array_64-drop =
      array_reader-drop 64 "transaction update [u8;64] out of bounds"
        "transaction update bad [u8;64]"

-- The cursor stays within the frame.
pub take_u32_le-next :
    (bytes : Bytes) (cursor n next : ℕ)
    → take_u32_le bytes cursor ≡ ok (n, next)
    → next ≤ length bytes
unfolding take_u32_le
take_u32_le-next bytes cursor n next h =
    let (s, _, k) =
      array_reader-eq-ok bytes cursor 4 "account update u32 out of bounds" "account update bad u32"
        from_le_bytes n next h in
    (take_exact_slice bytes cursor 4 _ s next k).2

-- A range that ends with the frame is what the frame holds from its start on.
pub get_range_to_end :
    (bytes : Bytes) (from to : ℕ)
    → from ≤ length bytes
    → length bytes ≡ to
    → get_range bytes from to ≡ some (drop from bytes)
unfolding get_range
get_range_to_end bytes from to h e =
    let rest : take (length bytes - from) (drop from bytes) ≡ drop from bytes =
      rw (← length-drop from bytes) (take-length (drop from bytes)) in
    rw (← e, rest) (ground (arith, h))
