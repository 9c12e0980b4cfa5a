-- ===== src/Types/Compression.antt =====
-- src/types.rs: `should_attempt_lz4`, and the choice that `AccountUpdate::encode_parts_at` makes
-- with it.
use Prim.Native.Nat.{bit_or}
use qlaster_public.Base.{
  Bool, Bytes, arith, dec_le, dec_lt, false, if◌then◌else◌, inl, inr, leb, length, ltb, min, take,
  true, ℕ, refl, ◌&&◌, ◌*◌, ◌+◌, ◌-◌, ◌/◌, ◌<◌, ◌==◌, ◌≡◌, ◌≤◌, ◌⊎◌,
}
use qlaster_public.Extern.{Lz4}
use qlaster_public.Types.{
  account_update_compression_min_gain_bps, account_update_compression_sample_bytes,
  account_update_compression_threshold_bytes, account_update_flag_lz4,
}

-- The test of `sample_gains` on a sample of 8192 bytes that shrinks to `c`.
gains :
    (c : ℕ)
    → (((if leb 8192 c then false else leb 75 ((8192 - c) * 10000 / 8192)) ≡ true)
        × (75 * 8192 + 10000 * c ≤ 10000 * 8192))
      ⊎ (((if leb 8192 c then false else leb 75 ((8192 - c) * 10000 / 8192)) ≡ false)
          × (10000 * 8192 < 75 * 8192 + 10000 * c))
gains c = ground arith

unless : {A : Type 0} (test : Bool) (a b : A) → (if test && false then a else b) ≡ b
unless true a b = refl
unless false a b = refl

module _ (lz4 : Lz4) where
  -- The part of the test behind the two early returns: does a sample shrink enough?
  unfoldable pub sample_gains : Bytes → Bool
  sample_gains payload =
      let sample_len = min (length payload) account_update_compression_sample_bytes in
      let compressed_len = length (lz4.compress (take sample_len payload)) in
      if leb sample_len compressed_len
      then false
      else leb account_update_compression_min_gain_bps
          ((sample_len - compressed_len) * 10000 / sample_len)

  unfoldable pub should_attempt_lz4 : Bytes → Bool
  should_attempt_lz4 payload =
      if ltb (length payload) account_update_compression_threshold_bytes
      then false
      else if account_update_compression_min_gain_bps == 0
      then true
      else sample_gains payload

  -- The flags and the payload that go on the wire.
  unfoldable pub choose_payload : Bytes → ℕ × Bytes
  choose_payload raw =
      let compressed = lz4.compress raw in
      if should_attempt_lz4 raw && ltb (length compressed) (length raw)
      then (bit_or 0 account_update_flag_lz4, compressed)
      else (0, raw)

  -- Compression pays: the payload reaches the threshold and shrinks, and so does the sample at its
  -- front, by at least the minimal gain, in units of 1 / 10000 of its size.
  abbrev pub Pays : Bytes → Type 0
  Pays raw =
      (account_update_compression_threshold_bytes ≤ length raw)
      × (length (lz4.compress raw) < length raw)
      × (account_update_compression_min_gain_bps * account_update_compression_sample_bytes
            + 10000 * length (lz4.compress (take account_update_compression_sample_bytes raw))
          ≤ 10000 * account_update_compression_sample_bytes)

  -- Of a payload over the threshold, the sample is 8192 bytes, and the quotient that is compared
  -- reaches the minimal gain exactly where the sizes without a division do.
  sample_gains_iff :
      (raw : Bytes)
      → account_update_compression_threshold_bytes ≤ length raw
      → ((sample_gains raw ≡ true)
          × (75 * 8192 + 10000 * length (lz4.compress (take 8192 raw)) ≤ 10000 * 8192))
        ⊎ ((sample_gains raw ≡ false)
            × (10000 * 8192 < 75 * 8192 + 10000 * length (lz4.compress (take 8192 raw))))
  unfolding sample_gains
  sample_gains_iff raw h =
      let sample : min (length raw) 8192 ≡ 8192 = omega (arith, h) in
      rw sample (gains (length (lz4.compress (take 8192 raw))))

  -- Exactly where compression pays, the compressed payload goes on the wire with the flag 1, and
  -- everywhere else the payload goes as it is with no flag; it pays where the payload reaches the
  -- threshold of 500 KiB, its compression is shorter, and the compression of its first 8 KiB is
  -- shorter than them by 75 in 10000 or more.
  pub choose_payload_cases :
      (raw : Bytes)
      → (Pays raw × (choose_payload raw ≡ (1, lz4.compress raw)))
        ⊎ (¬ (Pays raw) × (choose_payload raw ≡ (0, raw)))
  unfolding choose_payload should_attempt_lz4
  choose_payload_cases raw = elim (dec_le 512000 (length raw)) [
    | no small ↦
        let below : ltb (length raw) 512000 ≡ true = ground (arith, small) in
        inr (λ p. small p.0, rw below refl)
    | yes large ↦
        let over : ltb (length raw) 512000 ≡ false = ground (arith, large) in
        elim (dec_lt (length (lz4.compress raw)) (length raw)) [
          | no longer ↦
              let kept : ltb (length (lz4.compress raw)) (length raw) ≡ false =
                ground (arith, longer) in
              inr (λ p. longer p.1, rw (over, kept) (unless (sample_gains raw) _ _))
          | yes shorter ↦
              let shrinks : ltb (length (lz4.compress raw)) (length raw) ≡ true =
                ground (arith, shorter) in
              elim (sample_gains_iff raw large) [
                | inl (gains, enough) ↦
                    inl ((large, shorter, enough), rw (over, shrinks, gains) refl)
                | inr (gains, little) ↦ inr (λ p. omega (arith, little, p.2), rw (over, gains) refl)
              ]
        ]
  ]
