-- ===== src/Tests/Updates.antt =====
-- Account, transaction and slot updates through their encoders and decoders.
use native.Mathlib.Decide.{ℕ_discrete}
use qlaster_public.Base.{
  Bool, Bytes, IsBytes, [], ap, arith, from_le_bytes, inl, inr, length, ltb, refl, replicate, suc,
  take, to_le_bytes, true, zero, ℕ, ◌&&◌, ◌∷◌, ◌≡◌, ◌≤◌, ◌⊎◌,
}
use qlaster_public.Error.{ok, ◌>>=◌}
use qlaster_public.Types.{decode_flag, ensure_wire, sent_at}
use qlaster_public.Types.Cursor.{
  get_range, take_array_32, take_array_64, take_exact, take_u32_le, take_u64_le, take_u8, to_array,
}
use qlaster_public.Types.AccountPayload
use qlaster_public.Types.TransactionPayload
use qlaster_public.Types.Account
use qlaster_public.Types.Account.RoundTrip.{account_decode_with_meta-encode, layout}
use qlaster_public.Types.Account.Canonical.{Encodes, account_decode_with_meta-Encodes}
use qlaster_public.Types.Compression.{Pays, choose_payload, choose_payload_cases}
use qlaster_public.Types.Transaction
use qlaster_public.Types.Transaction.RoundTrip as TransactionRoundTrip
use qlaster_public.Types.Transaction.RoundTrip.{transaction_decode_with_meta-encode}
use qlaster_public.Types.Transaction.Canonical.{transaction_encode-decode_with_meta}
use qlaster_public.Types.Slot
use qlaster_public.Types.Slot.RoundTrip.{slot_decode_with_meta-encode, slot_encode-decode_with_meta}
use qlaster_public.Tests.Models.{Key, all_zero, keys, keys-IsPubkeyApi, zeros_lz4, zeros_lz4-IsLz4}

-- A test for bytes.
abbrev in_range : Bytes → Bool
in_range [] = true
in_range (b ∷ bs) = ltb b 256 && in_range bs

in_range_sound : (bs : Bytes) → in_range bs ≡ true → IsBytes bs
in_range_sound [] h = tt
in_range_sound (b ∷ bs) h = (ground arith, in_range_sound bs (ground arith))

abbrev pub account : Account.AccountUpdate Key
account = record {
  account_pubkey = keys.new_from_array (replicate 32 0);
  account_owner = keys.new_from_array (replicate 32 0);
  lamports = 5;
  executable = true;
  rent_epoch = 0;
  slot = 300;
  write_version = 1;
  payload = record { bytes = 0 ∷ 0 ∷ 0 ∷ [] };
}

pub account-IsAccountUpdate : Account.IsAccountUpdate account
account-IsAccountUpdate = record {
  lamports_fits = omega arith;
  rent_epoch_fits = omega arith;
  slot_fits = omega arith;
  write_version_fits = omega arith;
  payload_size = omega arith;
}

-- The frame of `account` with its payload compressed to nothing.
abbrev packed_account : Bytes
packed_account = layout keys account 7 1 3 []

packed_account-IsBytes : IsBytes packed_account
unfolding layout to_le_bytes ℕ_discrete
packed_account-IsBytes = in_range_sound packed_account refl

packed_account_decodes :
    Account.decode_with_meta keys zeros_lz4 packed_account ≡ ok (account, sent_at 7)
unfolding Account.decode_with_meta Account.parse layout to_le_bytes take_u64_le take_exact get_range
    to_array from_le_bytes ensure_wire take_array_32 take_u8 take_u32_le decode_flag
    Account.unpack_payload Account.check_decompressed Account.from_decoded AccountPayload.from_bytes
    AccountPayload.new ℕ_discrete
packed_account_decodes = refl

account_decode_with_meta-encode_example :
    (Account.encode keys zeros_lz4 account 7 >>= Account.decode_with_meta keys zeros_lz4)
    ≡ ok (account, sent_at 7)
account_decode_with_meta-encode_example =
    account_decode_with_meta-encode keys zeros_lz4 account 7 keys-IsPubkeyApi zeros_lz4-IsLz4
      account-IsAccountUpdate (omega arith)

account_decode_with_meta-Encodes_example :
    Encodes keys keys-IsPubkeyApi zeros_lz4 account 7 packed_account
    × Account.IsAccountUpdate account
account_decode_with_meta-Encodes_example =
    account_decode_with_meta-Encodes keys keys-IsPubkeyApi zeros_lz4 packed_account account
      (sent_at 7) packed_account-IsBytes packed_account_decodes

-- Zeros enough are compressed to nothing.
abbrev many_zeros : Bytes
many_zeros = replicate 512000 0

choose_payload_cases_example :
    (Pays zeros_lz4 many_zeros
      × (choose_payload zeros_lz4 many_zeros ≡ (1, zeros_lz4.compress many_zeros)))
    ⊎ (¬ (Pays zeros_lz4 many_zeros) × (choose_payload zeros_lz4 many_zeros ≡ (0, many_zeros)))
choose_payload_cases_example = choose_payload_cases zeros_lz4 many_zeros

replicate_zeros : (n : ℕ) → all_zero (replicate n 0) ≡ true
unfolding all_zero
replicate_zeros zero = refl
replicate_zeros (suc n) = replicate_zeros n

take_zeros : (k n : ℕ) → all_zero (take k (replicate n 0)) ≡ true
unfolding all_zero
take_zeros zero n = refl
take_zeros (suc k) zero = refl
take_zeros (suc k) (suc n) = take_zeros k n

length_zeros : (n : ℕ) → length {A = ℕ} (replicate n 0) ≡ n
length_zeros zero = refl
length_zeros (suc n) = ap suc (length_zeros n)

all_zero_compressed : (b : Bytes) → all_zero b ≡ true → zeros_lz4.compress b ≡ []
all_zero_compressed b h = rw h refl

zeros_pay :
    (n : ℕ)
    → 512000 ≤ n
    → choose_payload zeros_lz4 (replicate n 0) ≡ (1, zeros_lz4.compress (replicate n 0))
zeros_pay n h =
    let size = length_zeros n in
    let whole = ap length (all_zero_compressed (replicate n 0) (replicate_zeros n)) in
    let sample = ap length (all_zero_compressed (take 8192 (replicate n 0)) (take_zeros 8192 n)) in
    elim (choose_payload_cases zeros_lz4 (replicate n 0)) [
      | inl (_, e) ↦ e
      | inr (never, _) ↦
          absurd
            (never (omega (arith, size, h), omega (arith, size, whole, h), omega (arith, sample)))
    ]

abbrev pub transaction : Transaction.TransactionUpdate
transaction = record {
  slot = 300;
  index = 4;
  signature = replicate 64 1;
  is_vote = true;
  payload = record { bytes = 8 ∷ 9 ∷ [] };
}

pub transaction-IsTransactionUpdate : Transaction.IsTransactionUpdate transaction
transaction-IsTransactionUpdate = record {
  slot_fits = omega arith;
  index_fits = omega arith;
  signature_size = refl;
  payload_size = omega arith;
}

abbrev transaction_frame : Bytes
transaction_frame = TransactionRoundTrip.layout transaction 7

transaction_frame-IsBytes : IsBytes transaction_frame
unfolding TransactionRoundTrip.layout to_le_bytes
transaction_frame-IsBytes = in_range_sound transaction_frame refl

transaction_frame_decodes :
    Transaction.decode_with_meta transaction_frame ≡ ok (transaction, sent_at 7)
unfolding Transaction.decode_with_meta TransactionRoundTrip.layout Transaction.parse to_le_bytes
    take_u64_le take_exact get_range to_array from_le_bytes ensure_wire take_u32_le take_u8
    decode_flag take_array_64 Transaction.from_decoded TransactionPayload.from_bytes
    TransactionPayload.new
transaction_frame_decodes = refl

transaction_decode_with_meta-encode_example :
    (Transaction.encode transaction 7 >>= Transaction.decode_with_meta)
    ≡ ok (transaction, sent_at 7)
transaction_decode_with_meta-encode_example =
    transaction_decode_with_meta-encode transaction 7 transaction-IsTransactionUpdate (omega arith)

transaction_encode-decode_with_meta_example :
    (Transaction.encode transaction 7 ≡ ok transaction_frame)
    × Transaction.IsTransactionUpdate transaction
transaction_encode-decode_with_meta_example =
    transaction_encode-decode_with_meta transaction_frame transaction (sent_at 7)
      transaction_frame-IsBytes transaction_frame_decodes

abbrev pub slot_300 : Slot.SlotUpdate
slot_300 = record { slot = 300 }

abbrev pub slot_frame : Bytes
slot_frame = 9 ∷ 7 ∷ 7 ∷ 0 ∷ 0 ∷ 0 ∷ 0 ∷ 0 ∷ 0 ∷ 0 ∷ 44 ∷ 1 ∷ 0 ∷ 0 ∷ 0 ∷ 0 ∷ 0 ∷ 0 ∷ []

slot_decode_with_meta-encode_example :
    (Slot.encode slot_300 7 >>= Slot.decode_with_meta) ≡ ok (slot_300, sent_at 7)
slot_decode_with_meta-encode_example =
    slot_decode_with_meta-encode slot_300 7 (omega arith) (omega arith)

slot_frame_decodes : Slot.decode_with_meta slot_frame ≡ ok (slot_300, sent_at 7)
unfolding Slot.decode_with_meta Slot.parse take_u64_le take_exact get_range to_array from_le_bytes
    ensure_wire
slot_frame_decodes = refl

slot_encode-decode_with_meta_example : Slot.encode slot_300 7 ≡ ok slot_frame
slot_encode-decode_with_meta_example =
    slot_encode-decode_with_meta slot_frame slot_300 (sent_at 7) (in_range_sound slot_frame refl)
      slot_frame_decodes
