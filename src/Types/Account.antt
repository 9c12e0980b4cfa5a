-- ===== src/Types/Account.antt =====
-- src/types.rs: `AccountUpdate` and its frame. Children prove what decoding and encoding do.
pub mod RoundTrip
pub mod Steps
pub mod Canonical
use Prim.Native.Nat.{bit_and, bit_xor}
use qlaster_public.Base.{
  Bool, Bytes, String, add_usize, if◌then◌else◌, inl, inr, length, ltb, not, to_le_bytes, ℕ, ◌++◌,
  ◌<◌, ◌==◌, ◌^◌, ◌∷◌, ◌≤◌, ◌⊎◌,
}
use qlaster_public.Error.{
  Result, decode_error, decompress_failed, err, malformed_payload, map_ok, ok, or_panic,
  payload_too_large, reject, ◌>>=◌, ◌>>◌,
}
use qlaster_public.Extern.{Lz4, PubkeyApi}
use qlaster_public.Types.{
  AccountUpdateWireMeta, account_update_fixed_bytes, account_update_flag_lz4, check_frame,
  decode_flag, max_account_payload_bytes, sent_at, to_u32, u8_from_bool, update_tag, wire_version,
}
use qlaster_public.Types.Compression.{choose_payload}
use qlaster_public.Types.Cursor.{get_range, take_array_32, take_u32_le, take_u64_le, take_u8}
use qlaster_public.Types.AccountPayload
use qlaster_public.Types.AccountPayload.{AccountPayload, clone_bytes, from_bytes, len}

pub record AccountUpdate (K : Type 0) : Type 0 where
  pub account_pubkey : K
  pub account_owner : K
  pub lamports : ℕ
  pub executable : Bool
  pub rent_epoch : ℕ
  pub slot : ℕ
  pub write_version : ℕ
  pub payload : AccountPayload

module _ {K : Type 0} where
  unfoldable pub new : K → K → ℕ → Bool → ℕ → Bytes → Result (AccountUpdate K)
  new account_pubkey account_owner lamports executable rent_epoch payload = do
    payload' ← AccountPayload.new payload
    ok (record {
      account_pubkey = account_pubkey;
      account_owner = account_owner;
      lamports = lamports;
      executable = executable;
      rent_epoch = rent_epoch;
      slot = 0;
      write_version = 0;
      payload = payload';
    })

  unfoldable pub with_slot_write_version : AccountUpdate K → ℕ → ℕ → AccountUpdate K
  with_slot_write_version u slot write_version = record u {
    slot = slot;
    write_version = write_version;
  }

-- The bytes of the header, in the order of the pushes.
abbrev pub header_bytes : {K : Type 0} → PubkeyApi K → AccountUpdate K → ℕ → ℕ → ℕ → ℕ → Bytes
header_bytes keys u sender_created_at_unix_nanos flags raw_payload_len wire_payload_len =
    wire_version
    ∷ update_tag
    ∷ (to_le_bytes 8 sender_created_at_unix_nanos
        ++ (keys.to_bytes u.account_pubkey
            ++ (keys.to_bytes u.account_owner
                ++ (to_le_bytes 8 u.lamports
                    ++ (u8_from_bool u.executable
                        ∷ (to_le_bytes 8 u.rent_epoch
                            ++ (to_le_bytes 8 u.slot
                                ++ (to_le_bytes 8 u.write_version
                                    ++ (flags
                                        ∷ (to_le_bytes 4 raw_payload_len
                                            ++ to_le_bytes 4 wire_payload_len))))))))))

module _ {K : Type 0} (keys : PubkeyApi K) (lz4 : Lz4) where
  unfoldable pub encode_parts_at : AccountUpdate K → ℕ → Result (Bytes × Bytes)
  encode_parts_at u sender_created_at_unix_nanos = do
    reject (ltb max_account_payload_bytes (AccountPayload.len u.payload))
        (payload_too_large (AccountPayload.len u.payload) max_account_payload_bytes)
    let raw_payload = AccountPayload.clone_bytes u.payload
    raw_payload_len_u32 ←
        to_u32 (length raw_payload)
          (payload_too_large (length raw_payload) max_account_payload_bytes)
    let (flags, wire_payload) = choose_payload lz4 raw_payload
    wire_payload_len_u32 ←
        to_u32 (length wire_payload)
          (payload_too_large (length wire_payload) max_account_payload_bytes)
    ok (
      header_bytes keys u sender_created_at_unix_nanos flags raw_payload_len_u32
          wire_payload_len_u32,
      wire_payload,
    )

  -- `now` is what `unix_time_nanos` returns.
  unfoldable pub encode_parts : AccountUpdate K → ℕ → Result (Bytes × Bytes)
  encode_parts u now = encode_parts_at u now

  unfoldable pub encode : AccountUpdate K → ℕ → Result Bytes
  encode u now = do (header, payload) ← encode_parts u now; ok (header ++ payload)

pub record DecodedAccountUpdate : Type 0 where
  pub sender_created_at_unix_nanos : ℕ
  pub account_pubkey : Bytes
  pub account_owner : Bytes
  pub lamports : ℕ
  pub executable : Bool
  pub rent_epoch : ℕ
  pub slot : ℕ
  pub write_version : ℕ
  pub compressed : Bool
  pub raw_payload_len : ℕ
  pub payload_offset : ℕ
  pub wire_payload_len : ℕ

unfoldable pub parse : Bytes → Result DecodedAccountUpdate
parse bytes = do
  check_frame bytes account_update_fixed_bytes "account update frame shorter than fixed header"
      update_tag
  (sender_created_at_unix_nanos, c1) ← take_u64_le bytes 2
  (account_pubkey, c2) ← take_array_32 bytes c1
  (account_owner, c3) ← take_array_32 bytes c2
  (lamports, c4) ← take_u64_le bytes c3
  (flag, c5) ← take_u8 bytes c4
  executable ← decode_flag flag "account update executable flag must be 0 or 1"
  (rent_epoch, c6) ← take_u64_le bytes c5
  (slot, c7) ← take_u64_le bytes c6
  (write_version, c8) ← take_u64_le bytes c7
  (flags, c9) ← take_u8 bytes c8
  reject (not (bit_and flags (bit_xor 255 account_update_flag_lz4) == 0))
      (malformed_payload "account update has unsupported compression flags")
  (raw_payload_len, c10) ← take_u32_le bytes c9
  reject (ltb max_account_payload_bytes raw_payload_len)
      (payload_too_large raw_payload_len max_account_payload_bytes)
  (wire_payload_len, c11) ← take_u32_le bytes c10
  reject (not (length bytes == add_usize c11 wire_payload_len))
      (malformed_payload "account update payload size mismatch")
  ok (record {
    sender_created_at_unix_nanos = sender_created_at_unix_nanos;
    account_pubkey = account_pubkey;
    account_owner = account_owner;
    lamports = lamports;
    executable = executable;
    rent_epoch = rent_epoch;
    slot = slot;
    write_version = write_version;
    compressed = not (bit_and flags account_update_flag_lz4 == 0);
    raw_payload_len = raw_payload_len;
    payload_offset = c11;
    wire_payload_len = wire_payload_len;
  })

-- What `decompress` returned, as a payload of the size declared.
unfoldable pub check_decompressed : String ⊎ Bytes → ℕ → Result Bytes
check_decompressed (inl e) raw_payload_len = err (decode_error (decompress_failed e))
check_decompressed (inr decompressed) raw_payload_len = do
  reject (not (length decompressed == raw_payload_len))
      (malformed_payload "account update decompressed payload size mismatch")
  ok decompressed

module _ {K : Type 0} (keys : PubkeyApi K) (lz4 : Lz4) where
  -- The `if decoded.compressed` of the decoders.
  unfoldable pub unpack_payload : DecodedAccountUpdate → Bytes → Result Bytes
  unpack_payload d wire_payload =
      if d.compressed
      then check_decompressed (lz4.decompress wire_payload d.raw_payload_len) d.raw_payload_len
      else (do
        reject (not (d.wire_payload_len == d.raw_payload_len))
            (malformed_payload "account update uncompressed payload size mismatch")
        ok wire_payload)

  unfoldable pub from_decoded :
      DecodedAccountUpdate → Bytes → Result (AccountUpdate K × AccountUpdateWireMeta)
  from_decoded d payload = do
    payload' ← AccountPayload.from_bytes payload
    ok (
      record {
        account_pubkey = keys.new_from_array d.account_pubkey;
        account_owner = keys.new_from_array d.account_owner;
        lamports = d.lamports;
        executable = d.executable;
        rent_epoch = d.rent_epoch;
        slot = d.slot;
        write_version = d.write_version;
        payload = payload';
      },
      sent_at d.sender_created_at_unix_nanos,
    )

  unfoldable pub decode_with_meta : Bytes → Result (AccountUpdate K × AccountUpdateWireMeta)
  decode_with_meta bytes = do
    d ← parse bytes
    wire_payload ←
        or_panic (get_range bytes d.payload_offset (add_usize d.payload_offset d.wire_payload_len))
    payload ← unpack_payload d wire_payload
    from_decoded d payload

  unfoldable pub decode : Bytes → Result (AccountUpdate K)
  decode bytes = map_ok (λ p. p.0) (decode_with_meta bytes)

  -- `Bytes::slice` panics out of range, as indexing by a range does.
  unfoldable pub decode_owned_with_meta : Bytes → Result (AccountUpdate K × AccountUpdateWireMeta)
  decode_owned_with_meta bytes = do
    d ← parse bytes
    wire_payload ←
        or_panic (get_range bytes d.payload_offset (add_usize d.payload_offset d.wire_payload_len))
    payload ← unpack_payload d wire_payload
    from_decoded d payload

  unfoldable pub decode_owned : Bytes → Result (AccountUpdate K)
  decode_owned bytes = map_ok (λ p. p.0) (decode_owned_with_meta bytes)

-- The widths of the fields.
pub record IsAccountUpdate {K : Type 0} (u : AccountUpdate K) : Type 0 where
  pub lamports_fits : u.lamports < 2 ^ 64
  pub rent_epoch_fits : u.rent_epoch < 2 ^ 64
  pub slot_fits : u.slot < 2 ^ 64
  pub write_version_fits : u.write_version < 2 ^ 64
  pub payload_size : length u.payload.bytes ≤ max_account_payload_bytes
