-- ===== src/Types.antt =====
-- src/types.rs: the wire format. Its constants and the version and tag checks are here, and each
-- kind of frame has a child module. Children use this module.
pub mod Cursor
pub mod Header
pub mod Slot
pub mod AccountPayload
pub mod TransactionPayload
pub mod Transaction
pub mod Compression
pub mod Account
pub mod Token
pub mod Subscription
pub mod Ping
pub mod Ready
pub mod ReadyShm
pub mod Frames
use qlaster_public.Base.{
  Bool, Bytes, String, false, get_elem?, if◌then◌else◌, leb, length, ltb, not, true, u32_max, ℕ,
  ◌*◌, ◌+◌, ◌==◌,
}
use qlaster_public.Error.{
  QlasterError, Result, err, invalid_message_tag, invalid_wire_version, malformed_payload, ok,
  or_panic, reject, ◌>>=◌, ◌>>◌,
}

abbrev pub request_subscribe_tag : ℕ
request_subscribe_tag = 1

abbrev pub update_tag : ℕ
update_tag = 2

abbrev pub ready_tag : ℕ
ready_tag = 3

abbrev pub request_ping_tag : ℕ
request_ping_tag = 4

abbrev pub ready_shm_tag : ℕ
ready_shm_tag = 5

abbrev pub transaction_update_tag : ℕ
transaction_update_tag = 6

abbrev pub slot_update_tag : ℕ
slot_update_tag = 7

abbrev pub wire_version : ℕ
wire_version = 9

abbrev pub unset_slot_index : ℕ
unset_slot_index = 255

abbrev pub max_account_payload_bytes : ℕ
max_account_payload_bytes = 10 * 1024 * 1024

abbrev pub max_transaction_payload_bytes : ℕ
max_transaction_payload_bytes = 10 * 1024 * 1024

abbrev pub account_update_flag_lz4 : ℕ
account_update_flag_lz4 = 1

abbrev pub account_update_compression_threshold_bytes : ℕ
account_update_compression_threshold_bytes = 500 * 1024

abbrev pub account_update_compression_sample_bytes : ℕ
account_update_compression_sample_bytes = 8 * 1024

abbrev pub account_update_compression_min_gain_bps : ℕ
account_update_compression_min_gain_bps = 75

abbrev pub account_update_fixed_bytes : ℕ
account_update_fixed_bytes = 2 + 8 + 32 * 2 + 8 * 4 + 1 + 1 + 4 + 4

abbrev pub transaction_update_fixed_bytes : ℕ
transaction_update_fixed_bytes = 2 + 8 + 8 + 4 + 1 + 64 + 4

abbrev pub slot_update_fixed_bytes : ℕ
slot_update_fixed_bytes = 2 + 8 + 8

-- `u8::from(bool)`.
abbrev pub u8_from_bool : Bool → ℕ
u8_from_bool true = 1
u8_from_bool false = 0

unfoldable pub ensure_wire : ℕ → ℕ → ℕ → Result (Unit {0})
ensure_wire found_version message_tag expected_tag = do
  reject (not (found_version == wire_version)) (invalid_wire_version found_version wire_version)
  reject (not (message_tag == expected_tag)) (invalid_message_tag message_tag expected_tag)

-- `AccountUpdateWireMeta`, which all three kinds of update share.
pub record AccountUpdateWireMeta : Type 0 where
  pub sender_created_at_unix_nanos : ℕ

abbrev pub sent_at : ℕ → AccountUpdateWireMeta
sent_at ts = record { sender_created_at_unix_nanos = ts }

-- How each update's `parse` begins: the length, then the version and the tag of the frame.
abbrev pub check_frame : Bytes → ℕ → String → ℕ → Result (Unit {0})
check_frame bytes fixed_bytes short expected_tag = do
  reject (ltb (length bytes) fixed_bytes) (malformed_payload short)
  found_version ← or_panic (get_elem? bytes 0)
  message_tag ← or_panic (get_elem? bytes 1)
  ensure_wire found_version message_tag expected_tag

-- A flag on the wire: 0 or 1.
unfoldable pub decode_flag : ℕ → String → Result Bool
decode_flag b message =
    if b == 0 then ok false else if b == 1 then ok true else err (malformed_payload message)

-- `n.try_into()` from `usize` to `u32`.
unfoldable pub to_u32 : ℕ → QlasterError → Result ℕ
to_u32 n e = if leb n u32_max then ok n else err e
