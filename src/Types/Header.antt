-- ===== src/Types/Header.antt =====
-- The checks with which each `parse` of src/types.rs begins.
use qlaster_public.Base.{
  Bool, Bytes, String, [], arith, drop, false, length, refl, true, ℕ, ◌+◌, ◌<◌, ◌^◌, ◌∷◌, ◌≡◌, ◌≤◌,
}
use qlaster_public.Error.{QlasterError, Returns, ok}
use qlaster_public.Types.{check_frame, decode_flag, ensure_wire, to_u32, u8_from_bool, wire_version}

-- A frame that begins with the version and the tag expected passes, if it is long enough.
pub check_frame-eq-ok :
    (rest : Bytes) (fixed_bytes : ℕ) (short : String) (tag : ℕ)
    → fixed_bytes ≤ length rest + 2
    → check_frame (wire_version ∷ tag ∷ rest) fixed_bytes short tag ≡ ok tt
unfolding ensure_wire
check_frame-eq-ok rest fixed_bytes short tag h = ground arith

-- A frame that passes is long enough, and begins with the version and the tag expected.
pub check_frame_inv :
    (bytes : Bytes) (fixed_bytes : ℕ) (short : String) (tag : ℕ)
    → check_frame bytes fixed_bytes short tag ≡ ok tt
    → (fixed_bytes ≤ length bytes) × (bytes ≡ wire_version ∷ tag ∷ drop 2 bytes)
unfolding ensure_wire
check_frame_inv [] fixed_bytes short tag h = ground arith
check_frame_inv (v ∷ []) fixed_bytes short tag h = ground arith
check_frame_inv (v ∷ t ∷ rest) fixed_bytes short tag h = ground arith

-- The two indexed reads are within bounds.
pub check_frame-Returns :
    (bytes : Bytes) (fixed_bytes : ℕ) (short : String) (tag : ℕ)
    → 2 ≤ fixed_bytes
    → Returns (check_frame bytes fixed_bytes short tag)
unfolding ensure_wire
check_frame-Returns [] fixed_bytes short tag h = ground arith
check_frame-Returns (v ∷ []) fixed_bytes short tag h = ground arith
check_frame-Returns (v ∷ t ∷ rest) fixed_bytes short tag h = ground arith

pub decode_flag-u8_from_bool :
    (b : Bool) (message : String) → decode_flag (u8_from_bool b) message ≡ ok b
unfolding decode_flag
decode_flag-u8_from_bool true message = refl
decode_flag-u8_from_bool false message = refl

pub decode_flag_inv :
    (n : ℕ) (message : String) (b : Bool) → decode_flag n message ≡ ok b → n ≡ u8_from_bool b
unfolding decode_flag
decode_flag_inv n message true h = ground arith
decode_flag_inv n message false h = ground arith

pub decode_flag-Returns : (n : ℕ) (message : String) → Returns (decode_flag n message)
unfolding decode_flag
decode_flag-Returns n message = ground arith

pub to_u32_of_lt : (n : ℕ) (e : QlasterError) → n < 2 ^ 32 → to_u32 n e ≡ ok n
unfolding to_u32
to_u32_of_lt n e h = ground arith
