-- ===== src/Types/AccountPayload.antt =====
-- src/types.rs: `AccountPayload`, a payload of at most `MAX_ACCOUNT_PAYLOAD_BYTES` bytes.
use qlaster_public.Base.{Bool, Bytes, arith, if◌then◌else◌, length, ltb, ℕ, ◌==◌, ◌≡◌, ◌≤◌}
use qlaster_public.Error.{Result, Returns, err, ok, payload_too_large}
use qlaster_public.Types.{max_account_payload_bytes}

pub record AccountPayload : Type 0 where
  pub bytes : Bytes

unfoldable pub new : Bytes → Result AccountPayload
new payload =
    if ltb max_account_payload_bytes (length payload)
    then err (payload_too_large (length payload) max_account_payload_bytes)
    else ok (record { bytes = payload })

-- `Bytes::copy_from_slice` copies the slice.
unfoldable pub from_slice : Bytes → Result AccountPayload
from_slice payload = new payload

unfoldable pub from_bytes : Bytes → Result AccountPayload
from_bytes payload = new payload

unfoldable pub try_from : Bytes → Result AccountPayload
try_from value = new value

abbrev pub as_slice : AccountPayload → Bytes
as_slice p = p.bytes

abbrev pub len : AccountPayload → ℕ
len p = length p.bytes

abbrev pub is_empty : AccountPayload → Bool
is_empty p = length p.bytes == 0

abbrev pub clone_bytes : AccountPayload → Bytes
clone_bytes p = p.bytes

-- A payload within the bound is kept as it is.
pub new_of_le :
    (payload : Bytes)
    → length payload ≤ max_account_payload_bytes
    → new payload ≡ ok (record { bytes = payload })
unfolding new
new_of_le payload h = ground arith

-- What `new` returns holds the given bytes, and they are within the bound.
pub new_inv :
    (payload : Bytes) (p : AccountPayload)
    → new payload ≡ ok p
    → (p ≡ record { bytes = payload }) × (length payload ≤ max_account_payload_bytes)
unfolding new
new_inv payload p h = ground arith

pub new-Returns : (payload : Bytes) → Returns (new payload)
unfolding new
new-Returns payload = ground arith
