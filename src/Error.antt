-- ===== src/Error.antt =====
-- src/error.rs: `QlasterError`, and the result of code that may also panic.
--
-- A message that the source builds with `format!` is kept as the data it prints, one constructor
-- for each `format!` string; a static message is kept as a text.
use qlaster_public.Base.{
  Bool, Option, String, arith, false, ltb, none, not, refl, some, true, ℕ, ◌==◌, ◌≡◌, ◌≤◌,
}

-- `std::io::ErrorKind`, as far as the source tells the kinds apart.
pub data IoError : Type 0 where
  unexpected_eof would_block write_zero unsupported interrupted : IoError
  other_io : ℕ → IoError

-- What a `format!` call prints.
pub data Message : Type 0 where
  capacity_too_small : ℕ → Message
  create_parent_dir : IoError → Message
  open_file : String → IoError → Message
  shaq_create shaq_join : String → Message
  frame_exceeds_capacity : ℕ → ℕ → Message
  eventfd_failed : IoError → Message
  in_context : String → String → Message
  decompress_failed : String → Message
  slots_exhausted : ℕ → Message
  sendmsg_failed recvmsg_failed connect_failed accept_failed : IoError → Message
  short_recvmsg : ℕ → Message
  larger_than_buffer : ℕ → ℕ → Message
  not_a_power_of_two : ℕ → Message
  create_uds_parent create_shm_dir : IoError → Message
  bind_failed : String → IoError → Message
  expected_ready_shm : String → Message
  plain_text : String → Message

pub data QlasterError : Type 0 where
  connection_failed : QlasterError
  io : IoError → QlasterError
  frame_too_large : ℕ → QlasterError
  payload_too_large : ℕ → ℕ → QlasterError
  invalid_wire_version : ℕ → ℕ → QlasterError
  invalid_message_tag : ℕ → ℕ → QlasterError
  decode_error : Message → QlasterError
  timeout : String → QlasterError
  config_error : Message → QlasterError
  malformed_payload : String → QlasterError
  incoming_closed : QlasterError
  shm_error : Message → QlasterError
  shm_full : QlasterError
  uds_error : Message → QlasterError

-- `Result<A, QlasterError>`, or a panic: an index or a range out of bounds.
pub data Result {ℓ} (A : Type ℓ) : Type ℓ where
  ok : A → Result A
  err : QlasterError → Result A
  panicked : Result A

infixl 5 ◌>>=◌ ◌>>◌
-- `?`: a panic and an error end the function.
abbrev pub ◌>>=◌ {ℓ κ} : {A : Type ℓ} {B : Type κ} → Result A → (A → Result B) → Result B
panicked >>= rest = panicked
err e >>= rest = err e
ok value >>= rest = rest value

-- `?` on a result without a value.
abbrev pub ◌>>◌ {ℓ} : {A : Type ℓ} → Result (Unit {0}) → Result A → Result A
check >> rest = check >>= λ done. rest

-- `if test { return Err(e) }`.
abbrev pub reject : Bool → QlasterError → Result (Unit {0})
reject true e = err e
reject false e = ok tt

-- `Option::ok_or`.
abbrev pub ok_or {ℓ} : {A : Type ℓ} → Option A → QlasterError → Result A
ok_or none e = err e
ok_or (some a) e = ok a

-- An index or a range that panics out of bounds.
abbrev pub or_panic {ℓ} : {A : Type ℓ} → Option A → Result A
or_panic none = panicked
or_panic (some a) = ok a

-- `Result::map`.
abbrev pub map_ok {ℓ κ} : {A : Type ℓ} {B : Type κ} → (A → B) → Result A → Result B
map_ok f (ok a) = ok (f a)
map_ok f (err e) = err e
map_ok f panicked = panicked

-- The code returned: a value or an error.
abbrev pub Returns {ℓ} : {A : Type ℓ} → Result A → Type 0
Returns (ok a) = Unit {0}
Returns (err e) = Unit {0}
Returns panicked = ⊥

-- A chain that gives a value has a first step that gives one.
pub >>=-eq-ok {ℓ κ} :
    {A : Type ℓ} {B : Type κ} (first : Result A) (rest : A → Result B) {value : B}
    → (first >>= rest) ≡ ok value
    → (a : A) × (first ≡ ok a) × (rest a ≡ ok value)
>>=-eq-ok panicked rest h = cc
>>=-eq-ok (err e) rest h = cc
>>=-eq-ok (ok a) rest h = (a, refl, h)

pub >>=-Returns {ℓ κ} :
    {A : Type ℓ} {B : Type κ} (m : Result A) (f : A → Result B)
    → Returns m
    → ((a : A) → m ≡ ok a → Returns (f a))
    → Returns (m >>= f)
>>=-Returns (ok a) f h k = k a refl
>>=-Returns (err e) f h k = tt
>>=-Returns panicked f h k = h

pub map_ok-eq-ok {ℓ κ} :
    {A : Type ℓ} {B : Type κ} (f : A → B) (m : Result A) {b : B}
    → map_ok f m ≡ ok b
    → (a : A) × (m ≡ ok a) × (f a ≡ b)
map_ok-eq-ok f (ok a) h = (a, refl, cc)
map_ok-eq-ok f (err e) h = cc
map_ok-eq-ok f panicked h = cc

pub map_ok-Returns {ℓ κ} :
    {A : Type ℓ} {B : Type κ} (f : A → B) (m : Result A) → Returns m → Returns (map_ok f m)
map_ok-Returns f (ok a) h = tt
map_ok-Returns f (err e) h = tt
map_ok-Returns f panicked h = h

pub reject-eq-ok : (b : Bool) (e : QlasterError) {u : Unit {0}} → reject b e ≡ ok u → b ≡ false
reject-eq-ok true e h = cc
reject-eq-ok false e h = refl

pub reject-Returns : (b : Bool) (e : QlasterError) → Returns (reject b e)
reject-Returns true e = tt
reject-Returns false e = tt

pub reject-ltb_inv : (a b : ℕ) (e : QlasterError) {u : Unit {0}} → reject (ltb a b) e ≡ ok u → b ≤ a
reject-ltb_inv a b e h = ground (arith, reject-eq-ok (ltb a b) e h)

pub reject_ne_inv :
    (a b : ℕ) (e : QlasterError) {u : Unit {0}} → reject (not (a == b)) e ≡ ok u → a ≡ b
reject_ne_inv a b e h = ground (arith, reject-eq-ok (not (a == b)) e h)

pub ok-injective {ℓ} : {A : Type ℓ} {a b : A} → ok a ≡ ok b → a ≡ b
ok-injective h = cc

-- The same with the value as a variable of the rest of a proof.
pub with_ok {ℓ κ μ} :
    {A : Type ℓ} {B : Type κ} (m : Result A) (f : A → Result B) {b : B} {R : Type μ}
    → (m >>= f) ≡ ok b
    → ((a : A) → m ≡ ok a → f a ≡ ok b → R)
    → R
with_ok m f h k = let (a, e, e') = >>=-eq-ok m f h in k a e e'

pub reject->>-Returns {ℓ} :
    {A : Type ℓ} (b : Bool) (e : QlasterError) (m : Result A)
    → Returns m
    → Returns (reject b e >> m)
reject->>-Returns true e m h = tt
reject->>-Returns false e m h = h
