-- ===== src/Tests/Models.antt =====
-- Concrete crates: an instance of each record of Extern, with its laws.
use mathlib.Core.HLevel.{Σ_prop_path}
use native.Mathlib.Nat.{ℕ_set}
use native.Mathlib.Decide.{ℕ_discrete}
use qlaster_public.Base.{
  Bool, Bytes, List, Option, String, [], ap, ap₂, arith, drop, drop-append, false, if◌then◌else◌,
  inl, inr, leb, length, length-append, none, refl, replicate, some, sym, take, take-append, true,
  ℕ, ◌&&◌, ◌++◌, ◌+◌, ◌<◌, ◌==◌, ◌∙◌, ◌∷◌, ◌≡◌, ◌≢◌, ◌⊎◌,
}
use qlaster_public.Error.{unexpected_eof}
use qlaster_public.Extern.{IsLz4, IsPubkeyApi, IsShaq, IsStream, Lz4, PubkeyApi, Shaq, Stream}
use qlaster_public.Types.Subscription.{WireSubscriptionRequest}
use qlaster_public.Types.Ping.{WirePingRequest}
use qlaster_public.Types.Ready.{WireConnectionReady}
use qlaster_public.Types.ReadyShm.{WireConnectionReadyShm}
use qlaster_public.Types.Frames.{Codecs, IsCodecs, Supported}

-- A key is its 32 bytes.
abbrev pub Key : Type 0
Key = (bytes : Bytes) × (length bytes ≡ 32)

abbrev pub blank : Key
blank = (replicate 32 0, refl)

abbrev key_of : (b : Bytes) → Dec (length b ≡ 32) → Key
key_of b (yes e) = (b, e)
key_of b (no _) = blank

abbrev pub same_bytes : Bytes → Bytes → Bool
same_bytes [] [] = true
same_bytes [] (y ∷ ys) = false
same_bytes (x ∷ xs) [] = false
same_bytes (x ∷ xs) (y ∷ ys) = x == y && same_bytes xs ys

same_bytes_sound : (xs ys : Bytes) → same_bytes xs ys ≡ true → xs ≡ ys
same_bytes_sound [] [] h = refl
same_bytes_sound [] (y ∷ ys) h = cc
same_bytes_sound (x ∷ xs) [] h = cc
same_bytes_sound (x ∷ xs) (y ∷ ys) h =
    let head : x ≡ y = ground arith in
    let tail : same_bytes xs ys ≡ true = ground arith in ap₂ ◌∷◌ head (same_bytes_sound xs ys tail)

same_bytes_refl : (xs : Bytes) → same_bytes xs xs ≡ true
same_bytes_refl [] = refl
same_bytes_refl (x ∷ xs) = ground (arith, same_bytes_refl xs)

abbrev pub keys : PubkeyApi Key
keys = record {
  to_bytes = λ k. k.0;
  new_from_array = λ b. key_of b (ℕ_discrete (length b) 32);
  eq = λ j k. same_bytes j.0 k.0;
}

key_of_size : (b : Bytes) (d : Dec (length b ≡ 32)) → length b ≡ 32 → (key_of b d).0 ≡ b
key_of_size b (yes e) h = refl
key_of_size b (no n) h = absurd (n h)

pub keys-IsPubkeyApi : IsPubkeyApi keys
keys-IsPubkeyApi = record {
  of_to_bytes =
      λ k. Σ_prop_path (λ b. ℕ_set _ _) (key_of_size k.0 (ℕ_discrete (length k.0) 32) k.1);
  to_bytes_of = λ b h. key_of_size b (ℕ_discrete (length b) 32) h;
  to_bytes_size = λ k. k.1;
  eq_iff = λ j k. (
    λ e. ap (λ (q : Key). same_bytes j.0 q.0) (sym e) ∙ same_bytes_refl j.0,
    λ h. Σ_prop_path (λ b. ℕ_set _ _) (same_bytes_sound j.0 k.0 h),
  );
}

-- A compressor of zeros only: it drops them, and leaves all else as it is.
unfoldable pub all_zero : Bytes → Bool
all_zero [] = true
all_zero (b ∷ bs) = b == 0 && all_zero bs

abbrev expand : Bytes → ℕ → Bytes
expand [] n = replicate n 0
expand (b ∷ bs) n = b ∷ bs

abbrev pub zeros_lz4 : Lz4
zeros_lz4 = record {
  compress = λ b. if all_zero b then [] else b;
  decompress = λ b n. inr (expand b n);
}

replicate-all_zero : (b : Bytes) → all_zero b ≡ true → replicate (length b) 0 ≡ b
unfolding all_zero
replicate-all_zero [] h = refl
replicate-all_zero (b ∷ bs) h = ground (arith, replicate-all_zero bs)

expand_compressed : (b : Bytes) → expand (if all_zero b then [] else b) (length b) ≡ b
unfolding all_zero
expand_compressed [] = refl
expand_compressed (b ∷ bs) = ground (arith, replicate-all_zero (b ∷ bs))

pub zeros_lz4-IsLz4 : IsLz4 zeros_lz4
zeros_lz4-IsLz4 = record { decompress_compress = λ b. ap inr (expand_compressed b) }

-- A stream is the bytes that are on their way.
abbrev pub byte_stream : Stream Bytes
byte_stream = record {
  read_exact = λ s n. if leb n (length s) then inr (take n s, drop n s) else inl unexpected_eof;
  write_all = λ s b. inr (s ++ b);
}

pub byte_stream-IsStream : IsStream byte_stream (λ s. s)
byte_stream-IsStream = record {
  reads = λ s front rest e.
      let long : leb (length front) (length (front ++ rest)) ≡ true =
        ground (arith, length-append front rest) in
      (rest, rw (e, long, take-append front rest, drop-append front rest), refl);
  ends = λ s n h. let short : leb n (length s) ≡ false = ground (arith, h) in rw short;
  writes = λ s b. (s ++ b, refl, refl);
}

-- A queue of `cap` bytes is the bytes that wait in it.
abbrev pub batch : Bytes → ℕ → Option Bytes × Bytes
batch [] n = (none, [])
batch (b ∷ bs) n = (some (take n (b ∷ bs)), drop n (b ∷ bs))

abbrev pub byte_queue : ℕ → Shaq Bytes
byte_queue cap = record {
  try_write_slice = λ q b. if leb (length q + length b) cap then (true, q ++ b) else (false, q);
  read_batch = batch;
}

batch_front :
    (front rest : Bytes) → front ≢ [] → batch (front ++ rest) (length front) ≡ (some front, rest)
batch_front [] rest h = absurd (h refl)
batch_front (b ∷ front) rest h =
    ap₂ (λ t d. (some (b ∷ t), d)) (take-append front rest) (drop-append front rest)

pub byte_queue-IsShaq : (cap : ℕ) → IsShaq (byte_queue cap) (λ q. q) cap
byte_queue-IsShaq cap = record {
  writes = λ q b h.
      let fits : leb (length q + length b) cap ≡ true = ground (arith, h) in
      (q ++ b, rw fits, refl);
  full = λ q b h. let over : leb (length q + length b) cap ≡ false = ground (arith, h) in rw over;
  reads = λ q front rest h e. (rest, rw e (batch_front front rest h), refl);
  empty = λ q n e. rw e;
}

-- Serializers that write a byte per field, and support requests without keys and one path.
abbrev pub ring_path : String
ring_path = "/dev/shm/ring"

abbrev flag_of : ℕ → Bool
flag_of n = n == 1

abbrev pub supported : Supported
supported = record {
  Subscription = λ w. (w.account_pubkeys ≡ []) × (w.account_owners ≡ []);
  Ping = λ w. (w.slot_index < 256) × (w.slot_generation < 256);
  Ready = λ w. (w.slot_index < 256) × (w.slot_generation < 256);
  ReadyShm = λ w. w.ring_path ≡ ring_path;
}

abbrev read_subscription : Bytes → String ⊎ WireSubscriptionRequest
read_subscription (v ∷ t ∷ i ∷ g ∷ f ∷ []) = inr (record {
  wire_version = v;
  message_tag = t;
  slot_index = i;
  slot_generation = g;
  account_pubkeys = [];
  account_owners = [];
  include_transactions = f == 1;
})
read_subscription other = inl "bad request"

abbrev read_ping : Bytes → String ⊎ WirePingRequest
read_ping (v ∷ t ∷ i ∷ g ∷ []) =
    inr (record { wire_version = v; message_tag = t; slot_index = i; slot_generation = g })
read_ping other = inl "bad ping"

abbrev read_ready : Bytes → String ⊎ WireConnectionReady
read_ready (v ∷ t ∷ i ∷ g ∷ []) =
    inr (record { wire_version = v; message_tag = t; slot_index = i; slot_generation = g })
read_ready other = inl "bad ready"

abbrev read_ready_shm : Bytes → String ⊎ WireConnectionReadyShm
read_ready_shm (v ∷ t ∷ i ∷ g ∷ c ∷ []) = inr (record {
  wire_version = v;
  message_tag = t;
  slot_index = i;
  slot_generation = g;
  ring_path = ring_path;
  ring_capacity = c;
})
read_ready_shm other = inl "bad ready"

abbrev pub codecs : Codecs
codecs = record {
  subscription_codec = record {
    serialize = λ w.
        w.wire_version
        ∷ w.message_tag
        ∷ w.slot_index
        ∷ w.slot_generation
        ∷ (if w.include_transactions then 1 else 0)
        ∷ [];
    deserialize = read_subscription;
  };
  ping_codec = record {
    serialize = λ w. w.wire_version ∷ w.message_tag ∷ w.slot_index ∷ w.slot_generation ∷ [];
    deserialize = read_ping;
  };
  ready_codec = record {
    serialize = λ w. w.wire_version ∷ w.message_tag ∷ w.slot_index ∷ w.slot_generation ∷ [];
    deserialize = read_ready;
  };
  ready_shm_codec = record {
    serialize = λ w.
        w.wire_version ∷ w.message_tag ∷ w.slot_index ∷ w.slot_generation ∷ w.ring_capacity ∷ [];
    deserialize = read_ready_shm;
  };
}

bool_byte : (b : Bool) → ((if b then 1 else 0) == 1) ≡ b
bool_byte true = refl
bool_byte false = refl

subscription_path :
    (w : WireSubscriptionRequest) (p o : List Bytes) (f : Bool)
    → w.account_pubkeys ≡ p
    → w.account_owners ≡ o
    → f ≡ w.include_transactions
    → record w { account_pubkeys = p; account_owners = o; include_transactions = f } ≡ w
subscription_path w p o f e e' h = λ i. record w {
  account_pubkeys = sym e i;
  account_owners = sym e' i;
  include_transactions = h i;
}

shm_path :
    (w : WireConnectionReadyShm) (p : String) → w.ring_path ≡ p → record w { ring_path = p } ≡ w
shm_path w p e = λ i. record w { ring_path = sym e i }

pub codecs-IsCodecs : IsCodecs supported codecs
codecs-IsCodecs = record {
  subscription_laws = record {
    deserialize_serialize =
        λ w h. ap inr (subscription_path w [] [] _ h.0 h.1 (bool_byte w.include_transactions));
    front = λ w h. (_, refl);
  };
  ping_laws = record { deserialize_serialize = λ w h. refl; front = λ w h. (_, refl) };
  ready_laws = record { deserialize_serialize = λ w h. refl; front = λ w h. (_, refl) };
  ready_shm_laws = record {
    deserialize_serialize = λ w h. ap inr (shm_path w ring_path h);
    front = λ w h. (_, refl);
  };
}
