-- ===== src/Extern.antt =====
-- What the code takes from crates outside the repository: records of the operations it calls, and
-- beside each the documented behaviour that a theorem assumes.
pub mod System
use qlaster_public.Error.{IoError, unexpected_eof}
use qlaster_public.Base.{
  Bool, Bytes, List, Option, String, [], false, inl, inr, length, none, some, true, ℕ, ◌++◌, ◌+◌,
  ◌<◌, ◌↔◌, ◌∷◌, ◌≡◌, ◌≢◌, ◌≤◌, ◌⊎◌,
}

-- `solana_pubkey::Pubkey`, a wrapper of 32 bytes.
pub record PubkeyApi (K : Type 0) : Type 0 where
  pub to_bytes : K → Bytes
  pub new_from_array : Bytes → K
  pub eq : K → K → Bool

pub record IsPubkeyApi {K : Type 0} (api : PubkeyApi K) : Type 0 where
  pub of_to_bytes : (k : K) → api.new_from_array (api.to_bytes k) ≡ k
  pub to_bytes_of : (b : Bytes) → length b ≡ 32 → api.to_bytes (api.new_from_array b) ≡ b
  pub to_bytes_size : (k : K) → length (api.to_bytes k) ≡ 32
  pub eq_iff : (j k : K) → (j ≡ k) ↔ (api.eq j k ≡ true)

-- `solana_bloom::bloom::Bloom` over keys of 32 bytes: `random` takes the number of
-- items expected; the rate and the size that the code gives it are constants.
pub record Bloom (B : Type 0) : Type 0 where
  pub random : ℕ → B
  pub add : B → Bytes → B
  pub contains : B → Bytes → Bool

-- What was added is contained; what was not may be contained too.
pub record IsBloom {B : Type 0} (bloom : Bloom B) : Type 0 where
  pub contains_added : (b : B) (x : Bytes) → bloom.contains (bloom.add b x) x ≡ true
  pub contains_kept :
      (b : B) (x y : Bytes) → bloom.contains b x ≡ true → bloom.contains (bloom.add b y) x ≡ true

-- `lz4_flex::block`: `decompress` takes the size of the output, and fails with a message.
pub record Lz4 : Type 0 where
  pub compress : Bytes → Bytes
  pub decompress : Bytes → ℕ → String ⊎ Bytes

pub record IsLz4 (lz4 : Lz4) : Type 0 where
  pub decompress_compress : (b : Bytes) → lz4.decompress (lz4.compress b) (length b) ≡ inr b

-- `wincode`: the serializer that its derive macros give a struct `A` whose first two fields are
-- bytes, the wire version and the message tag. `deserialize` fails with a message.
pub record Wincode (A : Type 0) : Type 0 where
  pub serialize : A → Bytes
  pub deserialize : Bytes → String ⊎ A

-- A value whose fields fit their types and the serializer's limits is read back, and the fields are
-- written in their order, a byte as itself.
pub record IsWincode {A : Type 0} (Fits : A → Type 0) (version tag : A → ℕ) (w : Wincode A)
    : Type 0 where
  pub deserialize_serialize : (a : A) → Fits a → w.deserialize (w.serialize a) ≡ inr a
  pub front : (a : A) → Fits a → (rest : Bytes) × (w.serialize a ≡ version a ∷ tag a ∷ rest)

-- A byte stream of `tokio`: `read_exact` and `write_all` give the stream after the call, or fail.
pub record Stream (S : Type 0) : Type 0 where
  pub read_exact : S → ℕ → IoError ⊎ (Bytes × S)
  pub write_all : S → Bytes → IoError ⊎ S

-- A connection in good order: `pending s` are the bytes that were written and not yet read, and no
-- more will follow. A read takes that many bytes, or meets the end.
pub record IsStream {S : Type 0} (stream : Stream S) (pending : S → Bytes) : Type 0 where
  pub reads :
      (s : S) (front rest : Bytes)
      → pending s ≡ front ++ rest
      → (s' : S) × (stream.read_exact s (length front) ≡ inr (front, s')) × (pending s' ≡ rest)
  pub ends : (s : S) (n : ℕ) → length (pending s) < n → stream.read_exact s n ≡ inl unexpected_eof
  pub writes :
      (s : S) (bytes : Bytes)
      → (s' : S) × (stream.write_all s bytes ≡ inr s') × (pending s' ≡ pending s ++ bytes)

-- `shaq::mpmc` over bytes, on the queue that both ends share: `try_write_slice` says whether it
-- wrote, and `read_batch` is what `reserve_read_batch` reserves, copied out and released.
pub record Shaq (Q : Type 0) : Type 0 where
  pub try_write_slice : Q → Bytes → Bool × Q
  pub read_batch : Q → ℕ → Option Bytes × Q

-- A queue of `cap` bytes: a slice is written whole or not at all, and bytes come out in order.
pub record IsShaq {Q : Type 0} (shaq : Shaq Q) (contents : Q → Bytes) (cap : ℕ) : Type 0 where
  pub writes :
      (q : Q) (bytes : Bytes)
      → length (contents q) + length bytes ≤ cap
      → (q' : Q) × (shaq.try_write_slice q bytes ≡ (true, q')) × (contents q' ≡ contents q ++ bytes)
  pub full :
      (q : Q) (bytes : Bytes)
      → cap < length (contents q) + length bytes
      → shaq.try_write_slice q bytes ≡ (false, q)
  pub reads :
      (q : Q) (front rest : Bytes)
      → front ≢ []
      → contents q ≡ front ++ rest
      → (q' : Q) × (shaq.read_batch q (length front) ≡ (some front, q')) × (contents q' ≡ rest)
  pub empty : (q : Q) (n : ℕ) → contents q ≡ [] → shaq.read_batch q n ≡ (none, q)

-- `crossbeam_queue::ArrayQueue`, for each type of element. `force_push` puts an element behind the
-- others, in place of the oldest one where the queue is full.
pub record ArrayQueue (C : Type 0 → Type 0) : Type 1 where
  pub new : {A : Type 0} → ℕ → C A
  pub force_push : {A : Type 0} → C A → A → C A
  pub pop : {A : Type 0} → C A → Option A × C A

pub record IsArrayQueue {C : Type 0 → Type 0} (api : ArrayQueue C)
    (elements : (A : Type 0) → C A → List A) (capacity : (A : Type 0) → C A → ℕ) : Type 1 where
  pub new_empty : (A : Type 0) (n : ℕ) → elements A (api.new {A = A} n) ≡ []
  pub new_capacity : (A : Type 0) (n : ℕ) → capacity A (api.new {A = A} n) ≡ n
  pub same_capacity :
      (A : Type 0) (c : C A) (a : A) → capacity A (api.force_push c a) ≡ capacity A c
  pub appends :
      (A : Type 0) (c : C A) (a : A)
      → length (elements A c) < capacity A c
      → elements A (api.force_push c a) ≡ elements A c ++ (a ∷ [])
  pub replaces :
      (A : Type 0) (c : C A) (a oldest : A) (rest : List A)
      → length (elements A c) ≡ capacity A c
      → elements A c ≡ oldest ∷ rest
      → elements A (api.force_push c a) ≡ rest ++ (a ∷ [])
  pub pops :
      (A : Type 0) (c : C A) (a : A) (rest : List A)
      → elements A c ≡ a ∷ rest
      → (c' : C A) × (api.pop c ≡ (some a, c'))
        × (elements A c' ≡ rest)
        × (capacity A c' ≡ capacity A c)
  pub pops_nothing : (A : Type 0) (c : C A) → elements A c ≡ [] → api.pop c ≡ (none, c)

-- A connection to a peer in good order: `incoming s` are the bytes that the peer wrote and that were
-- not yet read, and `outgoing s` what was written to it.
pub record IsDuplex {S : Type 0} (stream : Stream S) (incoming outgoing : S → Bytes) : Type 0 where
  pub reads :
      (s : S) (front rest : Bytes)
      → incoming s ≡ front ++ rest
      → (s' : S) × (stream.read_exact s (length front) ≡ inr (front, s'))
        × (incoming s' ≡ rest)
        × (outgoing s' ≡ outgoing s)
  pub ends : (s : S) (n : ℕ) → length (incoming s) < n → stream.read_exact s n ≡ inl unexpected_eof
  pub writes :
      (s : S) (bytes : Bytes)
      → (s' : S) × (stream.write_all s bytes ≡ inr s')
        × (incoming s' ≡ incoming s)
        × (outgoing s' ≡ outgoing s ++ bytes)
