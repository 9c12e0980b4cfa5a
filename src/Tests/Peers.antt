-- ===== src/Tests/Peers.antt =====
-- Concrete peers, queues and descriptors, with their laws.
use qlaster_public.Extern.System.{
  ControlMessage, Descriptor, IsEventfd, IsMessageSocket, IsPipe, MessageSocket, PassesNone,
  SendsWhole, rights,
}
use qlaster_public.Base.{
  Bool, Bytes, List, Option, [], ap, arith, drop, drop-append, false, from_le_bytes, if◌then◌else◌,
  inl, inr, leb, length, length-append, ltb, min, none, refl, replicate, some, suc, sym, take,
  take-append, to_le_bytes, true, u64_max, zero, ℕ, ◌++◌, ◌+◌, ◌-◌, ◌<◌, ◌==◌, ◌∙◌, ◌∷◌, ◌≡◌, ◌⊎◌,
}
use qlaster_public.Error.{IoError, interrupted, unexpected_eof, would_block}
use qlaster_public.Extern.{ArrayQueue, IsArrayQueue, IsDuplex, Stream}

-- A connection: what comes in, what went out, and the messages with descriptors.
pub record Peer : Type 0 where
  pub incoming : Bytes
  pub outgoing : Bytes
  pub messages : List (Bytes × ℕ)

abbrev pub read_if : Bool → Peer → ℕ → IoError ⊎ (Bytes × Peer)
read_if true s n = inr (take n s.incoming, record s { incoming = drop n s.incoming })
read_if false s n = inl unexpected_eof

abbrev pub peer_stream : Stream Peer
peer_stream = record {
  read_exact = λ s n. read_if (leb n (length s.incoming)) s n;
  write_all = λ s b. inr (record s { outgoing = s.outgoing ++ b });
}

pub peer_stream-IsDuplex : IsDuplex peer_stream (λ s. s.incoming) (λ s. s.outgoing)
peer_stream-IsDuplex = record {
  reads = λ s front rest e.
      let long : leb (length front) (length (front ++ rest)) ≡ true =
        ground (arith, length-append front rest) in
      (
        record s { incoming = rest },
        rw (e, long, take-append front rest, drop-append front rest),
        refl,
        refl,
      );
  ends = λ s n h. let short : leb n (length s.incoming) ≡ false = ground (arith, h) in rw short;
  writes = λ s b. (record s { outgoing = s.outgoing ++ b }, refl, refl, refl);
}

abbrev pub first_message :
    ℕ → Peer → List (Bytes × ℕ) → (IoError ⊎ (Bytes × List ControlMessage)) × Peer
first_message n s [] = (inl would_block, s)
first_message n s ((bytes, fd) ∷ rest) =
    (inr (take n bytes, rights fd [] ∷ []), record s { messages = rest })

abbrev pub with_message : Peer → Bytes → ℕ → Peer
with_message s bytes fd = record s {
  outgoing = s.outgoing ++ bytes;
  messages = s.messages ++ ((bytes, fd) ∷ []);
}

abbrev pub peer_socket : MessageSocket Peer
peer_socket = record {
  sendmsg = λ s bytes fd. (inr (length bytes), with_message s bytes fd);
  recvmsg = λ s n. first_message n s s.messages;
}

pub peer_socket-IsMessageSocket : IsMessageSocket peer_socket (λ s. s.messages)
peer_socket-IsMessageSocket = record {
  sends = λ s bytes fd. (with_message s bytes fd, refl, refl);
  receives =
      λ s bytes fd n rest e. (record s { messages = rest }, ap (first_message n s) e, λ h. refl);
}

pub peer_socket-SendsWhole :
    SendsWhole peer_socket (λ s. s.incoming) (λ s. s.outgoing) (λ s. s.messages)
peer_socket-SendsWhole = record {
  sends_whole = λ s bytes fd. (with_message s bytes fd, refl, refl, refl, refl);
}

read_keeps :
    (long : Bool) (s s' : Peer) (n : ℕ) (bytes : Bytes)
    → read_if long s n ≡ inr (bytes, s')
    → s'.messages ≡ s.messages
read_keeps true s s' n bytes e = cc
read_keeps false s s' n bytes e = cc

write_keeps :
    (s s' : Peer) (bytes : Bytes)
    → peer_stream.write_all s bytes ≡ inr s'
    → s'.messages ≡ s.messages
write_keeps s s' bytes e = cc

pub peer_stream-PassesNone : PassesNone peer_stream (λ s. s.messages)
peer_stream-PassesNone = record {
  reads_pass = λ s s' n bytes e. read_keeps (leb n (length s.incoming)) s s' n bytes e;
  writes_pass = write_keeps;
}

-- A queue is its elements and its capacity.
abbrev pub Bounded : Type 0 → Type 0
Bounded A = List A × ℕ

abbrev pub first_of : {A : Type 0} → List A → ℕ → Option A × Bounded A
first_of [] n = (none, ([], n))
first_of (a ∷ rest) n = (some a, (rest, n))

abbrev pub list_queue : ArrayQueue Bounded
list_queue = record {
  new = λ n. ([], n);
  force_push = λ c a. ((if ltb (length c.0) c.1 then c.0 else drop 1 c.0) ++ (a ∷ []), c.1);
  pop = λ c. first_of c.0 c.1;
}

pub list_queue-IsArrayQueue : IsArrayQueue list_queue (λ A c. c.0) (λ A c. c.1)
list_queue-IsArrayQueue = record {
  new_empty = λ A n. refl;
  new_capacity = λ A n. refl;
  same_capacity = λ A c a. refl;
  appends = λ A c a h. let room : ltb (length c.0) c.1 ≡ true = ground (arith, h) in rw room;
  replaces = λ A c a oldest rest size e.
      let full : ltb (length c.0) c.1 ≡ false = ground (arith, size) in
      rw full (ap (λ xs. drop 1 xs ++ (a ∷ [])) e);
  pops = λ A c a rest e. ((rest, c.1), ap (λ xs. first_of xs c.1) e, refl, refl);
  pops_nothing = λ A c e. ap (λ xs. first_of xs c.1) e ∙ ap (λ xs. (none, (xs, c.1))) (sym e);
}

-- A descriptor: the counter, or the bytes in the pipe, and the signals to come.
pub record Wakeups : Type 0 where
  pub count : ℕ
  pub signals : ℕ

-- The signals come first.
abbrev pub interruptible :
    {A : Type 0} → Wakeups → ℕ → (IoError ⊎ A) × Wakeups → (IoError ⊎ A) × Wakeups
interruptible f zero answer = answer
interruptible f (suc n) answer = (inl interrupted, record f { signals = n })

abbrev pub eventfd : Descriptor Wakeups
eventfd = record {
  write = λ f bytes. interruptible f f.signals (
      if ltb (f.count + from_le_bytes bytes) u64_max
      then (inr 8, record f { count = f.count + from_le_bytes bytes })
      else (inl would_block, f));
  read = λ f n. interruptible f f.signals (
      if f.count == 0
      then (inl would_block, f)
      else (inr (to_le_bytes 8 f.count), record f { count = 0 }));
}

interrupts :
    {A : Type 0} (f : Wakeups) (n : ℕ) (answer : (IoError ⊎ A) × Wakeups)
    → 0 < n
    → (f' : Wakeups) × (interruptible f n answer ≡ (inl interrupted, f'))
      × (f'.count ≡ f.count)
      × (f'.signals + 1 ≡ n)
interrupts f zero answer h = absurd (omega (arith, h))
interrupts f (suc n) answer h = (record f { signals = n }, refl, refl, omega arith)

quietly :
    {A : Type 0} (f : Wakeups) (n : ℕ) (answer : (IoError ⊎ A) × Wakeups)
    → n ≡ 0
    → interruptible f n answer ≡ answer
quietly f n answer e = ap (λ k. interruptible f k answer) e

pub eventfd-IsEventfd : IsEventfd eventfd (λ f. f.count) (λ f. f.signals)
eventfd-IsEventfd = record {
  write_interrupted = λ f bytes h. interrupts f f.signals _ h;
  raises = λ f bytes q size h.
      let room : ltb (f.count + from_le_bytes bytes) u64_max ≡ true = ground (arith, h) in
      (
        record f { count = f.count + from_le_bytes bytes },
        quietly f f.signals _ q ∙ rw room refl,
        refl,
        q,
      );
  saturated = λ f bytes q size h.
      let full : ltb (f.count + from_le_bytes bytes) u64_max ≡ false = ground (arith, h) in
      quietly f f.signals _ q ∙ rw full refl;
  read_interrupted = λ f n h. interrupts f f.signals _ h;
  takes = λ f n q size h.
      let positive : (f.count == 0) ≡ false = ground (arith, h) in
      (record f { count = 0 }, quietly f f.signals _ q ∙ rw positive refl, refl, q);
  nothing = λ f n q h.
      let zeroed : (f.count == 0) ≡ true = ground (arith, h) in
      quietly f f.signals _ q ∙ rw zeroed refl;
}

-- A pipe with room for this many bytes; the bytes read are ones.
abbrev pub pipe_of : ℕ → Descriptor Wakeups
pipe_of room = record {
  write = λ f bytes. interruptible f f.signals (
      if ltb f.count room then (inr 1, record f { count = f.count + 1 }) else (inl would_block, f));
  read = λ f n. interruptible f f.signals (
      if f.count == 0
      then (inl would_block, f)
      else (inr (replicate (min n f.count) 1), record f { count = f.count - min n f.count }));
}

length-replicate : (n x : ℕ) → length (replicate n x) ≡ n
length-replicate zero x = refl
length-replicate (suc n) x = ap suc (length-replicate n x)

pub pipe_of-IsPipe : (room : ℕ) → IsPipe (pipe_of room) (λ f. f.count) (λ f. f.signals) room
pipe_of-IsPipe room = record {
  write_interrupted = λ f bytes h. interrupts f f.signals _ h;
  writes = λ f b q h.
      let free : ltb f.count room ≡ true = ground (arith, h) in
      (record f { count = f.count + 1 }, quietly f f.signals _ q ∙ rw free refl, refl, q);
  full = λ f b q h.
      let taken : ltb f.count room ≡ false = ground (arith, h) in
      quietly f f.signals _ q ∙ rw taken refl;
  read_interrupted = λ f n h. interrupts f f.signals _ h;
  takes = λ f n q h some_room.
      let positive : (f.count == 0) ≡ false = ground (arith, h) in
      (
        record f { count = f.count - min n f.count },
        replicate (min n f.count) 1,
        quietly f f.signals _ q ∙ rw positive refl,
        length-replicate (min n f.count) 1,
        omega (arith, length-replicate (min n f.count) 1),
        q,
      );
  empty = λ f n q h.
      let zeroed : (f.count == 0) ≡ true = ground (arith, h) in
      quietly f f.signals _ q ∙ rw zeroed refl;
}
